-- ===== src/Config.antt =====
-- apps/api/src/config: the settings a process reads at its start, and refuses to start without.
pub mod Proxy
pub mod Origins
