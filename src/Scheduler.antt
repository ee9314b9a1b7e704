-- ===== src/Scheduler.antt =====
-- apps/api/src/scheduler: the worker that keeps the connected leagues up to date (worker.ts), the
-- week that it asks upstream for (week.ts), and the calendar behind it (providers/configure.ts). The
-- lock of lock.ts is in Store/Leases.
pub mod Calendar
pub mod Week
pub mod Retention
pub mod Worker
pub mod Queue
pub mod Sweep
pub mod Timer
