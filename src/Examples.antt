-- ===== src/Examples.antt =====
-- Runs of the theorems on concrete inputs.
mod Limits
mod Logins
mod Storing
mod Syncing
mod Watching
mod Keeping
mod Calling
mod Configuring
mod Resolving
mod Refreshing
