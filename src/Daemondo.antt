-- ===== src/Daemondo.antt =====
-- src/programs/daemondo/main.c, which runs a daemon in launchd's place: it starts the process,
-- watches it, and restarts it on the events that it was told of. The children model the pid file
-- (`PidFile`), start, stop and restart (`Control`), the callbacks of the run loop (`Callbacks`) and
-- the arguments of a command (`Arguments`).
pub mod PidFile
pub mod Control
pub mod Callbacks
pub mod Keeps
pub mod Timers
pub mod Tidy
pub mod Stops
pub mod Arguments
