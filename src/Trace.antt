-- ===== src/Trace.antt =====
-- Trace mode. A port is built with src/darwintracelib1.0/darwintrace.c loaded into each of its
-- processes; the library asks the server of src/pextlib1.0/tracelib.c, over a socket, which paths
-- the build may use, and guards the calls of the C library accordingly.
pub mod Strings
pub mod CleanPath
pub mod Rules
pub mod Client
pub mod Calls
pub mod Server
pub mod Environment
pub mod Messages
pub mod Loop
pub mod Dispatch
pub mod Session
