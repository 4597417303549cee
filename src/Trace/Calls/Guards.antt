-- ===== src/Trace/Calls/Guards.antt =====
-- What the guards in src/darwintracelib1.0/darwintrace.c let through to the kernel.
