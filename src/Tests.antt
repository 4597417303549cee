-- ===== src/Tests.antt =====
-- The theorems at concrete inputs, and runs of the definitions, for filemap.c, vercomp.c, base32cmd.c,
-- strcasecmp.c and tracelib.c of src/pextlib1.0, vercomp.c, registry.c and sql.c of src/cregistry,
-- darwintrace.c of src/darwintracelib1.0, libmachista.c of src/machista1.0 and main.c of
-- src/programs/daemondo.
mod FilemapTests
mod StorageTests
mod VercompTests
mod Base32Tests
mod StrcasecmpTests
mod CollationTests
mod TraceTests
mod TraceLoopTests
mod RegistryTests
mod MachoTests
mod DaemondoTests
