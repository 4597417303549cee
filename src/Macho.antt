-- ===== src/Macho.antt =====
-- The library that reads the load commands of Mach-O files: src/machista1.0/libmachista.c and
-- libmachista.h. The children model the mapped file (`Mapping`), the result and the failures
-- (`Result`), the parser (`Parse`) and the calls of the library's users (`Files`).
pub mod Mapping
pub mod Result
pub mod Parse
pub mod Files
pub mod HostOrder
pub mod Fits
pub mod Reads
pub mod Returns
pub mod Slices
pub mod Endless
pub mod Image
pub mod Loads
pub mod Libraries
