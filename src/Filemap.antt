-- ===== src/Filemap.antt =====
-- src/pextlib1.0/filemap.c: dictionaries from case-insensitive file paths to port names, kept as a
-- tree of sorted arrays, saved to and loaded from a file, behind the Tcl command `filemap`.
pub mod Tree
pub mod FilePath
pub mod Access
pub mod Disk
pub mod Storage
pub mod Object
pub mod Commands
