-- ===== src/Lib.antt =====
-- Models and theorems for C code of MacPorts: the filemap database, the comparison of versions,
-- base 32, the comparison of strings without regard to case, the registry's collation, transactions
-- and schema, the reading of Mach-O files, the daemon monitor daemondo, and the trace mode of builds.
--
-- The program. src/pextlib1.0 is a Tcl extension with the C commands of MacPorts. Five of its files
-- are modelled here.
--
-- src/pextlib1.0/filemap.c is a persistent map from paths to short strings. A tree of nodes and
-- leaves stands in memory; `Set`, `Get`, `Delete` and `List` walk it; `Load` and `Save` move it
-- from and to a database file; the `filemap` command of Tcl keeps each map in a variable.
--   CString           the C strings, `tolower`, `strncasecmp`, `strcasecmp`
--   Filemap/Tree      SNode, SLeaf, the error codes, and the loop over the subnodes that `Set`, `Get`
--                     and `Delete` each contain (`locate` without a change, `update` with one)
--   Filemap/FilePath  the two loops by which they cut an element off the path
--   Filemap/Access    `Set`, `Get`, `Delete`, `ListSubtree`, `List`
--   Filemap/Disk      files, and the system calls `open`, `write` and `rename`
--   Filemap/Storage   `Save`, `SaveNode`, `Load`, `LoadNode`
--   Filemap/Object    SFilemapObject, the Tcl object type, variables and results
--   Filemap/Commands  `FilemapCloseCmd` to `FilemapUnsetCmd`, `FilemapCmd`
-- The commands call Access and Storage; Storage uses the tree of Filemap/Tree and the disk. A child
-- module (Filemap/Access/GetSet) has the lemmas and theorems about its parent's definitions.
--
-- src/pextlib1.0/vercomp.c is `vercmp`, by which versions of ports are compared.
--   Vercomp           `vercmp`: its loop, one round of it, and the comparison of two segments
--
-- src/pextlib1.0/base32cmd.c has the commands that turn hexadecimal digits into base 32 and back.
--   Base32            `Base32EncodeCmd`, `Base32DecodeCmd`, and their loops
--
-- src/pextlib1.0/strcasecmp.c stands in for two functions of the C library.
--   Strcasecmp        `xstrcasecmp`, `xstrncasecmp`, with a `size_t` of 64 bits
--
-- src/cregistry is the library of the registry, a SQLite database of what is installed.
--   Collation         `vercmp` and `sql_version` of src/cregistry/vercomp.c, by which SQLite sorts
--                     versions; what is alike is taken from Vercomp
--   Registry/Connection    the calls of SQLite and their results, and the waits on a lock
--   Registry/Transactions  `reg_start`, `reg_end` and the functions that call them
--   Registry/Schema        `do_queries`, `create_tables`, `rollback_db`, `update_db` of sql.c
--   Registry/Attach        `reg_attach`, `reg_detach`, `reg_close`
--   Registry/Open          `reg_open`, `reg_vacuum`, and `init_db` and `sql_regexp` of sql.c
--   Registry/Sessions      runs of those operations, and SQLite's own rollbacks
--
-- src/machista1.0/libmachista.c reads what libraries a Mach-O file loads.
--   Macho/Mapping      the mapped file, `macho_read`, `macho_offset`, the fields in either byte
--                      order, and `strlcpy`
--   Macho/Result       the structs of the result, the allocations, and the appends to its lists
--   Macho/Parse        `parse_macho`
--   Macho/Files        `macho_parse_file` and its cache
--   Macho/Image        a specification of the files that are read
--
-- src/programs/daemondo/main.c runs a daemon for launchd, and restarts it on events.
--   Daemondo/PidFile   the globals, the pid file, and the tracking of the child
--   Daemondo/Control   `Exec`, `WaitChildDeath`, `Start`, `Stop`, `Restart`
--   Daemondo/Callbacks the signals, the timer, and the events that schedule a restart
--   Daemondo/Arguments `CollectCmdArgs`
-- The callbacks use the operations of Daemondo/Control, which use those of Daemondo/PidFile.
--
-- Trace mode: a port is built with src/darwintracelib1.0/darwintrace.c loaded into each of its
-- processes, which asks src/pextlib1.0/tracelib.c, over a socket, what it may use.
--   Trace/Strings      memory of C strings, one behind the other
--   Trace/CleanPath    `__darwintrace_cleanup_path`, in place
--   Trace/Rules        the rules of the filemap, `__darwintrace_strbeginswith`, and the list of rules
--                      as a specification (`decide`)
--   Trace/Client       `ask_for_filemap`, `ask_for_dependency`, `__darwintrace_is_in_sandbox`
--   Trace/Calls        `__darwintrace_log_op`, and the functions that stand in for those of the C
--                      library: `open` (`open_call`), `readlink`, `unlink`, `rmdir`, `mkdir`,
--                      `rename`, `stat`, `lstat`, `execve`
--   Trace/Environment  `__darwintrace_copy_env`, `__darwintrace_alloc_env`,
--                      `__darwintrace_restore_env`
--   Trace/Server       the state of tracelib.c, `send_file_map`, `dep_check`, and the subcommands
--   Trace/Messages     `process_line`
--   Trace/Loop         `TracelibRunCmd`, with an event for each wait of `select`
--   Trace/Dispatch     `TracelibCmd`
--   Trace/Session      both ends together
-- Each call of Trace/Calls asks Trace/Client, which reads the filemap that Trace/Server has made; the
-- messages of Trace/Calls are those that Trace/Messages takes.
--
-- How the code is translated. The array of subnodes is the list `Subnodes`, which is at once the
-- type of trees, since a node holds such a list. An index into the array is a place in the list;
-- the shift of the array is the list without or with one more subnode. A C string is the list of
-- its bytes, a pointer into a string what is left of it. A function that returns an error code
-- returns the code with the new state. A result of `none` (`overrun`, in a load) stands for a
-- memory error of the C code: a key that overflows `fKeySubpart`, a value without a terminator, a
-- leaf read as a node, a null root followed, a string read past the end of its buffer. No theorem
-- counts such a result as a success, and each theorem that says that a call returns excludes it.
--
-- The environment. A disk has the files and the outcomes of the system calls to come, in order,
-- each of which works or fails with any `errno`; a failing write has put out some bytes. `Load`
-- meets a failing call where the source has `open`, `fstat` and `read`, `Save` where it has `open`,
-- `write` and `rename`; `close` never matters. The platform is Darwin: NAME_MAX is 255, PATH_MAX is
-- 1024, `char` is signed, `unsigned int` has 32 bits, the locale is C. `Tcl_GetIndexFromObj` is a
-- parameter of `filemap_cmd`, of which nothing is assumed.
--
-- Fuel. `load_nodes` runs on fuel: each of its calls reads at least one byte, and `Load` gives one
-- more than the bytes of the buffer, which is enough for any buffer. `compare_loop` and
-- `collate_loop` run on fuel: each round takes a byte off the first string, and `vercmp` and
-- `sql_version` give one more than its length, which is enough for any two strings. `find_rule` and
-- `split_colons` run on fuel: each round reads at least one byte, and `is_in_sandbox` and
-- `sandbox_block` give one more than the bytes that there are. `update_rounds` has one for each
-- version that is read. `parse_macho` has the depth of the stack as fuel; a stack that holds more
-- calls than the file has bytes is enough where no entry of a universal file begins with its own
-- header, and no depth is enough where one is the whole file. Everything else is structural
-- recursion; the loops that wait on the system run over a list of what the system does.
--
-- For the registry, a connection has the results that SQLite gives, in order; a wait on a lock that
-- is never given back uses them up, and the model's result is `none`. `update_db` is given the
-- versions that it reads, one for a round. SQLite may roll a transaction back on its own behind any
-- call: where it does is a parameter of `InStep`. The byte behind the second string of a collation
-- is an argument. What `do_queries-Progress` assumes of the results of SQLite is in `IsDocumented`;
-- nothing else is assumed of them.
--
-- For trace mode, the kernel's answers about paths, the server's answers to a process, the result
-- of `registry::file_registered`, and the outcomes of `socket`, `bind` and `listen` are arguments
-- of the model; nothing is assumed of them. `getcwd` works.
--
-- For Mach-O files, the file is a list of bytes with the zeros of its last page behind it, and a
-- read outside of them is a crash; the first allocation that fails is an argument, since it ends
-- the parse. The hash map is a parameter: a put that says that it has worked is found, no put
-- changes what is found under another key, and one that says that it has failed may have changed
-- the map. Addresses do not wrap.
--
-- For daemondo, what `fork`, `wait4` and the looks at the pid file give is part of each call of the
-- run loop, and the calls come in any order. `unlink` and `fopen` on the pid file always work, or
-- never, and only daemondo and the looks for a new pid change that file.
--
-- What is not modelled. Of the registry: entries, files and their Tcl commands, the texts of SQL
-- and of errors. Of trace mode: the connection and its failures, the threads of the server, the
-- messages to the user, `close`, and the variants of `stat` and `lstat` for 64 bits. But for Mach-O
-- files, allocation never fails; its sizes are not followed, so neither is a leak. Of the order of
-- bytes above 127 nothing is shown: the well-formed trees have ASCII names. Two variables never
-- share one filemap object, so a reference count stays at 1. The lock of a filemap is granted at
-- once, and no other process changes its files. A path of PATH_MAX bytes or more, which `strncpy`
-- leaves without its terminator in `fFilemapPath`, is cut off there. Tcl's procedure for the string
-- form of a filemap, `UpdateStringOfFilemap`, which sets the constant "some filemap", and the
-- commands that only pass their arguments on, have no model. Of libmachista.c: the handle's making
-- and end, the frees, and the names of errors, versions and architectures. Of daemondo: `MainLoop`,
-- the run loop, the options but for the commands' arguments, and the messages. The rest of the
-- repository (the Tcl port engine, the commands of pextlib that are copies or glue, and more) is
-- outside of this library.
pub mod Prelude
pub mod Macho
pub mod Daemondo
pub mod Registry
pub mod CString
pub mod Filemap
pub mod Vercomp
pub mod Collation
pub mod Base32
pub mod Strcasecmp
pub mod Trace
pub mod Tests
