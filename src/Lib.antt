-- ===== src/Lib.antt =====
-- doarr compiles a C++ function at run time, specialised to its arguments. Two programs in C work
-- together for that. dcc (the folder dcc/) stands in for the C++ compiler: it reads its command
-- line, precompiles each input file, looks in the preprocessed source for functions marked
-- `doarr::exported`, and writes a C source that holds the precompiled header, the compiler's
-- arguments and an entry for each function. The runtime (the folder runtime/), linked to the
-- program, reads these data and runs the C++ compiler again when a function is called.
--
-- Base: the names that all parts share, lists and texts as lists of bytes, and integers.
-- Options: dcc/dcc_options.c. Options/Table is the table `option_keys` in its order, with its
--   entries that have no description or action of their own. Options/Lookup is `lookup_opt`,
--   Options/Parse is `dcc_parse_args` with the actions; the state is a record of the configuration,
--   the inputs found, and the messages printed. Options/Help is the text of --help.
-- Scan: dcc/dcc_scan.c. A stream is the list of the bytes not yet read, and each function
--   gives back what it leaves; an input error and a failing malloc or realloc are parameters. At the
--   end of the stream a cast of EOF reads as the byte 255, which `ungetc` then puts back, as the
--   code does. The loops have fuel from the weight of the stream, where a byte 255 weighs 1 and any
--   other 2: putting back a 255 made from EOF happens only behind a byte that weighs more.
-- Gen: dcc/dcc_gen.c. Gen/Args are the argument vectors, Gen/Source the first part of the
--   generated source (`generate_c_part1`), Gen/Escape the literals of the compiler's arguments in
--   it, Gen/Part2 the second part with the epilog, Gen/Dump the literal of the header in it. The loop over the functions has the weight of the stream
--   for fuel. Gen/Literal is no code of the program: it reads a C string literal (with its trigraphs,
--   escapes, joined lines and neighbouring literals) as the C standard says, and is what the two writers are
--   compared with; so is Gen/Part2/Reader for the definitions around them.
-- Files: dcc/dcc_util.c and the last part of dcc/dcc_gen.c. Files/Os is the interface of the
--   system calls with the laws that the code relies on, Files/Write and Files/Map are `dcc_write`
--   and `dcc_map`, Files/Cat is `cat_unlink_close` and `move_from_tmp`, Files/NoLeftovers what they
--   leave behind. Files/Names are the names of outputs (dcc/dcc.c, dcc/dcc.h). Files/Messages are the texts of
--   errors, Files/Child is `dcc_fexecv` with `dcc_wait`, Files/Open the other wrappers. `dcc_write` has the
--   length of its buffer for fuel: each round writes a byte.
-- Process: the middle of dcc/dcc_gen.c. Process/Events are the calls, with their record: each with
--   its success, which an environment decides from all that was done before. Process/File is
--   `process_single_file` with `run_tool` and the two starts of the compiler, Process/Main is
--   `dcc_gen_main`. A write to a null stream and a failed assertion are no result. Process/Tidy and
--   the modules below Process/Main follow what is held and which files there may be: `left_over` are
--   those that no call was to remove, `present` those that no call has removed. A child is held until
--   dcc_wait is called for it, also where waitid fails.
-- Find: dcc/dcc.c. The search for the tools along PATH and the path of the compiler; the loop over
--   the capacity has fuel from the length of that path.
-- Program: `main` in dcc/dcc.c, on top of these parts. Program/Prepare goes up to the temporary
--   directory, with each early return as a value; Program/Run makes the directory, calls
--   `dcc_gen_main` in it and removes it. A host record says how each call of the system ends. The
--   fuel of `main` is that of Find.
-- Runtime: runtime/io.c. Runtime/Execute builds the compiler's command line from what dcc stored,
--   Runtime/TmpPath gives the names of temporary files, Runtime/Extract writes the precompiled header
--   to a file, Runtime/Load runs the compiler and loads the library. Runtime/Remover is the child of
--   `doarr_io_init` that removes the directory, as a step relation over it, the process and those
--   that inherit the pipe. Runtime/System is the interface
--   of the system calls, which holds the one of Files/Os; `full_write` has the length of its buffer
--   for fuel.
-- Expr: runtime/expr_all.cpp. An expression is a tree of the four classes with their hash, their
--   equality, their dynamic values and their text; Expr/Ctors are the functions that make them.
--   What only an address gives (the four objects `cls`, the identity of an object, the text of an
--   operator) is a parameter. Expr/Text says what a text means in C++, which is no code of the
--   program: pieces of source, and members read from an array. Expr/Refs are the reference counts of
--   class expr (include/doarr/expr_base.hpp), where each decref takes one fuel.
-- Call: runtime/call.cpp. The state holds the cache as a list of entries, the context of the
--   temporary names, the guest files by address and the world; `call` looks for an entry with an
--   equal key, and compiles where there is none. What it throws, and a crash, are outcomes.
-- Typed: include/doarr/expr.hpp and include/doarr/import.hpp. Typed/Types are the types of the
--   wrappers with the table `noarr`, Typed/Wrappers their constructors and operators, Typed/Terms
--   what a program can write with them. Typed/Check is no code of the program: it finds the type of
--   a bare expression from the declarations of noarr, a library that is not here: they are a
--   parameter, with what the wrappers rely on as the hypothesis `Declares`. Typed/Reads puts the wrappers and the text of
--   their expressions together. Typed/Imported are the calls of an imported function.
-- Tests: each function at concrete inputs.
--
-- A byte is a number, and a C string the list of the bytes in front of its null. An `int` is a
-- number without bound, or an integer where it can be negative: a count of arguments, and the
-- capacity of the buffer of an identifier, stay below 2 ^ 31 unless a command line or one word of a
-- source is longer than a gigabyte. A call of the operating system is a parameter that says how it
-- ends, and comes back: that a child or a call ends is not shown. Not modelled: what the
-- compiler and the tools do, but that a C compiler reads literals and definitions; macros and declarations (include/doarr/export.hpp, the other headers);
-- and explicit conversions between wrappers.
pub mod Base
pub mod Options
pub mod Scan
pub mod Gen
pub mod Runtime
pub mod Expr
pub mod Call
pub mod Typed
pub mod Files
pub mod Process
pub mod Find
pub mod Program
pub mod Tests
