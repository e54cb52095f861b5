-- ===== src/Lib.antt =====
-- A model of the C implementation of reftable, the format in which Git keeps refs and reflogs. A table is
-- a file of blocks; a block holds records of one type in the order of their keys, each key compressed
-- against the one before, with restart points at which a key is whole; a stack of tables is read as one.
--
-- The parts, and the files that model them:
--   c/basics.c, c/git-compat-util.c, c/strbuf.c (comparisons)  Basics: BigEndian, BinSearch, Bytes, Names
--   c/record.c, c/record.h, c/include/reftable-record.h        Record: View, VarInt, Text, Key for the
--     codecs; Types for the structs; Ref, Obj, Log, Index for the four vtables; Any for the calls through
--     a vtable
--   c/block.c, c/block.h                                       Block: Writer and Reader for the functions
--     and structs; Buffer for the array of the block
--   c/stack.c, c/stack.h, c/blocksource.c (over a file)        Stack: Os for the operating system; UpToDate,
--     Types, Reload and Retry for the list of tables; Text for the names of files; Addition, Check, NewTable and Add
--     for additions; Segments, Compact, Range, Locks and Compaction for compactions; Clean for stale tables;
--     Env for what the functions are given. Left, Frame, Release, TryAdd, Commit, Begin, Loaded, Names, Spares,
--     Overwrites, Install, Finish and Kept for the proofs; Memory is a system on which they are applied
--   c/tree.c, c/tree.h                                         Tree.Search
--   c/writer.c, c/writer.h, c/include/reftable-writer.h        Writer: the structs; Output, Section, Add and
--     Close for the functions; Offsets, Run, Calls, Finish, Checks, Levels and Rounds for the proofs
--   c/reader.c, c/reader.h, c/blocksource.c (over a string)    Reader: init_reader; TableIter for the table
--     iterator and the linear seek; Footer and Open for the proofs on init_reader
--   c/pq.c, c/pq.h                                             Pq: the queue; Order, Up, Down and Heap for
--     the proofs
--   c/merged.c, c/merged.h                                     Merged: the iterator, and Table for merged
--     tables; Newest for what they promise
--   c/generic.c, hash_size of c/publicbasics.c                 Generic
--   c/refname.c                                                Refname: Validate for a single name, Names
--     and Addition for the names of a transaction
--
-- The block module calls the codecs of Record for each entry, and Record and Stack call Basics.
-- Merged works on Pq and on iterators and tables that are parameters, as C calls them through vtables. The
-- Examples module of each part applies its theorems at concrete values.
--
-- A C function keeps its name, at times without the prefix reftable_, and a struct is a record or a data type with
-- the same fields. A function that writes through a pointer returns the new value. Result (Base.Outcome) has
-- `ok`, `err` with the error code, and `fault` for what C leaves undefined: an access outside an array
-- or through NULL, an assertion that fails, or a model that has run out of fuel. Bytes are natural numbers, memory is a list of
-- them. Lengths that C keeps in an int are below 2^31 in the model, and wrap-around of size_t, uint32_t and uint64_t is written out where it can happen.
--
-- Loops: where a loop is on fuel, the fuel is the number of bytes or elements that the loop works through,
-- and each round takes one at least; the loop of compress2 calls has 64 rounds, since the room is doubled
-- until it passes 2^63, and fastlog2 has 64, since a size has 64 bits.
--
-- The stack works on the other parts: it opens tables with Reader, merges them with Merged, checks names with
-- Refname and writes tables with Writer. The calls of the operating system (Stack.Os) are operations on an unknown
-- state; IsLawful says what POSIX promises of them where no other process runs, also that a write may be short. A function that changes the stack
-- or files takes a World and returns its answer with the new one, on an error too; an answer of 1 is `ok true`. A
-- fault ends the program, and of its World nothing is claimed. Other processes can run between the two parts of a
-- compaction, compact_begin and compact_finish.
--
-- The fuel of writer_finish_section bounds the levels of an index: of the blocks of a level the last is not
-- counted, so a level has fewer entries than the one below, and the number of blocks is enough. The fuel of
-- merged_iter_next bounds the records that its tables still have. The fuels of the stack are in Stack.Env; that of
-- a reload bounds its retries, which in C end with a deadline of three seconds.
--
-- compress2, uncompress2 and crc32 of zlib and qsort are parameters of the functions that call them, as are
-- the write function of the writer and the first size of the output of compress2, which C computes in floating
-- point. The vtables of the readers are parameters of the stack. Not modelled: the
-- management of memory, printing, the indexed seek of the table reader, and c/iter.c. The Go code of the repository is not modelled.
pub mod Base
pub mod Basics
pub mod Record
pub mod Block
pub mod Refname
pub mod Stack
pub mod Tree
pub mod Merged
pub mod Pq
pub mod Writer
pub mod Reader
pub mod Generic
