-- ===== src/Lib.antt =====
-- A model of the hash table, of the time arithmetic and of some smaller parts of the C library com_util.
--
-- prod/libsrc/com_util/hashtable/hashtable.c keeps a table of a fixed capacity in two memory areas that
-- a caller can save and attach again: a management area with the header, the bucket heads and one entry
-- for each record, and a value area. Keys and values are fixed slots, or strings in a storage with a
-- list of its free blocks. prod/libsrc/com_util/clock/timespec.c computes with times,
-- prod/libsrc/com_util/runtime/shutdown.c keeps the callbacks for the end of the process,
-- prod/libsrc/com_util/prompt/prompt_edit.c moves in a UTF-8 line and grows its buffer,
-- prod/libsrc/com_util/net/byteorder.c converts numbers for the network, and
-- prod/libsrc/com_util/crt/path_name.c takes paths apart and joins them. These parts do not call each other.
--
-- Base: native numbers, lists as C arrays, 64-bit words, integers.
-- Status: the result codes of prod/include/com_util/base/result.h.
-- Arena: `arena_reset`, `arena_find_fit`, `arena_take`, `arena_give` and `arena_validate` on a free list.
--   Arena/Blocks says which lists are well formed and which bytes they hold free; the files beside it
--   prove each operation against that set of bytes.
-- Layout: the checked arithmetic, the offsets and sizes of the areas (`hashtable_mgmt_layout`,
--   `hashtable_data_region_size`) and `hashtable_validate_config`.
-- Bytes: `strlen`, `memchr`, `strcmp`, `memcpy` and `memset` on lists of bytes.
-- Field: `key_store`, `release_key`, `key_storage_find_free` and their kin for values, as one function
--   each. The storage of a variable field uses Arena. Field/Storage says which bytes belong to which
--   record; Field/Sound and Field/Replace are what Table uses of a field of any type.
-- Table: the records and chains. Table/Put: `hashtable_put` and the updates; Table/Direct:
--   `com_util_hashtable_insert_direct`; Table/Delete: `com_util_hashtable_delete`; Table/Sweep:
--   `com_util_hashtable_push_deleted`, `_purge_deleted` and `_clear`; Table/Query: the reads;
--   Table/Resize: `com_util_hashtable_resize`; Table/Clock: the time stamps. The other files of Table
--   hold proofs; Table/Counts says when the counters of the header are true, Table/Linked when the chains
--   are in order, and Table/Valid puts both together with the fields, and defines the map that a table
--   stands for: `Holds` relates a table, a key and its value. Table/Answers lists the answers of a put
--   and of an update on that map, Table/Deleted those of a delete, Table/Inserted those of a direct insert, Table/Found those of a search;
--   Table/Reached is the step relation of the calls.
-- Timespec: `com_util_timespec_normalize` and the operations that use it.
-- Shutdown: the registrations, the walks of the two callback lists, the handlers and `com_util_exit`;
--   Shutdown/Runs: sequences of these operations.
-- Prompt: the functions of prompt_edit.c. ByteOrder: those of byteorder.c, for any host. Path: those of
--   path_name.c; Path/Names: the base name; Path/Join: the two passes of the join.
-- Tests: runs on concrete inputs.
--
-- An operation of the source that changes the table is a function from the table to a result code and a
-- table. The clock is an argument: each operation gets the time that its one reading would give. Counters
-- and sizes wrap at 64 bits, as on the supported platforms, where `sizeof` of the header is 160. Input
-- pointers are null, inside the table's memory or outside it; a null handle is not modelled.
-- A walk along a chain has the capacity as its fuel, and the result `none` says that the walk did not end.
-- In a valid table every chain has at most as many records as the capacity, so the walks end; a result
-- that is claimed of a loop alone is claimed of that loop. The loop that grows a line's buffer has the
-- bytes asked for as its fuel, since each round raises the size. Shutdown callbacks are not run: an
-- operation answers with the calls it makes, and what a callback asks of the library is a later operation.
--
-- Not modelled: `com_util_hashtable_attach`, `_validate`, `_rebuild_into`, `_compact`, `_dispose` and the
-- creation in a caller's buffers, as they work on raw memory that may be damaged; the overflow of the
-- signed parts of a time, which C leaves undefined; null times; null buffers and null
-- paths of path_name.c; the other parts of com_util, most of which call the operating system or other
-- libraries.
pub mod Base
pub mod Status
pub mod Arena
pub mod Layout
pub mod Bytes
pub mod Field
pub mod Timespec
pub mod Table
pub mod Shutdown
pub mod Prompt
pub mod ByteOrder
pub mod Path
pub mod Tests
