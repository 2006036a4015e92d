-- ===== src/Lib.antt =====
-- oxgraph: a verification library for the workspace's core crates.
--
-- The pipeline is bytes, validate, view, traverse. crates/oxgraph-layout-util has the index
-- widths, the checks of offset arrays, the helpers of the builders and the CRC;
-- crates/oxgraph-snapshot is the byte container that every layout is exported to and opened
-- from; crates/oxgraph-csr is the graph layout that is built, frozen, validated and walked;
-- the algorithms of crates/oxgraph-algo walk any dense topology, a CSR view among them.
-- crates/oxgraph-db keeps its commits in a log and names the current base in a superblock; a
-- writer records each mutation in an overlay over the base and in the log, and opening a
-- store replays the log onto the base.
--
-- Files. `Prelude` has the shared names: tests, lists, results, bytes. `Layout` is
-- crates/oxgraph-layout-util/src: `Layout.Width` the conversions of lib.rs
-- (`LayoutIndex::to_usize` is `to_usize`, `from_usize` keeps its name), `Layout.Integrity`
-- integrity.rs, `Layout.Build` build.rs, `Layout.Keys` keys.rs, `Layout.Crc` the CRC of
-- lib.rs. `Snapshot` is crates/oxgraph-snapshot/src/container.rs: `Snapshot.Format` the
-- two `repr(C)` records and their bytes, `Snapshot.Reader` `open_with` and the validation,
-- `Snapshot.Search` the standard library's binary search, `Snapshot.Sections` the
-- accessors, `Snapshot.Lookup` what they find, `Snapshot.Words` the words of typed
-- sections, `Snapshot.Writer` the write-through encoder; `Snapshot.Errors` is
-- container_error.rs. `Csr` is crates/oxgraph-csr/src/lib.rs: the view's `validate` and
-- traversal, `Csr.Validate` what a passed validation means, `Csr.Traverse` and
-- `Csr.Visits` what a walk yields; `Csr.Build` is build.rs: `GraphBuilder`, the counting
-- sort of `freeze_topology`, `transpose` and `as_view`, with `Csr.Build.Counting` and
-- `Csr.Build.Offsets` on the offsets, `Csr.Build.Scatter` and `Csr.Build.Rows` on the
-- placing of the edges, `Csr.Build.Freeze`, `Csr.Build.Builder`, `Csr.Build.View` and
-- `Csr.Build.Successors` on the whole; `Csr.Snapshot` is the export of build.rs and the
-- borrowing of lib.rs. `Db` is crates/oxgraph-db/src: `Db.Wire` the records of wire.rs and
-- their bytes, `Db.Errors` the storage errors of error.rs, `Db.Wal` wal.rs with
-- `encode_commit`, `parse_one_record` (its checks in turn `parse_headed`, `parse_sized`
-- and `parse_framed`) and `replay`, `Db.Superblock` the bytes that `write_superblock` and
-- `read_superblock` handle, `Db.Wire.Tags` and `Db.Wire.Defs` the tags and definition
-- bodies of the ops (`Db.Wire.Bodies` reads them back), `Db.Map` the standard library's
-- ordered maps and sets, `Db.State` state.rs, value.rs and id.rs, `Db.Catalog` catalog.rs,
-- `Db.Overlay` the overlay of overlay/frozen.rs and the writer of overlay/write.rs:
-- `Db.Overlay.Log` overlay/log.rs, `Db.Overlay.Inner` the mutations without their log
-- entries, `Db.Overlay.Write` those with them and the calls of a transaction (`Call`),
-- `Db.Overlay.Replay` `apply_replay_op`, `Db.Overlay.Sound` what a log replays to,
-- `Db.Overlay.Words` the ranges of what is logged, `Db.Overlay.View` what a writer shows.
-- `Db.Index` has the posting deltas of index.rs and fills the writer's interface
-- `IndexOps` (`overlay_index`). `Db.Store` has `Db::write`, `Writer::commit` and
-- `Db::open` of database/mod.rs, database/writer.rs and database/open.rs, in one base
-- generation. `Algo` is crates/oxgraph-algo/src: `Algo.Topology` the traits of
-- crates/oxgraph-topology that the algorithms ask for, `Algo.Toposort` toposort.rs,
-- `Algo.Sssp` sssp.rs, `Algo.LongestPath` longest_path_dag.rs, `Algo.OfCsr` the traits'
-- implementation by a CSR view. `Examples` runs the model.
--
-- Values. A value of an index type, a storage word or a byte is the number that it holds;
-- ranges are hypotheses. `usize_max` is the host's `usize::MAX`, a parameter. A slice is a
-- list. Methods on `&mut self` take and return the state. A panic is `none`, or `panicked`
-- where errors occur too; `v[i]` is `get_elem?` and `v[i] = x` is `set_elem?` or `store`,
-- so that an index out of bounds is a panic. The total `!`, `get_or` and `set` stand in
-- statements, and in definitions where the index is inside: after a read or a test of it,
-- in an array of fixed size, in the standard library's search, or at an index that an
-- issue of the array's check names. A loop is a recursion on its list; the binary search
-- takes the length as fuel, which its halvings never use up, `replay` has a round for each
-- byte of the log, and Kahn's loop one more than there are nodes, the breadth-first loop
-- one more than the element bound, and the path back two more than the edges of the
-- longest chain.
--
-- Parameters. A `Checksum32` is a function argument, with the laws that its documentation
-- demands (`IsChecksum`); the export of `Csr.Snapshot` passes `crc32c_append`. The `crc32c`
-- crate that the log calls is the parameter `Crc32c`, whose results are `u32` (`IsCrc`). The
-- overlay's index is an interface, `IndexOps`, without laws: what holds, holds for any index
-- that is told of the same mutations. `is_utf8` is `core::str::from_utf8`. The base's decoded
-- records are a parameter of the overlay. The algorithms take a `Topology`, whose indexes
-- tell visible elements apart (`IsDense`).
--
-- A transaction's closure is its calls on the overlay, the error it returns, if any, and how
-- the append of its record fails, if it does; a truncation after a failed append succeeds.
--
-- Not modelled: formatting of errors, capacity hints, the calls on files, the writer lock,
-- the checks of `Writer` before it calls its overlay, the fold into a new base and the
-- queries of the database, the rest of the algorithms, the hypergraph and reverse layouts,
-- the property layers, PostgreSQL and the daemon.
mod Prelude
pub mod Layout
pub mod Snapshot
pub mod Csr
pub mod Db
pub mod Algo
mod Examples
