-- ===== src/Lib.antt =====
-- sovVault keeps captured traffic in files and indexes it: chunks of capture segments are put back
-- in order, each record gets a locator, and the engine matches requests with their answers and
-- files them in two LMDB databases, live and epoch.
--
-- Parts, files and how they correspond to the code (paths from the repository's root):
-- - Base: names of the libraries, tests on numbers, lists. Map: `HashMap` as a list of entries, whose
--   order is the order of iteration. Bytes: big-endian integers, reading from a cursor (the `take_*`
--   and `put_*` of src/db.rs) and the order of byte strings.
-- - Id: src/id.rs, function by function.
-- - Db: the keys, values and the QR_PAIR row of src/db.rs; Db.Keys.Order: what a range of keys holds.
-- - Connection: src/connection.rs. The reserved fields of ConnState, always zero, are bytes only.
-- - Stream: SeqStream of src/qr.rs.
-- - Store: LMDB's tables as an interface (`Lmdb`) with the documented behaviour of get, put, delete
--   and range; Store.Assoc: lists of rows as such tables. put_no_overwrite is that of src/db.rs.
-- - Matcher: QrMatcher of src/qr.rs. The two write transactions are the ten tables of the record
--   `Matcher`; `ingest` and `commit` return `none` where an unwrap would panic. Matcher.Rows has the
--   steps on the tables, Terminal the ways a request ends, Engine and Ingest the handling of a packet.
--   Pending and Isolation are about QR_PENDING, Migrate, Outcome, Changes, Answered and Answer
--   about the rows of requests, Total and Commit about the `unwrap`s.
-- - Reassembly: Reassembler of src/reassembly.rs; Steps has the internal steps, Engine the entry
--   points. A step takes the state with the events so far, and `none` is a panic.
--   Reassembly.Account is about byte counts, Handover and Overlap about what is handed on, Total about
--   panics and fuel, Seal about seals.
-- - Ttl: scan_pending_ttl of src/anomaly.rs, with the two write transactions as the tables of the
--   record `Scan`. Ttl.Pairs and Ttl.Expiry are about the rows of QR_PAIR and PENDING_TTL while rows
--   are evaluated, Ttl.Window and Ttl.Deadlines about the whole scan.
-- - Ledger: the rows of the table `files` of src/ledger.rs. Batch: HotFileWriter and BatchPipeline of
--   src/batch.rs, where the writer holds the bytes of the open file; Batch.Barrier is about what lies
--   between the watermark and the end of the file, Push about push_record, Crash about
--   recovery and failed batches, Restart about opening again.
-- - Meta: src/meta.rs. Meta has kinds and detection, Extract the keys of payloads, Registry the rules,
--   which fill the interface of the engine. Reads and Cursor are about reads at an offset, Dns and Sni
--   about names in queries and ClientHellos, Total and Panic about where the code panics.
-- - Query: src/query.rs. Query has the session, lookups and statuses, Scan the pages over epochs,
--   Export the searches, exports and replays, Prune the choice of epochs by time, Open how sessions
--   are opened on a registry. Scan.Order and Past are about the order of rows and what lies past a
--   cursor, Scan.Assoc gives lists of rows as tables that are iterated in order.
-- - Capture: src/export.rs. Capture has the filter, the frames, the reader and the sink, Cache is about
--   the reader's caches, Tally about what is written and counted, Replay has the whole export.
-- - Examples: runs on concrete inputs.
--
-- How they interact: chunks of a segment go through Reassembly; the bytes that it hands on are
-- written to a file and read as records; each record is an IndexedRecord for Matcher.ingest, which
-- uses Stream for sequence numbers, Connection for the state, Db for keys and rows, and Store for
-- the tables. BatchPipeline writes the record, collects a batch and hands it to the index, a parameter
-- that stands for Matcher.ingest and Matcher.commit (the epoch database commits first), and then moves
-- the watermark of Ledger. Ttl works on the tables of Matcher between batches. Meta binds a connection
-- to a protocol when Matcher opens its first request. Query reads the tables that Matcher writes, in the
-- live database, the current epoch and the frozen ones. Capture writes the packets of the records that
-- a replay of Query feeds it, read back from the files by their locators.
--
-- Numbers are natural numbers with the range of the source's types as hypotheses, and `+=` and `-=`
-- wrap as in a release build. The drain of a segment takes as fuel one more than the number of its
-- waiting chunks, which is enough since each round takes one away; out of fuel is `none`. The loops of
-- Meta take the length of the payload, or that of the extensions and one, since each round moves on; an
-- export takes more fuel than the index has rows, and each page but the last takes one row at least.
--
-- Not modelled: errors of LMDB within a batch or a scan, which give it up; errors of the file system,
-- but for a capture's file that does not open; a clash of paths in the table `files`; threads, network, command line and configuration; the
-- printing of rows; the other tables of SQLite, whose rows are data where a query reads them; sov_probe,
-- whose record fields, TCP masks, encoding and decoding of a record are parameters, and the writer of
-- pcap_file, which is one too; arithmetic on f64, whose operations are parameters.
pub mod Base
pub mod Bytes
pub mod Id
pub mod Db
pub mod Connection
pub mod Stream
pub mod Map
pub mod Reassembly
pub mod Ttl
pub mod Ledger
pub mod Batch
pub mod Capture
pub mod Store
pub mod Matcher
pub mod Meta
pub mod Query
pub mod Examples
