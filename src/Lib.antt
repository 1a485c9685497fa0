-- ===== src/Lib.antt =====
-- The storage, the wire protocol and the servers of kave, a key-value server (src/ of the
-- repository).
--
-- The program. A client sends commands over a connection; proto.rs reads them, and
-- server/client.rs turns each into a call of a store. A store is a value of the trait `Store` of
-- store/mod.rs: the `MemoryStore` beside it, or `LSMStore` of store/lsm.rs. The latter writes a
-- transaction to the commit log (store/lsm/commit_log.rs), then to a memtable; a flush writes the
-- memtable to a new SSTable file (store/lsm/sstable.rs), adds a bloom filter of its keys to the
-- bloom map, and ends the transactions in the log. At start the bloom map is read or rebuilt, and
-- the log's unfinished transactions replayed.
--
-- The files.
--   Base: lists, bytes, words, decimals, UTF-8 and `BTreeMap` (Base/Map).
--   Error: src/error.rs, and `Result` with panics and calls that have not returned.
--   External: bincode and tokio's reads and writes, as parameters with their documented laws.
--   Store: src/store/mod.rs. Store/Contract is what a store promises, on the value of each key,
--     Store/Agree compares two stores, Store/Memory is `MemoryStore`.
--   CommitLog: src/store/lsm/commit_log.rs. A log is the bytes of its file. Lines is the file
--     format, Unfinished the specification of recovery, Torn records that are cut off or too long,
--     Ids the ids of the unfinished, Interface what the store asks of a log.
--   SsTable: src/store/lsm/sstable.rs. The data directory is a map from file names to contents.
--     Layout, Points and RoundTrip are the file format, Torn a file that was not filled, Short
--     reads that are short, Interface what the store asks of tables.
--   Value, Lsm: src/store/lsm.rs. `Lsm` is the state of `LSMStore` with the files, clock and times
--     that its methods use. Read has `get` and `scan`, Write transactions, flushes and the
--     background round, Recovery start and shutdown (Crossed: two transactions at once; Torn: a
--     table's file that was not filled; Long: a record of the log that is too long to be read
--     back), Configured the start from a configuration. Lifetime is about sequences of events: the
--     calls of the store, pauses, shutdowns, crashes and starts; the other modules are named for
--     what they prove. Tables, log and bloom filter are parameters, filled by the modules above
--     through their interfaces.
--   Proto: src/proto.rs. The reads from the socket are a list of what each returns; Loops has the
--     inner loops, Machine the state machine, Replies the bytes of the answers. Under Machine,
--     Termination is about every input, Requests to Closing about documented requests, and Stream
--     about how the bytes are cut into reads: a decoder on one sequence of bytes is in the file
--     itself, Ends has bytes that end inside a request.
--   Config: src/config.rs over an environment. Crypto: src/crypto.rs over ring and base64. Client:
--     src/client.rs over DNS, TCP and TLS.
--   Server: src/server. Connection is a client's connection of client.rs, over any store: Spec is
--     what a client expects, Requests and Closing are sessions of documented requests over any
--     store that serves them, Durable is two such sessions over `LSMStore` with a crash between
--     them, Pipelines has replies that the client does not expect. Cluster is a node's connection
--     of cluster.rs, Pem the files of certificates, Settings the servers' setters and addresses.
--     Shutdown is a step relation on the tasks of src/main.rs, of both servers and of the store,
--     and on the channels between them; Invariant has what holds in every state; Bound and Ends
--     are about how the program ends.
--   Program: the start and the exit code of src/main.rs.
--   Tests: concrete codecs, streams and stores, and the theorems at concrete inputs.
--
-- Bounds. Words of 64 bits wrap (`% 2 ^ 64`); the theorems on files ask that a file fits the
-- buffer through which it is read, and those that read the log that its records fit the room of
-- one read. The loop over the log has fuel: one more than the bytes of the file, since every
-- record has at least its size. The loop of `read` has fuel for two rounds for each read and ten
-- more.
--
-- Not modelled. Locks: every method of the store is one step, and a panic ends it; only Crossed
-- has two transactions at once. A crash comes between two calls, or in a flush behind the write of
-- the table; a crash in the write of a line of the log is in CommitLog/Torn, one in the write of a
-- table in Lsm/Recovery/Torn. That file names and times grow with the clock is a condition on the
-- events. Tasks are modelled only at the end of the program. Sockets, TLS, DNS, the random
-- generator and ciphers are parameters; the command line, the .env file, logging output and the
-- wiring at start-up are calls of libraries. A read of a file is the parameter `read_buf`, with
-- the parameters `vec_room`, the room that a read makes in a new `Vec` (64 bytes in the version in
-- use), and `buffer_size`, the smallest buffer of a `BufReader` or `File` (8 KiB). Reads of files
-- that are longer than the buffer may be short; of them only SsTable/Short speaks. `sync_all` has
-- no effect on the model: what is written stays written. `trim` and `to_lowercase` are parameters,
-- since they go by Unicode's tables.
pub mod Base
pub mod Error
pub mod External
pub mod Store
pub mod CommitLog
pub mod Value
pub mod SsTable
pub mod Lsm
pub mod Proto
pub mod Config
pub mod Crypto
pub mod Client
pub mod Server
pub mod Program
pub mod Tests
