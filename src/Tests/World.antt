-- ===== src/Tests/World.antt =====
-- A store with one table, a memtable and a log, over the concrete libraries.
use kave.Base.{◌≤◌, Bool, false, ◌||◌, some, List, [], ◌∷◌, refl, arith}
use kave.Base.Bytes.{Bytes, beq, beq_refl, blt}
use kave.Base.Map.{Map, get, insert, keys}
use kave.CommitLog.{CommitLogLine, begin_tx}
use kave.CommitLog.Interface.{Logs, IsLogs, AllShort, commit_logs, commit_logs-IsLogs}
use kave.CommitLog.Unfinished.{unfinished, mentions}
use kave.Error.{err, bincode_error}
use kave.External.{Codec}
use kave.Lsm.{Lsm, BloomFilter, BloomMap, table_name, filter_of, perform_all}
use kave.Lsm.Contract.{LsmShows}
use kave.Lsm.Flush.{IsNewest, filter_of-Covers}
use kave.Lsm.Invariant.{TableList, NoFalseNegatives, names_asc, OnDisk, Sound, view_of}
use kave.Lsm.Read.{is_table, table_names}
use kave.Lsm.Recovery.Logged.{IsLogged}
use kave.Lsm.Recovery.Replay.{perform_txs, ids_of}
use kave.SsTable.Interface.{Tables, IsTables, sstables, sstables-IsTables}
use kave.Store.{Transaction, set, delete}
use kave.Base.Decimal.{to_string}
use kave.Tests.Codecs.{
  codec-IsBincode, encode, value_codec, value_codec-IsBincode, line_codec, line_codec-IsBincode,
  index_codec, index_codec-IsBincode, index_codec-FixedInts,
}
use kave.Tests.Streams.{full_stream, full_stream-IsBigEndian, full_stream-FullReads}
use kave.Value.{Value, present, tombstone}

-- A filter that keeps the keys.
unfoldable pub member : List Bytes → Bytes → Bool
member [] k = false
member (j ∷ js) k = beq j k || member js k

abbrev pub key_lists : BloomFilter (List Bytes)
key_lists = record { empty = []; add = λ k b. k ∷ b; contains = member }

pub key_lists-NoFalseNegatives : NoFalseNegatives key_lists
unfolding member
key_lists-NoFalseNegatives = record {
  added = λ k b. rw (beq_refl k);
  kept = λ j k b h. ground (arith, h);
}

abbrev pub tables : Tables
tables = sstables value_codec index_codec full_stream

abbrev pub tables_laws : IsTables tables
tables_laws =
    sstables-IsTables value_codec-IsBincode index_codec-IsBincode full_stream-IsBigEndian
      full_stream-FullReads index_codec-FixedInts

abbrev pub logs : Logs
logs = commit_logs line_codec full_stream

abbrev pub log_laws : IsLogs logs
log_laws = commit_logs-IsLogs line_codec-IsBincode full_stream-IsBigEndian full_stream-FullReads

abbrev pub key_a : Bytes
key_a = b'a' ∷ []

abbrev pub key_b : Bytes
key_b = b'b' ∷ []

abbrev pub old_map : Map Value
old_map = (key_a, present (b'1' ∷ [])) ∷ (key_b, present (b'2' ∷ [])) ∷ []

abbrev pub old_tables : TableList
old_tables = (table_name 100, old_map) ∷ []

abbrev pub removal : Transaction
removal = record { id = 7; operations = delete key_a ∷ [] }

abbrev pub change : Transaction
change = record { id = 8; operations = set key_b (b'3' ∷ []) ∷ [] }

abbrev pub lines : List CommitLogLine
lines = begin_tx removal ∷ begin_tx change ∷ []

-- A codec that reads and writes nothing.
abbrev pub no_codec : Codec (BloomMap (List Bytes))
no_codec = record {
  serialize = λ m. err bincode_error;
  serialized_size = λ m. err bincode_error;
  deserialize = λ bytes. err bincode_error;
}

-- The key `a` is deleted and `b` changed since the last flush.
abbrev pub store : Lsm (List Bytes)
store = record {
  memtable = (key_a, tombstone) ∷ (key_b, present (b'3' ∷ [])) ∷ [];
  tx_ids = 7 ∷ 8 ∷ [];
  commit_log = record { file = some (log_laws.image lines); logfile = false };
  directory = (table_name 100, tables_laws.image old_map) ∷ [];
  memtable_max_bytes = 10;
  bloom_map = (table_name 100, filter_of key_lists (keys old_map) []) ∷ [];
  is_shutdown = false;
  receivers = 0;
  events = [];
  clock = 200;
  log_modified = 150;
  bloom_modified = 0;
}

pub old_map-fits : tables_laws.file_size old_map ≤ tables_laws.limit
unfolding sstables-IsTables value_codec-IsBincode index_codec-IsBincode codec-IsBincode encode
    full_stream
old_map-fits = omega arith

pub memtable-fits : tables_laws.file_size store.memtable ≤ tables_laws.limit
unfolding sstables-IsTables value_codec-IsBincode index_codec-IsBincode codec-IsBincode encode
    full_stream
memtable-fits = omega arith

pub store-OnDisk : OnDisk tables_laws store.directory old_tables
unfolding get names_asc beq blt table_name to_string table_names is_table
store-OnDisk = record {
  sorted = (tt, tt);
  filed = (refl, ((refl, tt), (tt, tt)), old_map-fits, tt);
  descends = (tt, tt);
  listed = refl;
}

pub store-Sound : Sound tables_laws key_lists store old_tables
unfolding blt
store-Sound = record {
  disk = store-OnDisk;
  aligned = (refl, filter_of-Covers key_lists-NoFalseNegatives old_map [], tt);
  memtable_sorted = ((refl, tt), (tt, tt));
}

pub lines-AllShort : AllShort log_laws.line_size log_laws.line_room lines
unfolding commit_logs-IsLogs line_codec-IsBincode codec-IsBincode encode full_stream
lines-AllShort = (omega arith, (omega arith, tt))

pub store-IsLogged : IsLogged log_laws store lines
unfolding unfinished mentions perform_txs ids_of perform_all insert beq blt
store-IsLogged = record { held = refl; short = lines-AllShort; memtable_is = refl; ids_are = refl }

pub table_200-IsNewest : IsNewest tables_laws (table_name 200) store.directory
unfolding get beq blt table_name to_string table_names is_table
table_200-IsNewest = record { free = refl; above = (refl, tt) }

pub store-LsmShows :
    LsmShows key_lists tables_laws log_laws store (view_of store.memtable old_tables)
store-LsmShows = record {
  table_list = old_tables;
  lines = lines;
  sound = store-Sound;
  logged = refl;
  shown = λ k. refl;
}
