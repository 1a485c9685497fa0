-- ===== src/SsTable.antt =====
-- store/lsm/sstable.rs: the file format of an SSTable. The files of the data directory are a map
-- from file name to contents; an `SSTable` value is its file name.
pub mod Layout
pub mod Points
pub mod RoundTrip
pub mod Short
pub mod Torn
pub mod Interface
use kave.Base.{
  ℕ, ◌+◌, ◌%◌, Bool, Option, none, some, List, [], ◌∷◌, ◌++◌, ◌==◌, if◌then◌else◌, drop,
}
use kave.Base.Bytes.{Bytes}
use kave.Base.Words.{u64_mod}
use kave.Base.Map.{Map, get, insert, keys}
use kave.Error.{Result, ok, err, panic, pending, e, file_exists, ◌>>=◌}
use kave.External.{Codec, AsyncIo}
use kave.Store.{range_checked}
use kave.Value.{Value}

pub record IndexEntry : Type 0 where
  pub offset : ℕ
  pub size : ℕ

abbrev pub Index : Type 0
Index = Map IndexEntry

abbrev pub Directory : Type 0
Directory = Map Bytes

-- Opening with `create(true)` makes an empty file if there is none.
unfoldable pub contents : Bytes → Directory → Bytes
contents path dir = elim (get path dir) [ none ↦ [] | some bytes ↦ bytes ]

unfoldable pub file_handle : Bytes → Directory → Directory
file_handle path dir = elim (get path dir) [ none ↦ insert path [] dir | some bytes ↦ dir ]

-- `val.offset += mem::size_of::<u64>() as u64 + index_size` for every entry.
unfoldable pub shift : ℕ → Index → Index
shift d [] = []
shift d ((k, entry) ∷ index) =
    (k, record entry { offset = (entry.offset + d) % u64_mod }) ∷ shift d index

module _ (values : Codec Value) (indices : Codec Index) (tokio : AsyncIo) where
  -- The loop that fills the index.
  unfoldable pub index_of : Map Value → ℕ → Index → Result Index
  index_of [] offset index = ok index
  index_of ((key, val) ∷ rest) offset index = do
    size ← values.serialized_size val
    index_of rest ((offset + size) % u64_mod)
        (insert key (record { offset = offset; size = size }) index)

  -- The loop that writes the values behind what is written. An error leaves what came before.
  unfoldable pub write_values : Map Value → Bytes → Result (Unit {0}) × Bytes
  write_values [] written = (ok tt, written)
  write_values ((key, val) ∷ rest) written = elim (values.serialize val) [
    | ok bytes ↦ write_values rest (written ++ bytes)
    | err x ↦ (err x, written)
    | panic ↦ (panic, written)
    | pending ↦ (pending, written)
  ]

  -- The size of the index, and the bytes of the index with its offsets from the start of the file.
  unfoldable pub header : Map Value → Result (ℕ × Bytes)
  unfolding index_of shift
  header memtable = do
    index ← index_of memtable 0 []
    index_size ← indices.serialized_size index
    buf ← indices.serialize (shift (8 + index_size) index)
    ok (index_size, buf)

  -- The part of `write` behind `file_handle`.
  unfoldable pub write_file :
      Bytes → Map Value → ℕ × Bytes → Directory → Result (Unit {0}) × Directory
  unfolding write_values file_handle
  write_file path memtable (index_size, buf) dir =
      let (done, bytes) = write_values memtable (tokio.write_u64 index_size ++ buf) in
      (done, insert path bytes (file_handle path dir))

  unfoldable pub write : Bytes → Map Value → Directory → Result (Unit {0}) × Directory
  unfolding header write_file
  write path memtable dir = elim (get path dir) [
    | some bytes ↦ (err (e (file_exists path)), dir)
    | none ↦ elim (header memtable) [
      | ok head ↦ write_file path memtable head dir
      | err x ↦ (err x, dir)
      | panic ↦ (panic, dir)
      | pending ↦ (pending, dir)
    ]
  ]

  unfoldable pub read_index : Bytes → Result Index
  read_index bytes = do
    (index_size, stream) ← tokio.read_u64 bytes
    (buf, rest) ← tokio.read_buf stream index_size
    indices.deserialize buf

  -- Seeking past the end of the file leaves nothing to read.
  unfoldable pub read_value : Bytes → IndexEntry → Result Value
  read_value bytes entry = do
    (buf, rest) ← tokio.read_buf (drop entry.offset bytes) entry.size
    values.deserialize buf

  -- The match of `search` on what the index has for the key.
  unfoldable pub find_value : Bytes → Option IndexEntry → Result (Option Value)
  unfolding read_value
  find_value bytes none = ok none
  find_value bytes (some entry) = do v ← read_value bytes entry; ok (some v)

  unfoldable pub search : Bytes → Bytes → Directory → Result (Option Value) × Directory
  search path key dir =
      let bytes = contents path dir in
      ((do index ← read_index bytes; find_value bytes (get key index)), file_handle path dir)

  -- The loop of `scan` over the entries of the range.
  unfoldable pub read_entries : Bytes → Index → Result (Map Value)
  unfolding read_value
  read_entries bytes [] = ok []
  read_entries bytes ((key, entry) ∷ index) = do
    val ← read_value bytes entry
    rest ← read_entries bytes index
    ok ((key, val) ∷ rest)

  unfoldable pub scan : Bytes → Bytes → Bytes → Directory → Result (Map Value) × Directory
  scan path from to dir =
      let bytes = contents path dir in
      (
        (do
          index ← read_index bytes
          found ← range_checked from to index
          read_entries bytes found),
        file_handle path dir,
      )

  unfoldable pub table_keys : Bytes → Directory → Result (List Bytes) × Directory
  table_keys path dir =
      ((do index ← read_index (contents path dir); ok (keys index)), file_handle path dir)
