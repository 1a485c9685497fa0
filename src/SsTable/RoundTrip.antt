-- ===== src/SsTable/RoundTrip.antt =====
-- `write`, `search`, `scan` and `keys` of store/lsm/sstable.rs, on a file that holds a map.
use Prim.Native.Nat.add
use kave.Base.{
  ℕ, ◌+◌, ◌≤◌, ◌<◌, true, false, none, some, [], ◌++◌, ◌≡◌, refl, sym, ap, ◌∙◌, arith, length,
  length-append, append_assoc, append-nil,
}
use kave.Base.Bytes.{Bytes, blt}
use kave.Base.Words.{u64_mod, to_be_bytes, length-to_be_bytes}
use kave.Base.Map.{Map, get, insert, range, keys, IsSorted}
use kave.Error.{ok, err, panic, e, file_exists}
use kave.External.{Codec, IsBincode, AsyncIo, IsBigEndian, FullReads, full_read}
use kave.Store.{range_checked}
use kave.Value.{Value}
use kave.SsTable.{
  IndexEntry, Index, Directory, shift, header, contents, file_handle, write, read_index, search,
  scan, table_keys,
}
use kave.SsTable.Layout.{
  data_block, layout, index_of-layout, write_values-data_block, shift-layout, Before-nil,
}
use kave.SsTable.Points.{Points, Points-range, Points-keys, Points-find, Points-read, Points-layout}

pub contents_lem :
    (path : Bytes) (dir : Directory) {bytes : Bytes}
    → get path dir ≡ some bytes
    → contents path dir ≡ bytes
unfolding contents
contents_lem path dir h = rw (h, contents)

pub file_handle_lem :
    (path : Bytes) (dir : Directory) {bytes : Bytes}
    → get path dir ≡ some bytes
    → file_handle path dir ≡ dir
unfolding file_handle
file_handle_lem path dir h = rw (h, file_handle)

-- bincode writes the two numbers of an entry in eight bytes each, whatever they are, so moving the
-- offsets does not change the size of an index.
abbrev pub FixedInts : {indices : Codec Index} → IsBincode indices → Type 0
FixedInts bincode =
    (d : ℕ) (index : Index)
    → length (bincode.encoding (shift d index)) ≡ length (bincode.encoding index)

module _ {values : Codec Value} (bincode : IsBincode values) {indices : Codec Index}
    (index_bincode : IsBincode indices) {tokio : AsyncIo} (big_endian : IsBigEndian tokio) where
  abbrev pub index_size : Map Value → ℕ
  index_size m = length (index_bincode.encoding (layout bincode 0 m))

  -- The bytes of the index block: the offsets count from the start of the file.
  abbrev pub index_block : Map Value → Bytes
  index_block m = index_bincode.encoding (layout bincode (8 + index_size m) m)

  -- The file for a map: the size of the index, the index, the data block.
  abbrev pub table_bytes : Map Value → Bytes
  table_bytes m = (to_be_bytes (index_size m) ++ index_block m) ++ data_block bincode m

  abbrev pub TableFits : Map Value → Type 0
  TableFits m = 8 + index_size m + length (data_block bincode m) < u64_mod

  -- The file is no longer than the buffer through which it is read.
  abbrev pub InBuffer : Map Value → Type 0
  InBuffer m = length (table_bytes m) ≤ tokio.buffer_size

  behind_size :
      (m : Map Value)
      → InBuffer m
      → length (index_block m ++ data_block bincode m) ≤ tokio.buffer_size
  behind_size m whole = omega (
    arith,
    whole,
    ap length (append_assoc (to_be_bytes (index_size m)) (index_block m) (data_block bincode m)),
    length-append (to_be_bytes (index_size m)) (index_block m ++ data_block bincode m),
  )

  header_lem :
      (m : Map Value)
      → IsSorted m
      → TableFits m
      → header values indices tokio m ≡ ok (index_size m, index_block m)
  unfolding header
  header_lem m s fits =
      let d = 8 + index_size m in
      rw (
        index_of-layout bincode indices tokio m 0 [] s (Before-nil IndexEntry m) (omega arith),
        index_bincode.serialized_size_ok (layout bincode 0 m),
        shift-layout bincode d 0 m (omega arith),
        add.zero d,
        index_bincode.serialize_ok (layout bincode d m),
      )

  pub length-index_block :
      (m : Map Value)
      → FixedInts index_bincode
      → TableFits m
      → length (index_block m) ≡ index_size m
  length-index_block m fixed fits =
      let d = 8 + index_size m in
      ap (λ (ix : Index). length (index_bincode.encoding ix))
        (sym (
          shift-layout bincode d 0 m (omega arith)
          ∙ ap (λ (o : ℕ). layout bincode o m) (add.zero d)))
      ∙ fixed d (layout bincode 0 m)

  -- The length of the file.
  pub length-table_bytes :
      (m : Map Value)
      → FixedInts index_bincode
      → TableFits m
      → length (table_bytes m) ≡ 8 + index_size m + length (data_block bincode m)
  length-table_bytes m fixed fits =
      let head = to_be_bytes (index_size m) in
      omega (
        arith,
        length-append (head ++ index_block m) (data_block bincode m),
        length-append head (index_block m),
        length-to_be_bytes (index_size m),
        length-index_block m fixed fits,
      )

  -- Writing to a name that is taken is an error, and changes nothing.
  pub write-taken :
      (path : Bytes) (m : Map Value) (dir : Directory) {bytes : Bytes}
      → get path dir ≡ some bytes
      → write values indices tokio path m dir ≡ (err (e (file_exists path)), dir)
  unfolding write
  write-taken path m dir h = rw (h, write)

  -- If no file has the name, the map is in key order and its file is shorter than 2^64 bytes,
  -- `write` returns `Ok` and makes the file: the size of the index in eight bytes, the index with
  -- every offset counted from the start of the file, and the values in key order. Index entries
  -- take the same space whatever their offsets, and the codecs and the stream keep their laws.
  pub write-fresh :
      (path : Bytes) (m : Map Value) (dir : Directory)
      → get path dir ≡ none
      → IsSorted m
      → FixedInts index_bincode
      → TableFits m
      → write values indices tokio path m dir
        ≡ (ok tt, insert path (table_bytes m) (insert path [] dir))
  unfolding write
  write-fresh path m dir h s fixed fits = rw (
    h,
    write,
    header_lem m s fits,
    file_handle,
    h,
    write_values-data_block bincode indices tokio m,
    big_endian.write_u64_lem (index_size m),
  )

  read_index_lem :
      (m : Map Value)
      → FullReads tokio
      → FixedInts index_bincode
      → TableFits m
      → InBuffer m
      → read_index values indices tokio (table_bytes m) ≡ ok (layout bincode (8 + index_size m) m)
  unfolding read_index
  read_index_lem m full fixed fits whole =
      let head = to_be_bytes (index_size m) in
      let data_part = data_block bincode m in
      rw
        (
          append_assoc head (index_block m) data_part,
          big_endian.read_u64_ok (index_size m) (index_block m ++ data_part) (omega arith),
          full_read tokio (index_block m) data_part (index_size m) full (behind_size m whole)
              (sym (length-index_block m fixed fits)),
        )
        (ap indices.deserialize (sym (append-nil (index_block m)))
          ∙ index_bincode.deserialize_ok (layout bincode (8 + index_size m) m) [])

  module _ (path : Bytes) (m : Map Value) (dir : Directory) where
    -- The directory has the file that was written for `m`.
    abbrev pub HasTable : Type 0
    HasTable = get path dir ≡ some (table_bytes m)

    points :
        FullReads tokio
        → FixedInts index_bincode
        → TableFits m
        → InBuffer m
        → Points values indices tokio (table_bytes m) (layout bincode (8 + index_size m) m) m
    points full fixed fits whole =
        let head = to_be_bytes (index_size m) in
        Points-layout bincode indices tokio m (head ++ index_block m) (8 + index_size m)
          (table_bytes m) full whole
          (omega (
            arith,
            length-append head (index_block m),
            length-to_be_bytes (index_size m),
            length-index_block m fixed fits,
          ))
          refl

    -- Where the directory has the file of a map, which is shorter than 2^64 bytes and no longer
    -- than the buffer through which it is read, `search` returns what the map has for the key, or
    -- nothing, and leaves the directory as it is. Index entries take the same space whatever their
    -- offsets, and the codecs and the stream keep their laws.
    pub search_lem :
        (key : Bytes)
        → HasTable
        → FullReads tokio
        → FixedInts index_bincode
        → TableFits m
        → InBuffer m
        → search values indices tokio path key dir ≡ (ok (get key m), dir)
    unfolding search
    search_lem key h full fixed fits whole = rw (
      contents_lem path dir h,
      file_handle_lem path dir h,
      read_index_lem m full fixed fits whole,
      Points-find values indices tokio (table_bytes m) key _ m (points full fixed fits whole),
    )

    -- Where the directory has the file of a map, and the file is shorter than 2^64 bytes,
    -- `keys` returns the keys of the map in order, and leaves the directory as it is. Index
    -- entries take the same space whatever their offsets, and the codecs and the stream keep
    -- their laws.
    pub table_keys_lem :
        HasTable
        → FullReads tokio
        → FixedInts index_bincode
        → TableFits m
        → InBuffer m
        → table_keys values indices tokio path dir ≡ (ok (keys m), dir)
    unfolding table_keys
    table_keys_lem h full fixed fits whole = rw (
      contents_lem path dir h,
      file_handle_lem path dir h,
      read_index_lem m full fixed fits whole,
      Points-keys values indices tokio (table_bytes m) _ m (points full fixed fits whole),
    )

    -- Where the directory has the file of a map, which is shorter than 2^64 bytes and no longer
    -- than the buffer through which it is read, `scan` over a range that does not start after its
    -- end returns the entries of the map in the range, in order, and leaves the directory as it is.
    -- Index entries take the same space whatever their offsets, and the codecs and the stream keep
    -- their laws.
    pub scan_lem :
        (from to : Bytes)
        → blt to from ≡ false
        → HasTable
        → FullReads tokio
        → FixedInts index_bincode
        → TableFits m
        → InBuffer m
        → scan values indices tokio path from to dir ≡ (ok (range from to m), dir)
    unfolding scan range_checked
    scan_lem from to o h full fixed fits whole = rw (
      contents_lem path dir h,
      file_handle_lem path dir h,
      read_index_lem m full fixed fits whole,
      o,
      Points-read values indices tokio (table_bytes m) _ (range from to m) (
          Points-range values indices tokio (table_bytes m) from to _ m
            (points full fixed fits whole)),
    )

    pub scan-panic :
        (from to : Bytes)
        → blt to from ≡ true
        → HasTable
        → FullReads tokio
        → FixedInts index_bincode
        → TableFits m
        → InBuffer m
        → scan values indices tokio path from to dir ≡ (panic, dir)
    unfolding scan range_checked
    scan-panic from to o h full fixed fits whole = rw (
      contents_lem path dir h,
      file_handle_lem path dir h,
      read_index_lem m full fixed fits whole,
      o,
    )
