-- ===== src/SsTable/Interface.antt =====
-- What the store above asks of SSTables, filled by sstable.rs as kave.SsTable models it.
use kave.Base.{ℕ, ◌+◌, ◌≤◌, ◌<◌, arith, Option, none, some, List, [], ◌≡◌, length, false, true}
use kave.Base.Bytes.{Bytes, blt}
use kave.Base.Map.{Map, get, insert, range, keys, IsSorted}
use kave.Error.{Result, ok, err, panic, e, file_exists, io, unexpected_eof}
use kave.External.{Codec, IsBincode, AsyncIo, IsBigEndian, FullReads}
use kave.Value.{Value}
use kave.SsTable
use kave.SsTable.{Index, Directory}
use kave.SsTable.Layout.{data_block}
use kave.SsTable.RoundTrip.{
  FixedInts, TableFits, InBuffer, length-table_bytes, index_size, table_bytes, write-taken,
  write-fresh, search_lem, scan_lem, scan-panic, table_keys_lem,
}
use kave.SsTable.Torn.{table_keys-torn}

pub record Tables : Type 0 where
  pub write : Bytes → Map Value → Directory → Result (Unit {0}) × Directory
  pub search : Bytes → Bytes → Directory → Result (Option Value) × Directory
  pub scan : Bytes → Bytes → Bytes → Directory → Result (Map Value) × Directory
  pub table_keys : Bytes → Directory → Result (List Bytes) × Directory

-- Writing makes a file at a free name; reading that file gives back what was written.
pub record IsTables (tables : Tables) : Type 0 where
  pub image : Map Value → Bytes
  pub file_size : Map Value → ℕ
  -- The longest file that is written and read back.
  pub limit : ℕ
  pub write_taken :
      (path : Bytes) (m : Map Value) (dir : Directory) (bytes : Bytes)
      → get path dir ≡ some bytes
      → tables.write path m dir ≡ (err (e (file_exists path)), dir)
  pub write_fresh :
      (path : Bytes) (m : Map Value) (dir : Directory)
      → get path dir ≡ none
      → IsSorted m
      → file_size m ≤ limit
      → tables.write path m dir ≡ (ok tt, insert path (image m) (insert path [] dir))
  pub search_ok :
      (path : Bytes) (m : Map Value) (dir : Directory) (key : Bytes)
      → get path dir ≡ some (image m)
      → file_size m ≤ limit
      → tables.search path key dir ≡ (ok (get key m), dir)
  pub scan_ok :
      (path : Bytes) (m : Map Value) (dir : Directory) (from to : Bytes)
      → blt to from ≡ false
      → get path dir ≡ some (image m)
      → file_size m ≤ limit
      → tables.scan path from to dir ≡ (ok (range from to m), dir)
  pub scan_panic :
      (path : Bytes) (m : Map Value) (dir : Directory) (from to : Bytes)
      → blt to from ≡ true
      → get path dir ≡ some (image m)
      → file_size m ≤ limit
      → tables.scan path from to dir ≡ (panic, dir)
  pub keys_ok :
      (path : Bytes) (m : Map Value) (dir : Directory)
      → get path dir ≡ some (image m)
      → file_size m ≤ limit
      → tables.table_keys path dir ≡ (ok (keys m), dir)
  pub keys_torn :
      (path bytes : Bytes) (dir : Directory)
      → get path dir ≡ some bytes
      → length bytes < 8
      → tables.table_keys path dir ≡ (err (io unexpected_eof), dir)

unfoldable pub sstables : Codec Value → Codec Index → AsyncIo → Tables
sstables values indices tokio = record {
  write = SsTable.write values indices tokio;
  search = SsTable.search values indices tokio;
  scan = SsTable.scan values indices tokio;
  table_keys = SsTable.table_keys values indices tokio;
}

pub table-Fits :
    {values : Codec Value} (bincode : IsBincode values) {indices : Codec Index}
    (index_bincode : IsBincode indices) {tokio : AsyncIo} (big_endian : IsBigEndian tokio)
    (m : Map Value)
    → FullReads tokio
    → 8 + index_size bincode index_bincode big_endian m + length (data_block bincode m)
      ≤ tokio.buffer_size
    → TableFits bincode index_bincode big_endian m
table-Fits bincode index_bincode big_endian m full fits = omega (arith, fits, full.buffer_fits)

pub whole_of :
    {values : Codec Value} (bincode : IsBincode values) {indices : Codec Index}
    (index_bincode : IsBincode indices) {tokio : AsyncIo} (big_endian : IsBigEndian tokio)
    (m : Map Value)
    → FixedInts index_bincode
    → TableFits bincode index_bincode big_endian m
    → 8 + index_size bincode index_bincode big_endian m + length (data_block bincode m)
      ≤ tokio.buffer_size
    → InBuffer bincode index_bincode big_endian m
whole_of bincode index_bincode big_endian m fixed fits whole =
    omega (arith, whole, length-table_bytes bincode index_bincode big_endian m fixed fits)

-- For files that are no longer than the buffer, and where entries take the same space whatever their numbers, the code of
-- sstable.rs keeps this interface.
unfoldable pub sstables-IsTables :
    {values : Codec Value} (bincode : IsBincode values) {indices : Codec Index}
    (index_bincode : IsBincode indices) {tokio : AsyncIo} (big_endian : IsBigEndian tokio)
    → FullReads tokio
    → FixedInts index_bincode
    → IsTables (sstables values indices tokio)
unfolding sstables
sstables-IsTables {values} bincode {indices} index_bincode {tokio} big_endian full fixed = record {
  image = table_bytes bincode index_bincode big_endian;
  file_size =
      λ m. 8 + index_size bincode index_bincode big_endian m + length (data_block bincode m);
  limit = tokio.buffer_size;
  write_taken = λ path m dir bytes h. write-taken bincode index_bincode big_endian path m dir h;
  write_fresh = λ path m dir h s fits.
      write-fresh bincode index_bincode big_endian path m dir h s fixed
        (table-Fits bincode index_bincode big_endian m full fits);
  search_ok = λ path m dir key h fits.
      search_lem bincode index_bincode big_endian path m dir key h full fixed
        (table-Fits bincode index_bincode big_endian m full fits)
        (whole_of bincode index_bincode big_endian m fixed
          (table-Fits bincode index_bincode big_endian m full fits) fits);
  scan_ok = λ path m dir from to o h fits.
      scan_lem bincode index_bincode big_endian path m dir from to o h full fixed
        (table-Fits bincode index_bincode big_endian m full fits)
        (whole_of bincode index_bincode big_endian m fixed
          (table-Fits bincode index_bincode big_endian m full fits) fits);
  scan_panic = λ path m dir from to o h fits.
      scan-panic bincode index_bincode big_endian path m dir from to o h full fixed
        (table-Fits bincode index_bincode big_endian m full fits)
        (whole_of bincode index_bincode big_endian m fixed
          (table-Fits bincode index_bincode big_endian m full fits) fits);
  keys_ok = λ path m dir h fits.
      table_keys_lem bincode index_bincode big_endian path m dir h full fixed
        (table-Fits bincode index_bincode big_endian m full fits)
        (whole_of bincode index_bincode big_endian m fixed
          (table-Fits bincode index_bincode big_endian m full fits) fits);
  keys_torn =
      λ path bytes dir h short. table_keys-torn values indices big_endian path bytes dir h short;
}
