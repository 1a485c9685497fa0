-- ===== src/SsTable/Torn.antt =====
-- A table's file of store/lsm/sstable.rs that a process made and did not fill.
use kave.Base.{◌<◌, some, ◌≡◌, refl, length}
use kave.Base.Bytes.{Bytes}
use kave.Base.Map.{get}
use kave.Error.{err, io, unexpected_eof}
use kave.External.{Codec, AsyncIo, IsBigEndian}
use kave.SsTable.{Index, Directory, contents, file_handle, read_index, table_keys}
use kave.Value.{Value}

-- With fewer bytes than the size of the index takes, the keys cannot be read.
pub table_keys-torn :
    (values : Codec Value) (indices : Codec Index) {tokio : AsyncIo}
    (big_endian : IsBigEndian tokio) (path bytes : Bytes) (dir : Directory)
    → get path dir ≡ some bytes
    → length bytes < 8
    → table_keys values indices tokio path dir ≡ (err (io unexpected_eof), dir)
unfolding table_keys contents file_handle read_index
table_keys-torn values indices {tokio} big_endian path bytes dir h short =
    let all : contents path dir ≡ bytes = rw (contents, h) in
    let same : file_handle path dir ≡ dir = rw (file_handle, h) in
    let cut : read_index values indices tokio bytes ≡ err (io unexpected_eof) =
      rw (read_index, big_endian.read_u64_eof bytes short) in
    rw (all, same, cut) refl
