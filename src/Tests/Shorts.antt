-- ===== src/Tests/Shorts.antt =====
-- The theorem on a table that is read two bytes at a time.
use kave.Base.{[], ◌∷◌, ◌≡◌, ◌⊎◌, refl, arith, some}
use kave.Base.Bytes.{Bytes, beq}
use kave.Base.Map.{get}
use kave.Error.{ok, err, bincode_error}
use kave.SsTable
use kave.SsTable.{Directory}
use kave.SsTable.RoundTrip.{table_bytes, TableFits}
use kave.SsTable.Short.{search-guarded}
use kave.Tests.Codecs.{
  codec-IsBincode, encode, value_codec, value_codec-IsBincode, index_codec, index_codec-IsBincode,
  index_codec-FixedInts,
}
use kave.Tests.Streams.{short_stream, short_stream-IsBigEndian, short_stream-Reads}
use kave.Tests.World.{key_b, old_map}

abbrev name : Bytes
name = b't' ∷ []

abbrev dir : Directory
dir =
    (name, table_bytes value_codec-IsBincode index_codec-IsBincode short_stream-IsBigEndian old_map)
    ∷ []

dir-there :
    get name dir
    ≡ some
        (table_bytes value_codec-IsBincode index_codec-IsBincode short_stream-IsBigEndian old_map)
unfolding get beq
dir-there = refl

old_map-TableFits :
    TableFits value_codec-IsBincode index_codec-IsBincode short_stream-IsBigEndian old_map
unfolding value_codec-IsBincode index_codec-IsBincode codec-IsBincode encode
old_map-TableFits = omega arith

search-guarded_example :
    (SsTable.search value_codec index_codec short_stream name key_b dir
      ≡ (ok (get key_b old_map), dir))
    ⊎ (SsTable.search value_codec index_codec short_stream name key_b dir
        ≡ (err bincode_error, dir))
search-guarded_example =
    search-guarded value_codec-IsBincode index_codec-IsBincode short_stream-IsBigEndian
      short_stream-Reads name old_map dir key_b dir-there index_codec-FixedInts old_map-TableFits
