-- ===== src/Tests/Tables.antt =====
-- The theorems on table files, on a table with two entries.
use kave.Base.{arith, some, [], ◌∷◌, ◌≡◌, refl}
use kave.Base.Bytes.{Bytes, beq, blt}
use kave.Base.Map.{get, insert, range}
use kave.Base.Words.{to_be_bytes}
use kave.Error.{ok, panic}
use kave.SsTable
use kave.SsTable.{Directory}
use kave.SsTable.RoundTrip.{
  table_bytes, TableFits, InBuffer, write-fresh, search_lem, scan_lem, scan-panic,
}
use kave.Tests.Codecs.{
  codec-IsBincode, encode, value_codec, value_codec-IsBincode, index_codec, index_codec-IsBincode,
  index_codec-FixedInts,
}
use kave.Tests.Streams.{full_stream, full_stream-IsBigEndian, full_stream-FullReads}
use kave.Tests.World.{key_a, key_b, old_map}

abbrev name : Bytes
name = b't' ∷ []

abbrev image : Bytes
image = table_bytes value_codec-IsBincode index_codec-IsBincode full_stream-IsBigEndian old_map

abbrev dir : Directory
dir = (name, image) ∷ []

dir-HasTable : get name dir ≡ some image
unfolding get beq
dir-HasTable = refl

old_map-TableFits :
    TableFits value_codec-IsBincode index_codec-IsBincode full_stream-IsBigEndian old_map
unfolding value_codec-IsBincode index_codec-IsBincode codec-IsBincode encode
old_map-TableFits = omega arith

old_map-InBuffer :
    InBuffer value_codec-IsBincode index_codec-IsBincode full_stream-IsBigEndian old_map
unfolding value_codec-IsBincode index_codec-IsBincode codec-IsBincode encode full_stream to_be_bytes
old_map-InBuffer = omega arith

write-fresh_example :
    SsTable.write value_codec index_codec full_stream name old_map []
    ≡ (ok tt, insert name image (insert name [] []))
write-fresh_example =
    write-fresh value_codec-IsBincode index_codec-IsBincode full_stream-IsBigEndian name old_map []
      (unfold get in refl) (unfold blt in ((refl, tt), (tt, tt))) index_codec-FixedInts
      old_map-TableFits

search_lem_example :
    SsTable.search value_codec index_codec full_stream name key_b dir
    ≡ (ok (get key_b old_map), dir)
search_lem_example =
    search_lem value_codec-IsBincode index_codec-IsBincode full_stream-IsBigEndian name old_map dir
      key_b dir-HasTable full_stream-FullReads index_codec-FixedInts old_map-TableFits
      old_map-InBuffer

scan_lem_example :
    SsTable.scan value_codec index_codec full_stream name key_a key_b dir
    ≡ (ok (range key_a key_b old_map), dir)
scan_lem_example =
    scan_lem value_codec-IsBincode index_codec-IsBincode full_stream-IsBigEndian name old_map dir
      key_a key_b (unfold blt in refl) dir-HasTable full_stream-FullReads index_codec-FixedInts
      old_map-TableFits old_map-InBuffer

scan-panic_example :
    SsTable.scan value_codec index_codec full_stream name key_b key_a dir ≡ (panic, dir)
scan-panic_example =
    scan-panic value_codec-IsBincode index_codec-IsBincode full_stream-IsBigEndian name old_map dir
      key_b key_a (unfold blt in refl) dir-HasTable full_stream-FullReads index_codec-FixedInts
      old_map-TableFits old_map-InBuffer
