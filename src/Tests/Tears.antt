-- ===== src/Tests/Tears.antt =====
-- The theorem on a table's file that was not filled, on the store of World.
use kave.Base.{none, [], ◌∷◌, ◌≡◌, refl, arith}
use kave.Base.Bytes.{Bytes, beq, blt}
use kave.Base.Decimal.{to_string}
use kave.Base.Map.{get, insert}
use kave.Error.{ok, err, io, unexpected_eof}
use kave.Lsm.{table_name}
use kave.Lsm.Recovery.{restore_bloom_map_from_file, initialize}
use kave.Lsm.Recovery.Crash.{restart, reopened}
use kave.Lsm.Recovery.Torn.{torn_flush, torn_table-fails}
use kave.Tests.World.{
  key_lists, tables, tables_laws, logs, no_codec, old_tables, store, store-OnDisk,
  table_200-IsNewest,
}

-- The first bytes of the size of the index.
abbrev first_bytes : Bytes
first_bytes = 0 ∷ 0 ∷ 0 ∷ []

torn-no_bloom_map :
    restore_bloom_map_from_file no_codec (reopened (torn_flush first_bytes store)) ≡ ok none
unfolding restore_bloom_map_from_file restart torn_flush get insert beq blt table_name to_string
torn-no_bloom_map = refl

torn_table-fails_example :
    initialize key_lists tables logs no_codec (reopened (torn_flush first_bytes store))
    ≡ (err (io unexpected_eof), reopened (torn_flush first_bytes store))
torn_table-fails_example =
    torn_table-fails key_lists tables_laws logs no_codec store first_bytes old_tables store-OnDisk
      table_200-IsNewest (omega arith) torn-no_bloom_map
