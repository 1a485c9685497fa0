-- ===== src/Lsm/Recovery/Blooms.antt =====
-- `reconstruct_bloom_map_from_sstables` and `restore_bloom_map` of store/lsm.rs.
use kave.Base.{none, List, [], ◌∷◌, ◌++◌, ◌≡◌, refl, ◌∙◌, append_assoc, append-nil}
use kave.Base.Bytes.{Bytes}
use kave.Base.Map.{keys}
use kave.Error.{ok}
use kave.External.{Codec}
use kave.Lsm.{Lsm, BloomFilter, BloomMap, filter_of, bloom_insert}
use kave.Lsm.Flush.{filter_of-Covers, bloom_remove-below}
use kave.Lsm.Invariant.{TableList, names_asc, Descends, NoFalseNegatives, Aligned, Filed, OnDisk}
use kave.Lsm.Recovery.{
  reconstruct, reconstruct_bloom_map_from_sstables, keep_bloom_map, restore_bloom_map,
  restore_bloom_map_from_file,
}
use kave.Lsm.Scan.{get_sstables_asc_lem}
use kave.SsTable.{Directory}
use kave.SsTable.Interface.{Tables, IsTables}

module _ {Bloom : Type 0} (filters : BloomFilter Bloom) where
  unfoldable pub blooms_of : TableList → BloomMap Bloom
  blooms_of [] = []
  blooms_of ((p, m) ∷ ts) = bloom_insert p (filter_of filters (keys m) filters.empty) (blooms_of ts)

  pub blooms_of-Aligned :
      NoFalseNegatives filters → (ts : TableList) → Descends ts → Aligned filters (blooms_of ts) ts
  unfolding blooms_of bloom_insert
  blooms_of-Aligned bl [] d = tt
  blooms_of-Aligned bl ((p, m) ∷ ts) d =
      let rest = blooms_of-Aligned bl ts d.1 in
      (
        refl,
        filter_of-Covers bl m filters.empty,
        rw (bloom_remove-below filters p (blooms_of ts) ts rest d.0) rest,
      )

  module _ {tables : Tables} (laws : IsTables tables) where
    reconstruct_step :
        (p : Bytes) (ps ks : List Bytes) (blooms : BloomMap Bloom) (dir : Directory)
        → tables.table_keys p dir ≡ (ok ks, dir)
        → reconstruct filters tables (p ∷ ps) blooms dir
          ≡ reconstruct filters tables ps
              (bloom_insert p (filter_of filters ks filters.empty) blooms)
              dir
    unfolding reconstruct
    reconstruct_step p ps ks blooms dir h = rw (h, reconstruct)

    pub reconstruct-tables :
        (dir : Directory) (ts : TableList) (later : List Bytes)
        → Filed laws dir ts
        → reconstruct filters tables (names_asc ts ++ later) [] dir
          ≡ reconstruct filters tables later (blooms_of ts) dir
    unfolding names_asc blooms_of
    reconstruct-tables dir [] later f = refl
    reconstruct-tables dir ((p, m) ∷ ts) later f = rw (append_assoc (names_asc ts) (p ∷ []) later) (
        reconstruct-tables dir ts (p ∷ later) f.3
        ∙ reconstruct_step p later (keys m) (blooms_of ts) dir (laws.keys_ok p m dir f.0 f.2))

    reconstruct_lem :
        (s : Lsm Bloom) (ts : TableList)
        → OnDisk laws s.directory ts
        → reconstruct_bloom_map_from_sstables filters tables s ≡ (ok (blooms_of ts), s.directory)
    unfolding reconstruct_bloom_map_from_sstables
    reconstruct_lem s ts d =
        rw (get_sstables_asc_lem s.directory d.sorted, d.listed, ← append-nil (names_asc ts))
          (reconstruct-tables s.directory ts [] d.filed ∙ unfold reconstruct in refl)

    -- If the directory holds the files of some tables and no bloom map file counts,
    -- `restore_bloom_map` returns `Ok` and makes a map with one filter for each table, filled with
    -- the table's keys. The tables keep their interface.
    pub restore_bloom_map-rebuilt :
        (codec : Codec (BloomMap Bloom)) (s : Lsm Bloom) (ts : TableList)
        → OnDisk laws s.directory ts
        → restore_bloom_map_from_file codec s ≡ ok none
        → restore_bloom_map filters tables codec s ≡ (ok tt, record s { bloom_map = blooms_of ts })
    unfolding restore_bloom_map keep_bloom_map
    restore_bloom_map-rebuilt codec s ts d h = rw (restore_bloom_map, h, reconstruct_lem s ts d)
