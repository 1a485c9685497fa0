-- ===== src/Lsm/Recovery.antt =====
-- `initialize`, `shutdown` and the bloom map's file.
pub mod Blooms
pub mod Replay
pub mod Logged
pub mod Crash
pub mod Crossed
pub mod Torn
pub mod Long
use kave.Base.{ℕ, Bool, true, false, Option, none, some, List, [], ◌∷◌, ltb, if◌then◌else◌}
use kave.Base.Bytes.{Bytes}
use kave.Base.Map.{Map, get, insert}
use kave.CommitLog.{written_at, CommitLog}
use kave.CommitLog.Interface.{Logs}
use kave.Error.{Result, ok, err, panic, pending, io, other, ◌>>=◌, ◌▷◌}
use kave.External.{Codec}
use kave.Lsm.{Lsm, BloomFilter, BloomMap, bloom_path, bloom_insert, filter_of}
use kave.Lsm.Read.{get_sstables_asc}
use kave.Lsm.Write.{do_transact, write_sstable}
use kave.SsTable.{Directory}
use kave.SsTable.Interface.{Tables}
use kave.Store.{Transaction}

module _ {Bloom : Type 0} (blooms : Codec (BloomMap Bloom)) where
  -- An empty map is not written.
  unfoldable pub write_bloom_map : Lsm Bloom → Result (Unit {0}) × Lsm Bloom
  write_bloom_map s = elim s.bloom_map [
    | [] ↦ (ok tt, s)
    | (b ∷ bs) ↦ elim (blooms.serialize (b ∷ bs)) [
      | ok buf ↦ (
        ok tt,
        record s { directory = insert bloom_path buf s.directory; bloom_modified = s.clock },
      )
      | err x ↦ (err x, s)
      | panic ↦ (panic, s)
      | pending ↦ (pending, s)
    ]
  ]

  -- Behind the test that there is a commit log: the map's file counts only if it is not older.
  unfoldable pub read_bloom_map : Bytes → Lsm Bloom → Result (Option (BloomMap Bloom))
  read_bloom_map buf s =
      if ltb s.bloom_modified s.log_modified
      then ok none
      else do bloom_map ← blooms.deserialize buf; ok (some bloom_map)

  -- The file system has no times for a commit log that does not exist.
  unfoldable pub restore_bloom_map_from_file : Lsm Bloom → Result (Option (BloomMap Bloom))
  unfolding read_bloom_map
  restore_bloom_map_from_file s = elim (get bloom_path s.directory) [
    | none ↦ ok none
    | some buf ↦ elim s.commit_log.file [ none ↦ err (io other) | some log ↦ read_bloom_map buf s ]
  ]

module _ {Bloom : Type 0} (filters : BloomFilter Bloom) (tables : Tables) where
  -- The loop of `reconstruct_bloom_map_from_sstables`.
  unfoldable pub reconstruct :
      List Bytes → BloomMap Bloom → Directory → Result (BloomMap Bloom) × Directory
  reconstruct [] blooms dir = (ok blooms, dir)
  reconstruct (path ∷ paths) blooms dir = tables.table_keys path dir ▷ λ ks dir'.
      reconstruct paths (bloom_insert path (filter_of filters ks filters.empty) blooms) dir'

  unfoldable pub reconstruct_bloom_map_from_sstables :
      Lsm Bloom → Result (BloomMap Bloom) × Directory
  unfolding reconstruct
  reconstruct_bloom_map_from_sstables s = reconstruct (get_sstables_asc s.directory) [] s.directory

  -- The end of `restore_bloom_map`, with the map that was built.
  unfoldable pub keep_bloom_map :
      Result (BloomMap Bloom) × Directory → Lsm Bloom → Result (Unit {0}) × Lsm Bloom
  keep_bloom_map (ok blooms, dir) s = (ok tt, record s { bloom_map = blooms; directory = dir })
  keep_bloom_map (err x, dir) s = (err x, record s { directory = dir })
  keep_bloom_map (panic, dir) s = (panic, record s { directory = dir })
  keep_bloom_map (pending, dir) s = (pending, record s { directory = dir })

  unfoldable pub restore_bloom_map :
      Codec (BloomMap Bloom) → Lsm Bloom → Result (Unit {0}) × Lsm Bloom
  unfolding keep_bloom_map
  restore_bloom_map codec s = elim (restore_bloom_map_from_file codec s) [
    | ok (some blooms) ↦ (ok tt, record s { bloom_map = blooms })
    | ok none ↦ keep_bloom_map (reconstruct_bloom_map_from_sstables s) s
    | err x ↦ (err x, s)
    | panic ↦ (panic, s)
    | pending ↦ (pending, s)
  ]

module _ {Bloom : Type 0} (logs : Logs) where
  -- The loop of `restore_previous_txs`.
  unfoldable pub replay : List Transaction → Lsm Bloom → Result (Unit {0}) × Lsm Bloom
  replay [] s = (ok tt, s)
  replay (tx ∷ txs) s = do_transact logs tx false s ▷ λ _ s'. replay txs s'

  -- The store, with its commit log as reading left it.
  unfoldable pub with_read_log :
      {A : Type 0} → Lsm Bloom → Result A × CommitLog → Result A × Lsm Bloom
  with_read_log s (found, log) = (
    found,
    record s {
      commit_log = log;
      log_modified = written_at s.commit_log log s.log_modified s.clock;
    },
  )

  unfoldable pub restore_previous_txs : Lsm Bloom → Result (Unit {0}) × Lsm Bloom
  unfolding replay with_read_log
  restore_previous_txs s =
      with_read_log s (logs.get_unfinished_transactions s.commit_log) ▷ λ txs s'. replay txs s'

module _ {Bloom : Type 0} (filters : BloomFilter Bloom) (tables : Tables) (logs : Logs)
    (codec : Codec (BloomMap Bloom)) where
  unfoldable pub initialize : Lsm Bloom → Result (Unit {0}) × Lsm Bloom
  initialize s = restore_bloom_map filters tables codec s ▷ λ _ s'. restore_previous_txs logs s'

  unfoldable pub shutdown : Lsm Bloom → Result (Unit {0}) × Lsm Bloom
  shutdown s = write_sstable filters tables logs (record s { is_shutdown = true }) ▷ λ _ s'.
      write_bloom_map codec s'
