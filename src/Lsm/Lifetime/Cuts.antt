-- ===== src/Lsm/Lifetime/Cuts.antt =====
-- A process of store/lsm.rs that ends inside a flush, and the start of the next.
use kave.Base.{
  ◌<◌, length, false, ℕ, zero, suc, List, [], ◌∷◌, ◌++◌, ◌≡◌, refl, ◌∙◌, sym, ap, arith, take, drop,
  take-append-drop,
}
use kave.Base.Map.{keys, insert}
use kave.CommitLog.{written_at, CommitLogLine}
use kave.CommitLog.Ids.{end_lines, unfinished-end_lines}
use kave.CommitLog.Interface.{LogFits, Logs, IsLogs, AllShort}
use kave.CommitLog.Unfinished.{unfinished}
use kave.Error.{ok}
use kave.External.{Codec}
use kave.Lsm.{Lsm, BloomFilter, BloomMap, table_name, bloom_insert, filter_of}
use kave.Lsm.Flush.{written_at-end_all, ends, end_all_lem, OnDisk-insert}
use kave.Lsm.Flush.Names.{insert-insert}
use kave.Lsm.Invariant.{NoFalseNegatives}
use kave.Lsm.Lifetime.{CanFlush, cut_flush}
use kave.Lsm.Lifetime.Alive.{Files, Alive, Alive-view, starts-Alive}
use kave.Lsm.Lifetime.Each.{EachOf-drop}
use kave.Lsm.Lifetime.Runs.{BloomFile-table, end_all-Made}
use kave.Lsm.Recovery.{initialize}
use kave.Lsm.Recovery.Crash.{reopened, replayed_over_table}
use kave.Lsm.Recovery.Logged.{full-ids, AllShort-append, ends-ids_of}
use kave.Lsm.Recovery.Replay.{ids_of}
use kave.Lsm.Write.{is_empty, end_all, with_log, add_table}
use kave.SsTable.{Directory}
use kave.SsTable.Interface.{Tables, IsTables}
use kave.Store.{Uuid, Transaction}
use kave.Store.Contract.{View}

take-ids_of : (n : ℕ) (txs : List Transaction) → take n (ids_of txs) ≡ ids_of (take n txs)
unfolding ids_of
take-ids_of zero txs = refl
take-ids_of (suc n) [] = refl
take-ids_of (suc n) (tx ∷ txs) = ap (◌∷◌ tx.id) (take-ids_of n txs)

take-filled : (n : ℕ) (ids : List Uuid) → 0 < n → 0 < length ids → 0 < length (take n ids)
take-filled zero ids h filled = h
take-filled (suc n) [] h filled = filled
take-filled (suc n) (id ∷ ids) h filled = omega arith

AllShort-take :
    (size : CommitLogLine → ℕ) (room n : ℕ) (ids : List Uuid)
    → AllShort size room (ends ids)
    → AllShort size room (ends (take n ids))
AllShort-take size room zero ids h = tt
AllShort-take size room (suc n) [] h = tt
AllShort-take size room (suc n) (id ∷ ids) h = (h.0, AllShort-take size room n ids h.1)

module _ {Bloom : Type 0} {filters : BloomFilter Bloom} (bloom_laws : NoFalseNegatives filters)
    {tables : Tables} (laws : IsTables tables) {logs : Logs} (log_laws : IsLogs logs)
    (codec : Codec (BloomMap Bloom)) (P : Transaction → Type 0) where
  -- The store in the middle of the flush.
  middle : ℕ → Lsm Bloom → Lsm Bloom
  middle n s =
      let name = table_name s.clock in
      record s {
        directory = insert name (laws.image s.memtable) s.directory;
        bloom_map =
            bloom_insert name (filter_of filters (keys s.memtable) filters.empty) s.bloom_map;
        commit_log = (end_all logs (take n s.tx_ids) s.commit_log).1;
        log_modified =
            written_at s.commit_log (end_all logs (take n s.tx_ids) s.commit_log).1 s.log_modified
              s.clock;
      }

  cut_flush-middle :
      (n : ℕ) (s : Lsm Bloom) (f : View)
      → Alive bloom_laws laws log_laws codec P s f
      → CanFlush laws log_laws s
      → cut_flush filters tables logs n s ≡ middle n s
  unfolding cut_flush middle add_table with_log
  cut_flush-middle n s f h can =
      let name = table_name s.clock in
      let written =
        laws.write_fresh name s.memtable s.directory can.newest.free h.sound.memtable_sorted
          can.fits
        ∙ ap (λ (d : Directory). (ok tt, d))
            (insert-insert name (laws.image s.memtable) [] s.directory h.sound.disk.sorted) in
      rw written refl

  middle-Files :
      (n : ℕ) (s : Lsm Bloom) (f : View) (h : Alive bloom_laws laws log_laws codec P s f)
      → is_empty s.memtable ≡ false
      → 0 < n
      → CanFlush laws log_laws s
      → Files bloom_laws laws log_laws codec
          (middle n s)
          ((table_name s.clock, s.memtable) ∷ h.table_list)
          (h.lines ++ ends (take n s.tx_ids))
  unfolding middle
  middle-Files n s f h full filled can =
      let name = table_name s.clock in
      let ids = take n s.tx_ids in
      let time =
        written_at-end_all log_laws ids s.commit_log h.lines s.log_modified s.clock h.logged.held
          (take-filled n s.tx_ids filled (full-ids log_laws s h.lines h.logged full)) in
      let logged = end_all_lem log_laws ids s.commit_log h.lines h.logged.held in
      record {
        disk =
            OnDisk-insert laws s.clock s.memtable s.directory h.table_list h.files.disk can.newest
              h.sound.memtable_sorted can.fits;
        held = logged.1;
        short =
            AllShort-append log_laws.line_size log_laws.line_room h.lines (ends ids) h.logged.short
              (AllShort-take log_laws.line_size log_laws.line_room n s.tx_ids can.ends_short);
        made = end_all-Made log_laws ids s.commit_log h.lines h.logged.held h.files.made;
        bloom_file = rw time (
            BloomFile-table filters codec s.clock (laws.image s.memtable)
              ((name, s.memtable) ∷ h.table_list) s.clock h.files.on_time can.later
              h.files.bloom_file);
        on_time = rw time (omega arith);
      }

  ended :
      (n : ℕ) (s : Lsm Bloom) (f : View) (h : Alive bloom_laws laws log_laws codec P s f)
      → ends (take n s.tx_ids) ≡ end_lines (take n (unfinished h.lines))
  ended n s f h =
      let txs = unfinished h.lines in
      ap (λ (ids : List Uuid). ends (take n ids)) h.logged.ids_are
      ∙ ap ends (take-ids_of n txs)
      ∙ ends-ids_of (take n txs)

  left :
      (n : ℕ) (s : Lsm Bloom) (f : View) (h : Alive bloom_laws laws log_laws codec P s f)
      → unfinished (h.lines ++ ends (take n s.tx_ids)) ≡ drop n (unfinished h.lines)
  left n s f h =
      let txs = unfinished h.lines in
      rw (ended n s f h)
        (unfinished-end_lines (take n txs) (drop n txs) h.lines (sym (take-append-drop n txs)))

  pub cut_flush-Alive :
      (n : ℕ) (s : Lsm Bloom) (f : View)
      → Alive bloom_laws laws log_laws codec P s f
      → is_empty s.memtable ≡ false
      → 0 < n
      → CanFlush laws log_laws s
      → LogFits log_laws (end_all logs (take n s.tx_ids) s.commit_log).1
      → ((initialize filters tables logs codec (reopened (cut_flush filters tables logs n s))).0
          ≡ ok tt)
        × Alive bloom_laws laws log_laws codec P
            (initialize filters tables logs codec (reopened (cut_flush filters tables logs n s))).1
            f
  unfolding middle end_all
  cut_flush-Alive n s f h full filled can whole =
      let txs = unfinished h.lines in
      let name = table_name s.clock in
      let begun =
        starts-Alive bloom_laws laws log_laws codec P (middle n s)
          ((name, s.memtable) ∷ h.table_list) _ (middle-Files n s f h full filled can) whole
          (rw (left n s f h) (EachOf-drop P n txs h.each)) in
      let split = sym (take-append-drop n txs) in
      rw (cut_flush-middle n s f h can) (
        begun.0,
        Alive-view bloom_laws laws log_laws codec P
            (λ k.
              rw (ended n s f h) (
                replayed_over_table (take n txs) (drop n txs) h.lines h.table_list name s.memtable
                  split h.logged.memtable_is k)
              ∙ h.shown k)
            begun.1,
      )
