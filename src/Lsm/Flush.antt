-- ===== src/Lsm/Flush.antt =====
-- `write_sstable` of store/lsm.rs, on a state given by its tables.
pub mod Names
pub mod Keeps
use mathlib.Core.Path.{subst}
use kave.CommitLog.Lines.{written_at-grown}
use kave.Base.{
  ℕ, ◌+◌, ◌<◌, length, arith, ◌≤◌, ℕ, ◌<◌, Bool, true, false, Option, none, some, List, [], ◌∷◌,
  ◌++◌, ◌≡◌, ◌≢◌, refl, ◌∙◌, sym, arith, ap, if◌then◌else◌, append_assoc, append-nil, Bool-cases,
  inl, inr,
}
use kave.Base.Bytes.{Bytes, beq, blt, beq_iff, beq_refl}
use kave.Base.Words.{u64_mod}
use kave.Base.Map.{Map, get, insert, keys, IsSorted}
use kave.Base.Map.Laws.{over, get-insert, insert-IsSorted}
use kave.CommitLog.{written_at, CommitLogLine, end_tx, CommitLog, created}
use kave.CommitLog.Interface.{Logs, IsLogs}
use kave.Error.{Result, ok, err, e, file_exists, ◌▷◌, ▷_ok, ▷_err}
use kave.Lsm.{Lsm, BloomFilter, BloomMap, table_name, bloom_remove, bloom_insert, filter_of}
use kave.Lsm.Invariant.{
  TableList, found_in, names_asc, NamesBelow, Descends, NoFalseNegatives, Covers, Aligned, Filed,
  OnDisk, Sound, view_of,
}
use kave.Lsm.Read.{table_names, data_of, is_table}
use kave.Lsm.Write.{is_empty, end_all, with_log, finish_flush, add_table, write_sstable}
use kave.Lsm.Flush.Names.{
  AllBelow, table_names-new, insert-insert, AllBelow-NamesBelow, below_differs, is_table-table_name,
}
use kave.SsTable.{Directory}
use kave.SsTable.Interface.{Tables, IsTables}
use kave.Store.{Uuid}
use kave.Value.{Value}

-- The lines that end the transactions.
abbrev pub ends : List Uuid → List CommitLogLine
ends [] = []
ends (id ∷ ids) = end_tx id ∷ ends ids

pub end_all_lem :
    {logs : Logs} (laws : IsLogs logs) (ids : List Uuid) (log : CommitLog) (ls : List CommitLogLine)
    → created log.file ≡ laws.image ls
    → ((end_all logs ids log).0 ≡ ok tt)
      × (created (end_all logs ids log).1.file ≡ laws.image (ls ++ ends ids))
unfolding end_all
end_all_lem laws [] log ls h = (refl, h ∙ ap laws.image (sym (append-nil ls)))
end_all_lem {logs} laws (id ∷ ids) log ls h =
    let one = laws.end_ok id log ls h in
    let log' = (logs.end_transaction id log).1 in
    let rest = end_all_lem laws ids log' (ls ++ end_tx id ∷ []) one.1 in
    rw (▷_ok (logs.end_transaction id log) _ one.0)
      (rest.0, rest.1 ∙ ap laws.image (append_assoc ls (end_tx id ∷ []) (ends ids)))

-- Ending transactions makes the log longer.
pub end_all-grows :
    {logs : Logs} (laws : IsLogs logs) (ids : List Uuid) (log : CommitLog) (ls : List CommitLogLine)
    → created log.file ≡ laws.image ls
    → length (created log.file) + length ids ≤ length (created (end_all logs ids log).1.file)
unfolding end_all
end_all-grows laws [] log ls h = omega arith
end_all-grows {logs} laws (id ∷ ids) log ls h =
    let one = laws.end_ok id log ls h in
    let left = (logs.end_transaction id log).1 in
    let rest = end_all-grows laws ids left (ls ++ end_tx id ∷ []) one.1 in
    rw (▷_ok (logs.end_transaction id log) _ one.0) (omega (arith, laws.end_grows id log, rest))

-- Behind that the time of the log is now.
pub written_at-end_all :
    {logs : Logs} (laws : IsLogs logs) (ids : List Uuid) (log : CommitLog) (ls : List CommitLogLine)
    (before now : ℕ)
    → created log.file ≡ laws.image ls
    → 0 < length ids
    → written_at log (end_all logs ids log).1 before now ≡ now
written_at-end_all {logs} laws ids log ls before now h some_ids =
    written_at-grown log (end_all logs ids log).1 before now
      (omega (arith, some_ids, end_all-grows laws ids log ls h))

module _ {Bloom : Type 0} {filters : BloomFilter Bloom}
    (bloom_laws : NoFalseNegatives filters) where
  filter_of-kept :
      (ks : List Bytes) (k : Bytes) (b : Bloom)
      → filters.contains b k ≡ true
      → filters.contains (filter_of filters ks b) k ≡ true
  unfolding filter_of
  filter_of-kept [] k b h = h
  filter_of-kept (j ∷ ks) k b h = filter_of-kept ks k (filters.add j b) (bloom_laws.kept j k b h)

  -- The filter of a map's keys covers the map.
  pub filter_of-Covers :
      (m : Map Value) (b : Bloom) → Covers filters (filter_of filters (keys m) b) m
  unfolding filter_of keys get
  filter_of-Covers [] b k v h = cc
  filter_of-Covers ((j, w) ∷ m) b k v h = elim (Bool-cases (beq k j)) [
    | inl same ↦
        filter_of-kept (keys m) k (filters.add j b)
          (rw ((beq_iff k j).0 same) (bloom_laws.added j b))
    | inr differs ↦ filter_of-Covers m (filters.add j b) k v (rw differs at h)
  ]

module _ {Bloom : Type 0} (filters : BloomFilter Bloom) where
  pub bloom_remove-below :
      (p : Bytes) (bs : BloomMap Bloom) (ts : TableList)
      → Aligned filters bs ts
      → NamesBelow p ts
      → bloom_remove p bs ≡ bs
  unfolding bloom_remove
  bloom_remove-below p [] ts a n = refl
  bloom_remove-below p ((q, b) ∷ bs) [] a n = absurd a
  bloom_remove-below p ((q, b) ∷ bs) ((r, m) ∷ ts) a n = ground (
    arith,
    a.0,
    n.0,
    beq_iff p q,
    below_differs r p,
    beq_iff r p,
    bloom_remove-below p bs ts a.2 n.1,
  )

module _ {tables : Tables} (laws : IsTables tables) where
  pub Filed-insert :
      (p bytes : Bytes) (dir : Directory) (ts : TableList)
      → NamesBelow p ts
      → Filed laws dir ts
      → Filed laws (insert p bytes dir) ts
  Filed-insert p bytes dir [] n f = tt
  Filed-insert p bytes dir ((q, m) ∷ ts) n f = (
    get-insert q p bytes dir ∙ rw (below_differs q p n.0) f.0,
    f.1,
    f.2,
    Filed-insert p bytes dir ts n.1 f.3,
  )

  -- The name is free, and above those of all tables: what a clock that does not go back gives.
  pub record IsNewest (name : Bytes) (dir : Directory) : Type 0 where
    pub free : get name dir ≡ none
    pub above : AllBelow name (table_names dir)

  -- The directory with the file of one more table.
  pub OnDisk-insert :
      (millis : ℕ) (m : Map Value) (dir : Directory) (ts : TableList)
      → OnDisk laws dir ts
      → IsNewest (table_name millis) dir
      → IsSorted m
      → laws.file_size m ≤ laws.limit
      → OnDisk laws (insert (table_name millis) (laws.image m) dir) ((table_name millis, m) ∷ ts)
  unfolding names_asc
  OnDisk-insert millis m dir ts d new sorted fits =
      let p = table_name millis in
      let below : NamesBelow p ts =
        AllBelow-NamesBelow p ts (subst (AllBelow p) d.listed new.above) in
      record {
        sorted = insert-IsSorted p (laws.image m) dir d.sorted;
        filed = (
          get-insert p p (laws.image m) dir ∙ rw (beq_refl p),
          sorted,
          fits,
          Filed-insert p (laws.image m) dir ts below d.filed,
        );
        descends = (below, d.descends);
        listed =
            table_names-new p (laws.image m) dir (is_table-table_name millis) d.sorted new.free
              new.above
            ∙ ap (λ (ns : List Bytes). ns ++ p ∷ []) d.listed;
      }

module _ {Bloom : Type 0} {filters : BloomFilter Bloom} (bloom_laws : NoFalseNegatives filters)
    {tables : Tables} (laws : IsTables tables) {logs : Logs} (log_laws : IsLogs logs) where
  -- The store after a flush under that name.
  unfoldable pub flushed : Bytes → Lsm Bloom → Lsm Bloom
  flushed name s = record s {
    memtable = [];
    tx_ids = [];
    commit_log = (end_all logs s.tx_ids s.commit_log).1;
    log_modified =
        written_at s.commit_log (end_all logs s.tx_ids s.commit_log).1 s.log_modified s.clock;
    directory = insert name (laws.image s.memtable) s.directory;
    bloom_map = bloom_insert name (filter_of filters (keys s.memtable) filters.empty) s.bloom_map;
  }

  finish_flush_lem :
      (name : Bytes) (s : Lsm Bloom)
      → (end_all logs s.tx_ids s.commit_log).0 ≡ ok tt
      → finish_flush logs name s ≡ (
        ok (some name),
        record s {
          memtable = [];
          tx_ids = [];
          commit_log = (end_all logs s.tx_ids s.commit_log).1;
          log_modified =
              written_at s.commit_log (end_all logs s.tx_ids s.commit_log).1 s.log_modified s.clock;
        },
      )
  unfolding finish_flush
  finish_flush_lem name s h =
      ▷_ok (with_log (record s { memtable = [] }) (end_all logs s.tx_ids s.commit_log)) _ h

  pub write_sstable-flushed :
      (s : Lsm Bloom) (ts : TableList) (ls : List CommitLogLine)
      → Sound laws filters s ts
      → is_empty s.memtable ≡ false
      → IsNewest laws (table_name s.clock) s.directory
      → laws.file_size s.memtable ≤ laws.limit
      → created s.commit_log.file ≡ log_laws.image ls
      → write_sstable filters tables logs s
        ≡ (ok (some (table_name s.clock)), flushed (table_name s.clock) s)
  unfolding write_sstable flushed add_table
  write_sstable-flushed s ts ls h full new fits log =
      let name = table_name s.clock in
      let written =
        laws.write_fresh name s.memtable s.directory new.free h.memtable_sorted fits
        ∙ ap (λ (d : Directory). (ok tt, d))
            (insert-insert name (laws.image s.memtable) [] s.directory h.disk.sorted) in
      rw (full, written)
        (finish_flush_lem name _ (end_all_lem log_laws s.tx_ids s.commit_log ls log).0)
