-- ===== src/Lsm/Contract.antt =====
-- `LSMStore` of store/lsm.rs against the contract of a store.
use kave.Base.{
  true, Option, none, some, List, [], ◌∷◌, ◌++◌, ◌≡◌, refl, ◌∙◌, arith, ap, if◌then◌else◌,
}
use kave.Base.Bytes.{Bytes}
use kave.Base.Map.{Map, get, IsSorted, in_range}
use kave.Base.Map.Laws.{get-insert, insert-IsSorted}
use kave.CommitLog.{CommitLogLine, begin_tx, created}
use kave.CommitLog.Interface.{Logs, IsLogs}
use kave.Error.{ok, ▷_ok}
use kave.Lsm.{Lsm, BloomFilter, perform, perform_all}
use kave.Lsm.Invariant.{TableList, found_in, Sound, view_of}
use kave.Lsm.Read.{lsm_get, lsm_scan, data_of}
use kave.Lsm.Scan.View.{lsm_scan-Scans}
use kave.Lsm.Search.{lsm_get_lem}
use kave.Lsm.Write.{log_begin, apply_transaction, do_transact, with_log}
use kave.SsTable.Interface.{Tables, IsTables}
use kave.Store.{Operation, set, delete, Transaction, Store}
use kave.Store.Contract.{View, write, write_all, Scans, ScansView, Transacts}
use kave.Value.{Value, present, tombstone}

-- The implementation of the trait; `transact` is `do_transact` with `log_commit`.
unfoldable pub lsm_store : {Bloom : Type 0} → BloomFilter Bloom → Tables → Logs → Store (Lsm Bloom)
lsm_store filters tables logs = record {
  get = lsm_get filters tables;
  scan = lsm_scan filters tables;
  transact = λ tx s. do_transact logs tx true s;
}

-- A table's or the memtable's entry for a key after an operation.
view-perform :
    (o : Operation) (m : Map Value) (ts : TableList) (f : View)
    → ((i : Bytes) → view_of m ts i ≡ f i)
    → (j : Bytes) → view_of (perform o m) ts j ≡ write o f j
unfolding view_of perform data_of
view-perform (set k v) m ts f h j = ground (arith, get-insert j k (present v) m, h j)
view-perform (delete k) m ts f h j = ground (arith, get-insert j k tombstone m, h j)

pub view-perform_all :
    (os : List Operation) (m : Map Value) (ts : TableList) (f : View)
    → ((i : Bytes) → view_of m ts i ≡ f i)
    → (j : Bytes) → view_of (perform_all os m) ts j ≡ write_all os f j
unfolding perform_all
view-perform_all [] m ts f h j = h j
view-perform_all (o ∷ os) m ts f h j =
    view-perform_all os (perform o m) ts (write o f) (view-perform o m ts f h) j

perform-IsSorted : (o : Operation) (m : Map Value) → IsSorted m → IsSorted (perform o m)
unfolding perform
perform-IsSorted (set k v) m s = insert-IsSorted k (present v) m s
perform-IsSorted (delete k) m s = insert-IsSorted k tombstone m s

pub perform_all-IsSorted :
    (os : List Operation) (m : Map Value) → IsSorted m → IsSorted (perform_all os m)
unfolding perform_all
perform_all-IsSorted [] m s = s
perform_all-IsSorted (o ∷ os) m s = perform_all-IsSorted os (perform o m) (perform-IsSorted o m s)

module _ {Bloom : Type 0} {logs : Logs} (log_laws : IsLogs logs) where
  -- A logged transaction, where the log file holds some lines.
  pub do_transact_lem :
      (tx : Transaction) (s : Lsm Bloom) (ls : List CommitLogLine)
      → created s.commit_log.file ≡ log_laws.image ls
      → do_transact logs tx true s ≡ (ok tt, apply_transaction logs tx (log_begin logs tx s).1)
  unfolding do_transact with_log
  do_transact_lem tx s ls h =
      ▷_ok (log_begin logs tx s) _ (unfold log_begin in (log_laws.begin_ok tx s.commit_log ls h).0)

module _ {Bloom : Type 0} (filters : BloomFilter Bloom) {tables : Tables} (laws : IsTables tables)
    {logs : Logs} (log_laws : IsLogs logs) where
  -- A sound state whose log file holds some lines, with its view.
  pub record LsmShows (s : Lsm Bloom) (f : View) : Type 0 where
    pub table_list : TableList
    pub lines : List CommitLogLine
    pub sound : Sound laws filters s table_list
    pub logged : created s.commit_log.file ≡ log_laws.image lines
    pub shown : (k : Bytes) → view_of s.memtable table_list k ≡ f k

  transact-LsmShows :
      (tx : Transaction) (s : Lsm Bloom) (f : View)
      → LsmShows s f
      → LsmShows (apply_transaction logs tx (log_begin logs tx s).1) (write_all tx.operations f)
  unfolding apply_transaction log_begin with_log
  transact-LsmShows tx s f h = record {
    table_list = h.table_list;
    lines = h.lines ++ begin_tx tx ∷ [];
    sound = record {
      disk = h.sound.disk;
      aligned = h.sound.aligned;
      memtable_sorted = perform_all-IsSorted tx.operations s.memtable h.sound.memtable_sorted;
    };
    logged = (log_laws.begin_ok tx s.commit_log h.lines h.logged).1;
    shown = view-perform_all tx.operations s.memtable h.table_list f h.shown;
  }

  -- From a sound state whose log file holds some lines, `do_transact` with logging returns `Ok` and
  -- leaves such a state, in which the values of the keys are those before it with the transaction's
  -- operations written in their order. Tables and log keep their interfaces.
  pub do_transact-LsmShows :
      (tx : Transaction) (s : Lsm Bloom) (f : View)
      → LsmShows s f
      → ((do_transact logs tx true s).0 ≡ ok tt)
        × LsmShows (do_transact logs tx true s).1 (write_all tx.operations f)
  do_transact-LsmShows tx s f h =
      rw (do_transact_lem log_laws tx s h.lines h.logged) (refl, transact-LsmShows tx s f h)

  pub lsm-Transacts : Transacts (lsm_store filters tables logs) LsmShows
  unfolding lsm_store
  lsm-Transacts = record {
    transact_ok = λ tx s f h. (do_transact-LsmShows tx s f h).0;
    transact_shows = λ tx s f h. (do_transact-LsmShows tx s f h).1;
  }

  pub lsm-ScansView : ScansView (lsm_store filters tables logs) LsmShows
  unfolding lsm_store
  lsm-ScansView = record {
    scan_ok = λ from to s f h o.
        scans from to s f h (lsm_scan-Scans filters laws from to s h.table_list h.sound o);
  }
    where
      scans :
          (from to : Bytes) (s : Lsm Bloom) (f : View) (h : LsmShows s f)
          → (vs : List Bytes) × (lsm_scan filters tables from to s ≡ (ok vs, s))
            × Scans (view_of s.memtable h.table_list) from to vs
          → (vs : List Bytes) × (lsm_scan filters tables from to s ≡ (ok vs, s))
            × Scans f from to vs
      scans from to s f h (vs, e, c) = (
        vs,
        e,
        record {
          entries = c.entries;
          sorted = c.sorted;
          found = λ k.
              c.found k
              ∙ ap (λ (o : Option Bytes). if in_range from to k then o else none) (h.shown k);
          listed = c.listed;
        },
      )

module _ {Bloom : Type 0} (filters : BloomFilter Bloom) {tables : Tables}
    (laws : IsTables tables) where
  -- In a sound state, if the memtable has no tombstone for the key or no table has data for it,
  -- `get` returns the value of the key in the store's view and changes nothing. The tables keep
  -- their interface.
  pub lsm_get-view :
      (k : Bytes) (s : Lsm Bloom) (ts : TableList)
      → Sound laws filters s ts
      → (get k s.memtable ≡ some tombstone → data_of (found_in k ts) ≡ none)
      → lsm_get filters tables k s ≡ (ok (view_of s.memtable ts k), s)
  unfolding view_of data_of
  lsm_get-view k s ts h hidden = ground (arith, lsm_get_lem filters laws k s ts h, hidden)

  -- In a sound state, if the memtable has a tombstone for the key and the newest table with the key
  -- has data for it, `get` returns the table's data and changes nothing, though the key has no
  -- value in the store's view. The tables keep their interface.
  pub lsm_get-deleted :
      (k bytes : Bytes) (s : Lsm Bloom) (ts : TableList)
      → Sound laws filters s ts
      → get k s.memtable ≡ some tombstone
      → data_of (found_in k ts) ≡ some bytes
      → (lsm_get filters tables k s ≡ (ok (some bytes), s)) × (view_of s.memtable ts k ≡ none)
  unfolding view_of data_of
  lsm_get-deleted k bytes s ts h deleted there = ground (arith, lsm_get_lem filters laws k s ts h)
