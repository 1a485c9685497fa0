-- ===== src/Lsm/Recovery/Logged.antt =====
-- The memtable and the commit log of store/lsm.rs.
use kave.Base.{
  ◌<◌, length, arith, ◌≤◌, ℕ, true, false, List, [], ◌∷◌, ◌++◌, ◌≡◌, refl, ◌∙◌, sym, ap, append-nil,
}
use kave.CommitLog.{CommitLogLine, begin_tx, end_tx, created}
use kave.CommitLog.Ids.{IsFresh, end_lines, unfinished-end_lines, unfinished-fresh}
use kave.CommitLog.Interface.{Logs, IsLogs, AllShort}
use kave.CommitLog.Unfinished.{unfinished}
use kave.Lsm.{Lsm, BloomFilter, table_name, perform_all}
use kave.Lsm.Flush.Keeps.{write_sstable-Flushed}
use kave.Lsm.Invariant.{TableList, NoFalseNegatives, Sound}
use kave.SsTable.Interface.{Tables, IsTables}
use kave.Lsm.Contract.{do_transact_lem}
use kave.Lsm.Flush.{ends, IsNewest}
use kave.Lsm.Recovery.Replay.{perform_txs, ids_of, perform_txs-append}
use kave.Lsm.Write.{log_begin, apply_transaction, do_transact, with_log, is_empty, write_sstable}
use kave.Error.{ok}
use kave.Store.{Uuid, Transaction}

some_ids :
    (txs : List Transaction) → is_empty (perform_txs txs []) ≡ false → 0 < length (ids_of txs)
unfolding perform_txs ids_of is_empty
some_ids [] full = cc full
some_ids (tx ∷ txs) full = omega arith

pub AllShort-append :
    (size : CommitLogLine → ℕ) (room : ℕ) (ls ms : List CommitLogLine)
    → AllShort size room ls
    → AllShort size room ms
    → AllShort size room (ls ++ ms)
AllShort-append size room [] ms a b = b
AllShort-append size room (l ∷ ls) ms a b = (a.0, AllShort-append size room ls ms a.1 b)

ids_of-append : (xs ys : List Transaction) → ids_of (xs ++ ys) ≡ ids_of xs ++ ids_of ys
unfolding ids_of
ids_of-append [] ys = refl
ids_of-append (tx ∷ xs) ys = ap (◌∷◌ tx.id) (ids_of-append xs ys)

pub ends-ids_of : (txs : List Transaction) → ends (ids_of txs) ≡ end_lines txs
unfolding ids_of
ends-ids_of [] = refl
ends-ids_of (tx ∷ txs) = ap (◌∷◌ (end_tx tx.id)) (ends-ids_of txs)

module _ {Bloom : Type 0} {logs : Logs} (log_laws : IsLogs logs) where
  -- The log file holds the lines, and the memtable is what their unfinished transactions make.
  pub record IsLogged (s : Lsm Bloom) (ls : List CommitLogLine) : Type 0 where
    pub held : created s.commit_log.file ≡ log_laws.image ls
    pub short : AllShort log_laws.line_size log_laws.line_room ls
    pub memtable_is : s.memtable ≡ perform_txs (unfinished ls) []
    pub ids_are : s.tx_ids ≡ ids_of (unfinished ls)

  -- If the memtable and the ids are what the log's unfinished transactions make, and every line is
  -- short, this still holds behind a logged transaction that returned `Ok`, with its line at the
  -- end of the log, where no unfinished transaction has its id and its line is short. The log keeps
  -- its interface.
  pub do_transact-IsLogged :
      (tx : Transaction) (s : Lsm Bloom) (ls : List CommitLogLine)
      → IsLogged s ls
      → IsFresh tx.id (unfinished ls)
      → log_laws.line_size (begin_tx tx) ≤ log_laws.line_room
      → ((do_transact logs tx true s).0 ≡ ok tt)
        × IsLogged (do_transact logs tx true s).1 (ls ++ begin_tx tx ∷ [])
  unfolding with_log
  do_transact-IsLogged tx s ls h fresh fits =
      let begun = log_laws.begin_ok tx s.commit_log ls h.held in
      let done = unfinished-fresh tx ls fresh in
      rw (do_transact_lem log_laws tx s ls h.held) (
        refl,
        unfold log_begin apply_transaction in
            record {
              held = begun.1;
              short =
                  AllShort-append log_laws.line_size log_laws.line_room ls (begin_tx tx ∷ [])
                    h.short (fits, tt);
              memtable_is =
                  ap (perform_all tx.operations) h.memtable_is
                  ∙ sym
                      (perform_txs-append (unfinished ls) (tx ∷ []) [] ∙ unfold perform_txs in refl)
                  ∙ ap (λ (txs : List Transaction). perform_txs txs []) (sym done);
              ids_are =
                  ap (λ (ids : List Uuid). ids ++ tx.id ∷ []) h.ids_are
                  ∙ sym (ids_of-append (unfinished ls) (tx ∷ []) ∙ unfold ids_of in refl)
                  ∙ ap ids_of (sym done);
            },
      )

  -- Where the memtable is not empty, some transaction is not ended.
  pub full-ids :
      (s : Lsm Bloom) (ls : List CommitLogLine)
      → IsLogged s ls
      → is_empty s.memtable ≡ false
      → 0 < length s.tx_ids
  full-ids s ls h full =
      rw h.ids_are (some_ids (unfinished ls) (ap is_empty (sym h.memtable_is) ∙ full))

  pub unfinished-ends :
      (s : Lsm Bloom) (ls : List CommitLogLine)
      → IsLogged s ls
      → unfinished (ls ++ ends s.tx_ids) ≡ []
  unfinished-ends s ls h =
      rw (h.ids_are, ends-ids_of (unfinished ls))
        (unfinished-end_lines (unfinished ls) [] ls (sym (append-nil (unfinished ls))))

  -- A state behind a flush, whose log has the lines that end the transactions.
  flushed-IsLogged :
      (s s' : Lsm Bloom) (ls : List CommitLogLine)
      → IsLogged s ls
      → created s'.commit_log.file ≡ log_laws.image (ls ++ ends s.tx_ids)
      → AllShort log_laws.line_size log_laws.line_room (ends s.tx_ids)
      → s'.memtable ≡ []
      → s'.tx_ids ≡ []
      → IsLogged s' (ls ++ ends s.tx_ids)
  flushed-IsLogged s s' ls h held short emptied forgotten =
      let none_left = unfinished-ends s ls h in
      record {
        held = held;
        short =
            AllShort-append log_laws.line_size log_laws.line_room ls (ends s.tx_ids) h.short short;
        memtable_is = emptied ∙ (rw none_left (unfold perform_txs in refl));
        ids_are = forgotten ∙ (rw none_left (unfold ids_of in refl));
      }

module _ {Bloom : Type 0} {filters : BloomFilter Bloom} (bloom_laws : NoFalseNegatives filters)
    {tables : Tables} (laws : IsTables tables) {logs : Logs} (log_laws : IsLogs logs) where
  -- If the memtable and the ids are what the log's unfinished transactions make, and every line is
  -- short, this still holds behind a flush, with the lines that end the transactions at the end of
  -- the log. The state before is sound, its memtable is not empty, the table's name is new and
  -- above the others, the table fits, the new lines are short, the bloom filter misses no key, and
  -- tables and log keep their interfaces.
  pub write_sstable-IsLogged :
      (s : Lsm Bloom) (ts : TableList) (ls : List CommitLogLine)
      → Sound laws filters s ts
      → is_empty s.memtable ≡ false
      → IsNewest laws (table_name s.clock) s.directory
      → laws.file_size s.memtable ≤ laws.limit
      → IsLogged log_laws s ls
      → AllShort log_laws.line_size log_laws.line_room (ends s.tx_ids)
      → IsLogged log_laws (write_sstable filters tables logs s).1 (ls ++ ends s.tx_ids)
  write_sstable-IsLogged s ts ls h full new fits l short =
      let f = (write_sstable-Flushed bloom_laws laws log_laws s ts ls h full new fits l.held).1 in
      flushed-IsLogged log_laws s (write_sstable filters tables logs s).1 ls l f.logged short
        f.emptied f.forgotten
