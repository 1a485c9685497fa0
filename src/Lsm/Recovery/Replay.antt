-- ===== src/Lsm/Recovery/Replay.antt =====
-- The replay of `restore_previous_txs` of store/lsm.rs.
use kave.Base.{
  Option, none, some, List, [], ◌∷◌, ◌++◌, ◌≡◌, refl, ◌∙◌, sym, ap, arith, append_assoc, append-nil,
}
use kave.Base.Bytes.{Bytes}
use kave.Base.Map.{Map, get, insert, IsSorted}
use kave.Base.Map.Laws.{over, get-insert}
use kave.CommitLog.Interface.{Logs}
use kave.Error.{ok}
use kave.Lsm.{Lsm, perform, perform_all}
use kave.Lsm.Contract.{perform_all-IsSorted}
use kave.Lsm.Recovery.{replay}
use kave.Lsm.Write.{do_transact, apply_transaction}
use kave.Store.{Uuid, Operation, set, delete, Transaction}
use kave.Value.{Value}

-- The memtable after the transactions.
unfoldable pub perform_txs : List Transaction → Map Value → Map Value
perform_txs [] m = m
perform_txs (tx ∷ txs) m = perform_txs txs (perform_all tx.operations m)

unfoldable pub ids_of : List Transaction → List Uuid
ids_of [] = []
ids_of (tx ∷ txs) = tx.id ∷ ids_of txs

module _ {Bloom : Type 0} (logs : Logs) where
  -- The replay performs the transactions in order and notes their ids. It logs nothing.
  pub replay_lem :
      (txs : List Transaction) (s : Lsm Bloom)
      → replay logs txs s ≡ (
        ok tt,
        record s { memtable = perform_txs txs s.memtable; tx_ids = s.tx_ids ++ ids_of txs },
      )
  unfolding replay perform_txs ids_of do_transact
  replay_lem [] s =
      ap (λ (ids : List Uuid). (ok tt, record s { tx_ids = ids })) (sym (append-nil s.tx_ids))
  replay_lem (tx ∷ txs) s =
      replay_lem txs (apply_transaction logs tx s)
      ∙ ap
          (λ (ids : List Uuid). (
            ok tt,
            record s {
              memtable = perform_txs txs (perform_all tx.operations s.memtable);
              tx_ids = ids;
            },
          ))
          (append_assoc s.tx_ids (tx.id ∷ []) (ids_of txs))

over_assoc : {A : Type 0} (a b c : Option A) → over (over a b) c ≡ over a (over b c)
over_assoc none b c = refl
over_assoc (some v) b c = refl

-- What operations leave for a key: their own entry, or else what was there.
get-perform :
    (j : Bytes) (o : Operation) (m : Map Value)
    → get j (perform o m) ≡ over (get j (perform o [])) (get j m)
unfolding perform get insert
get-perform j (set k v) m = get-insert j k _ m ∙ ground arith
get-perform j (delete k) m = get-insert j k _ m ∙ ground arith

pub get-perform_all :
    (j : Bytes) (os : List Operation) (m : Map Value)
    → get j (perform_all os m) ≡ over (get j (perform_all os [])) (get j m)
unfolding perform_all
get-perform_all j [] m = unfold get in refl
get-perform_all j (o ∷ os) m =
    get-perform_all j os (perform o m)
    ∙ ap (over (get j (perform_all os []))) (get-perform j o m)
    ∙ sym (over_assoc (get j (perform_all os [])) (get j (perform o [])) (get j m))
    ∙ ap (λ (x : Option Value). over x (get j m)) (sym (get-perform_all j os (perform o [])))

pub get-perform_txs :
    (j : Bytes) (txs : List Transaction) (m : Map Value)
    → get j (perform_txs txs m) ≡ over (get j (perform_txs txs [])) (get j m)
unfolding perform_txs
get-perform_txs j [] m = unfold get in refl
get-perform_txs j (tx ∷ txs) m =
    get-perform_txs j txs (perform_all tx.operations m)
    ∙ ap (over (get j (perform_txs txs []))) (get-perform_all j tx.operations m)
    ∙ sym (over_assoc (get j (perform_txs txs [])) (get j (perform_all tx.operations [])) (get j m))
    ∙ ap (λ (x : Option Value). over x (get j m))
        (sym (get-perform_txs j txs (perform_all tx.operations [])))

pub perform_txs-append :
    (xs ys : List Transaction) (m : Map Value)
    → perform_txs (xs ++ ys) m ≡ perform_txs ys (perform_txs xs m)
unfolding perform_txs
perform_txs-append [] ys m = refl
perform_txs-append (tx ∷ xs) ys m = perform_txs-append xs ys (perform_all tx.operations m)

pub perform_txs-IsSorted :
    (txs : List Transaction) (m : Map Value) → IsSorted m → IsSorted (perform_txs txs m)
unfolding perform_txs
perform_txs-IsSorted [] m s = s
perform_txs-IsSorted (tx ∷ txs) m s =
    perform_txs-IsSorted txs (perform_all tx.operations m) (perform_all-IsSorted tx.operations m s)

over_twice : {A : Type 0} (a b c : Option A) → over a (over (over a b) c) ≡ over (over a b) c
over_twice none b c = refl
over_twice (some v) b c = refl

-- Performing the last of the transactions again, over a map that holds the effect of all, changes
-- the value of no key.
pub replay_idempotent :
    (j : Bytes) (first last : List Transaction) (below : Option Value)
    → over (get j (perform_txs last [])) (over (get j (perform_txs (first ++ last) [])) below)
      ≡ over (get j (perform_txs (first ++ last) [])) below
replay_idempotent j first last below =
    rw (perform_txs-append first last [], get-perform_txs j last (perform_txs first []))
      (over_twice (get j (perform_txs last [])) (get j (perform_txs first [])) below)
