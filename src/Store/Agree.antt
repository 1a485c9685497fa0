-- ===== src/Store/Agree.antt =====
-- Two stores that keep the contract, after the same transactions.
use kave.Base.{List, [], ◌∷◌, ◌≡◌, false}
use kave.Base.Bytes.{Bytes, blt}
use kave.Store.{Transaction, Store}
use kave.Store.Contract.{View, write_all, Scans-unique, ScansView, Transacts}

-- One call of `transact` behind the other.
unfoldable pub transact_all : {S : Type 0} → Store S → List Transaction → S → S
transact_all store [] s = s
transact_all store (tx ∷ txs) s = transact_all store txs (store.transact tx s).1

abbrev pub write_txs : List Transaction → View → View
write_txs [] f = f
write_txs (tx ∷ txs) f = write_txs txs (write_all tx.operations f)

pub transact_all-Shows :
    {S : Type 0} {store : Store S} {Shows : S → View → Type 0} (laws : Transacts store Shows)
    (txs : List Transaction) (s : S) (f : View)
    → Shows s f
    → Shows (transact_all store txs s) (write_txs txs f)
unfolding transact_all
transact_all-Shows laws [] s f h = h
transact_all-Shows {store = store} laws (tx ∷ txs) s f h =
    transact_all-Shows laws txs (store.transact tx s).1 (write_all tx.operations f)
      (laws.transact_shows tx s f h)

-- Scans of two stores with the same view give the same outcome.
pub scans-agree :
    {S T : Type 0} {a : Store S} {b : Store T} {ShowsA : S → View → Type 0}
    {ShowsB : T → View → Type 0} (a_laws : ScansView a ShowsA) (b_laws : ScansView b ShowsB)
    (from to : Bytes) (s : S) (t : T) (f : View)
    → ShowsA s f
    → ShowsB t f
    → blt to from ≡ false
    → (a.scan from to s).0 ≡ (b.scan from to t).0
scans-agree a_laws b_laws from to s t f p q order =
    let (vs, e, c) = a_laws.scan_ok from to s f p order in
    let (ws, d, k) = b_laws.scan_ok from to t f q order in cc (e, d, Scans-unique c k)
