-- ===== src/Server/Connection/Closing.antt =====
-- `handle` of server/client.rs where the client closes its stream in order.
use Prim.Native.Nat.add
use kave.Base.{ℕ, zero, suc, ◌+◌, List, [], ◌∷◌, ◌++◌, ◌≡◌, refl, ◌∙◌, sym, arith, length}
use kave.Error.{Result, ok, err, e, short_operation}
use kave.Proto.{ProtoOp, ReadEvent, received}
use kave.Proto.Machine.RoundTrip.{used}
use kave.Server.Connection.{
  Connection, Served, continued, finished, accepted, on_read, round, rounds,
}
use kave.Server.Connection.Requests.{serve-requests}
use kave.Server.Connection.Rounds.{IsReady, rounds-continued}
use kave.Server.Connection.Spec.{answers, effects, reads_of, AreRequests}
use kave.Store.{Uuid, Store}
use kave.Store.Contract.{View, Gets, Transacts}

module _ {S : Type 0} (store : Store S) (draw : ℕ → Uuid) (peer : ℕ → Result (Unit {0})) where
  rounds-finished :
      (n : ℕ) (conn last : Connection S) (x : Result (Unit {0}))
      → round store draw peer conn ≡ finished x last
      → rounds store draw peer (suc n) conn ≡ finished x last
  unfolding rounds
  rounds-finished n conn last x h = rw (h, rounds)

  -- Some rounds, and some more.
  rounds-add :
      (n k : ℕ) (conn last : Connection S)
      → rounds store draw peer n conn ≡ continued last
      → rounds store draw peer (n + k) conn ≡ rounds store draw peer k last
  rounds-add zero k conn last h =
      let stays : continued conn ≡ continued last = unfold rounds in h in
      let same : conn ≡ last = cc stays in
      let count : 0 + k ≡ k = omega arith in rw (count, same) refl
  rounds-add (suc n) k conn last h =
      rw (add.suc n k) (step (λ next. rounds-add n k next last) (round store draw peer conn) refl)
    where
      step :
          ((next : Connection S)
            → rounds store draw peer n next ≡ continued last
            → rounds store draw peer (n + k) next ≡ rounds store draw peer k last)
          → (x : Served S) → round store draw peer conn ≡ x
          → rounds store draw peer (suc (n + k)) conn ≡ rounds store draw peer k last
      step more (continued next) at =
          rounds-continued store draw peer (n + k) conn next at
          ∙ more next (sym (rounds-continued store draw peer n conn next at) ∙ h)
      step more (finished x left) at =
          let both = sym h ∙ rounds-finished n conn left x at in cc both

  closing-round :
      (conn : Connection S) (rest : List ReadEvent)
      → IsReady conn.proto
      → conn.input ≡ received [] ∷ rest
      → round store draw peer conn
        ≡ finished (err (e (short_operation []))) (record conn { proto = used []; input = rest })
  unfolding round on_read
  closing-round conn rest ready at = rw (at, ready.closes rest) refl

module _ {S : Type 0} (store : Store S) (Shows : S → View → Type 0) (draw : ℕ → Uuid)
    (peer : ℕ → Result (Unit {0})) (gets : Gets store Shows) (transacts : Transacts store Shows)
    (listens : (n : ℕ) → peer n ≡ ok tt) where
  -- A client on a new connection sends requests, each in a read of its own, whose arguments have no
  -- newline, whose keys are UTF-8 and whose lengths fit, takes every reply, and then closes its
  -- stream in order, so that a read returns no bytes. Then `handle` returns the error on a short
  -- operation, behind the replies that the values of the keys determine, and the store shows the
  -- values with the writes done in order. The store's `get` and `transact` keep the contract.
  pub closing-fails :
      (ops : List ProtoOp) (rest : List ReadEvent) (f : View) (s : S)
      → AreRequests ops
      → Shows s f
      → (last : Connection S) × (rounds store draw peer
            (length ops + 1)
            (accepted s (reads_of ops ++ received [] ∷ rest))
          ≡ finished (err (e (short_operation []))) last)
        × (last.output ≡ answers ops f)
        × Shows last.store (effects ops f)
  closing-fails ops rest f s h shown =
      let first = accepted s (reads_of ops ++ received [] ∷ rest) in
      let served =
        serve-requests store Shows draw peer gets transacts listens ops (received [] ∷ rest) f s h
          shown in
      (
        record served.last { proto = used []; input = rest },
        rounds-add store draw peer (length ops) 1 first served.last served.goes_on
            ∙ rounds-finished store draw peer 0 served.last _ _
                (closing-round store draw peer served.last rest served.ready served.input),
        served.output ∙ (unfold accepted in refl),
        served.shows,
      )
