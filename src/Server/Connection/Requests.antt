-- ===== src/Server/Connection/Requests.antt =====
-- A connection of server/client.rs against the contract of a store.
use kave.Base.{
  ℕ, ◌+◌, List, [], ◌∷◌, ◌++◌, ◌≡◌, refl, ◌∙◌, sym, length, append_assoc, append-nil, arith,
}
use kave.Base.Bytes.{Bytes}
use kave.Error.{Result, ok}
use kave.Proto.{ProtoOp, get, set, echo, sys_close, cancelled, ReadEvent}
use kave.Proto.Machine.RoundTrip.{request, IsRequest, used}
use kave.Proto.Replies.{write_echo, write_set_result}
use kave.Server.Connection.{
  Connection, continued, accepted, reply_set, on_op, on_read, round, rounds,
}
use kave.Server.Connection.Rounds.{
  IsReady, new-IsReady, used-IsReady, rounds-continued, replied, reply_lem, reply_get_lem, Handled,
}
use kave.Server.Connection.Spec.{answer, effect, answers, effects, reads_of, AreRequests}
use kave.Store.{Uuid, Operation, with_random_id, Store}
use kave.Store.Contract.{View, write, Gets, Transacts}

-- What a connection asks of a store behind `n` replies, whose next transaction has the id `draw n`;
-- `Allowed n op` is what the store asks of the request that comes then.
pub record Serves {S : Type 0} (store : Store S) (draw : ℕ → Uuid) (Allowed : ℕ → ProtoOp → Type 0)
    (Shows : ℕ → S → View → Type 0) : Type 0 where
  pub get_ok : (k : Bytes) (n : ℕ) (s : S) (f : View) → Shows n s f → store.get k s ≡ (ok (f k), s)
  pub set_ok :
      (k v : Bytes) (n : ℕ) (s : S) (f : View)
      → Allowed n (set k v)
      → Shows n s f
      → (store.transact (with_random_id (draw n) (Operation.set k v ∷ [])) s).0 ≡ ok tt
  pub set_shows :
      (k v : Bytes) (n : ℕ) (s : S) (f : View)
      → Allowed n (set k v)
      → Shows n s f
      → Shows
          (n + 1)
          (store.transact (with_random_id (draw n) (Operation.set k v ∷ [])) s).1
          (write (Operation.set k v) f)
  pub kept : (n : ℕ) (s : S) (f : View) → Shows n s f → Shows (n + 1) s f

-- A store that keeps the contract serves whatever is drawn.
contract-Serves :
    {S : Type 0} {store : Store S} {Shows : S → View → Type 0} (draw : ℕ → Uuid)
    → Gets store Shows
    → Transacts store Shows
    → Serves store draw (λ n op. Unit) (λ n. Shows)
unfolding with_random_id
contract-Serves draw gets transacts = record {
  get_ok = λ k n s f h. gets.get_ok k s f h;
  set_ok = λ k v n s f a h. transacts.transact_ok _ s f h;
  set_shows = λ k v n s f a h. transacts.transact_shows _ s f h;
  kept = λ n s f h. h;
}

abbrev pub AllAllowed : (ℕ → ProtoOp → Type 0) → ℕ → List ProtoOp → Type 0
AllAllowed Allowed n [] = Unit
AllAllowed Allowed n (op ∷ ops) = Allowed n op × AllAllowed Allowed (n + 1) ops

module _ {S : Type 0} (store : Store S) (draw : ℕ → Uuid) {Allowed : ℕ → ProtoOp → Type 0}
    {Shows : ℕ → S → View → Type 0} (peer : ℕ → Result (Unit {0}))
    (serves : Serves store draw Allowed Shows) (listens : (n : ℕ) → peer n ≡ ok tt) where
  abbrev Answered : ProtoOp → View → Connection S → Type 0
  Answered op f conn =
      (s : S) × (on_op store draw peer op conn
        ≡ continued (replied store draw peer conn (answer op f) s))
      × Shows (conn.replies + 1) s (effect op f)

  on_op_lem :
      (op : ProtoOp) (f : View) (conn : Connection S)
      → IsRequest op
      → Allowed conn.replies op
      → Shows conn.replies conn.store f
      → Answered op f conn
  unfolding on_op
  on_op_lem (get key) f conn h a shown =
      let found = serves.get_ok key conn.replies conn.store f shown in
      (
        conn.store,
        rw found
            (reply_get_lem store draw peer (f key) (record conn { store = conn.store }) listens),
        serves.kept conn.replies conn.store f shown,
      )
  on_op_lem (set key value) f conn h a shown =
      let tx = with_random_id (draw conn.replies) (Operation.set key value ∷ []) in
      let done = serves.set_ok key value conn.replies conn.store f a shown in
      let left = (store.transact tx conn.store).1 in
      (
        left,
        rw done (
            unfold reply_set in
            reply_lem store draw peer (write_set_result value) (record conn { store = left })
              listens),
        serves.set_shows key value conn.replies conn.store f a shown,
      )
  on_op_lem (echo msg) f conn h a shown = (
    conn.store,
    reply_lem store draw peer (write_echo msg) conn listens,
    serves.kept conn.replies conn.store f shown,
  )
  on_op_lem sys_close f conn h a shown = absurd h
  on_op_lem cancelled f conn h a shown = absurd h

  handle_from :
      (ops : List ProtoOp) (rest : List ReadEvent) (f : View) (conn : Connection S)
      → AreRequests ops
      → AllAllowed Allowed conn.replies ops
      → IsReady conn.proto
      → conn.input ≡ reads_of ops ++ rest
      → Shows conn.replies conn.store f
      → Handled store draw peer Shows (length ops) conn (answers ops f) (effects ops f) rest
  handle_from [] rest f conn h a ready here shown = record {
    last = conn;
    goes_on = unfold rounds in refl;
    output = sym (append-nil conn.output);
    shows = shown;
    counted = omega arith;
    input = here;
    ready = ready;
  }
  handle_from (op ∷ ops) rest f conn h a ready here shown =
      let taken : Connection S = record conn {
        proto = used (request op);
        input = reads_of ops ++ rest;
      } in
      let (s, replying, after) = on_op_lem op f taken h.0 a.0 shown in
      let next = replied store draw peer taken (answer op f) s in
      let one : round store draw peer conn ≡ continued next =
        unfold round on_read in rw (here, ready.reads op (reads_of ops ++ rest) h.0) replying in
      let tail =
        handle_from ops rest (effect op f) next h.2 a.1 (used-IsReady op h.0 h.1) refl after in
      record {
        last = tail.last;
        goes_on = rounds-continued store draw peer (length ops) conn next one ∙ tail.goes_on;
        output = tail.output ∙ append_assoc conn.output (answer op f) (answers ops (effect op f));
        shows = tail.shows;
        counted = omega (arith, tail.counted);
        input = tail.input;
        ready = tail.ready;
      }

  -- On a new connection, the rounds of some requests.
  pub serve_allowed :
      (ops : List ProtoOp) (rest : List ReadEvent) (f : View) (s : S)
      → AreRequests ops
      → AllAllowed Allowed 0 ops
      → Shows 0 s f
      → Handled store draw peer Shows
          (length ops)
          (accepted s (reads_of ops ++ rest))
          (answers ops f)
          (effects ops f)
          rest
  unfolding accepted
  serve_allowed ops rest f s h a shown =
      handle_from ops rest f (accepted s (reads_of ops ++ rest)) h a new-IsReady refl shown

all_allowed : (n : ℕ) (ops : List ProtoOp) → AllAllowed (λ n op. Unit) n ops
all_allowed n [] = tt
all_allowed n (op ∷ ops) = (tt, all_allowed (n + 1) ops)

module _ {S : Type 0} (store : Store S) (Shows : S → View → Type 0) (draw : ℕ → Uuid)
    (peer : ℕ → Result (Unit {0})) (gets : Gets store Shows) (transacts : Transacts store Shows)
    (listens : (n : ℕ) → peer n ≡ ok tt) where
  -- A client on a new connection sends requests, each in a read of its own, whose arguments have no
  -- newline, whose keys are UTF-8 and whose lengths fit, and it takes every reply. Then as many
  -- rounds of `handle` go on and take just these reads; the bytes they write are the replies that
  -- the values of the keys determine, one request after the other, and the store shows those values
  -- with the writes done in order. The store's `get` and `transact` keep the contract.
  pub serve-requests :
      (ops : List ProtoOp) (rest : List ReadEvent) (f : View) (s : S)
      → AreRequests ops
      → Shows s f
      → Handled store draw peer
          (λ n. Shows)
          (length ops)
          (accepted s (reads_of ops ++ rest))
          (answers ops f)
          (effects ops f)
          rest
  serve-requests ops rest f s h shown =
      serve_allowed store draw peer (contract-Serves draw gets transacts) listens ops rest f s h
        (all_allowed 0 ops) shown
