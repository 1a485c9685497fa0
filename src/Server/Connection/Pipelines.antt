-- ===== src/Server/Connection/Pipelines.antt =====
-- Connections of server/client.rs whose replies are not what the client waits for.
use kave.Base.{
  ℕ, zero, suc, ◌+◌, ◌⊎◌, inl, inr, Option, some, List, [], ◌∷◌, ◌++◌, ◌≡◌, refl, ◌∙◌, append_assoc,
  append-nil, arith,
}
use kave.Base.Bytes.{Bytes}
use kave.Error.{Error, Result, ok, err}
use kave.Proto
use kave.Proto.{ProtoOp, get, set, ReadEvent, received, Proto}
use kave.Proto.Loops.Laws.{IsLine}
use kave.Proto.Machine.{read}
use kave.Proto.Machine.RoundTrip.{request, IsRequest, used, read-request}
use kave.Proto.Machine.Sessions.{read-pipelined}
use kave.Proto.Replies.{write_set_result}
use kave.Server.Connection.{
  Connection, continued, accepted, reply, reply_set, on_op, on_read, round, rounds,
}
use kave.Server.Connection.Rounds.{rounds-continued, reply_lem, reply_get_lem}
use kave.Server.Connection.Spec.{found_reply}
use kave.Store.{Uuid, Operation, with_random_id, Store}

-- The same bytes again and again.
abbrev pub copies : ℕ → Bytes → Bytes
copies zero bytes = []
copies (suc n) bytes = bytes ++ copies n bytes

module _ {S : Type 0} (store : Store S) (draw : ℕ → Uuid) (peer : ℕ → Result (Unit {0})) where
  -- A connection with some buffer, behind some replies.
  abbrev pub holding : Bytes → List ReadEvent → S → Bytes → ℕ → Connection S
  holding buf input s out n = record {
    proto = used buf;
    input = input;
    output = out;
    replies = n;
    store = s;
  }

  same_again :
      (buf k : Bytes) (found : Option Bytes) (input : List ReadEvent) (s : S) (n : ℕ) (out : Bytes)
      (m : ℕ)
      → ((i : ℕ) → peer i ≡ ok tt)
      → read (used buf) input ≡ some (ok (get k), used buf, input)
      → store.get k s ≡ (ok found, s)
      → rounds store draw peer n (holding buf input s out m)
        ≡ continued (holding buf input s (out ++ copies n (found_reply found)) (m + n))
  same_again buf k found input s zero out m listens same got =
      let none_more : m + 0 ≡ m = omega arith in
      rw (append-nil out, none_more) (unfold rounds in refl)
  same_again buf k found input s (suc n) out m listens same got =
      let bytes = found_reply found in
      let one : round store draw peer (holding buf input s out m)
          ≡ continued (holding buf input s (out ++ bytes) (m + 1)) =
        unfold round on_read on_op in
        rw (same, got) (reply_get_lem store draw peer found (holding buf input s out m) listens) in
      let count : m + suc n ≡ m + 1 + n = omega arith in
      rounds-continued store draw peer n (holding buf input s out m) _ one
      ∙ same_again buf k found input s n (out ++ bytes) (m + 1) listens same got
      ∙ rw (append_assoc out bytes (copies n bytes), count) refl

  -- If the first read of a new connection brings two GET requests, the first one's key without a
  -- newline, and more behind them or not, then however many rounds of `handle` follow, they all
  -- answer the first GET, take nothing more of the input, and keep the buffer. The client takes
  -- every reply, and the store's `get` returns what it did.
  pub pipelined-repeats :
      (k j junk : Bytes) (found : Option Bytes) (rest : List ReadEvent) (s : S) (n : ℕ)
      → ((i : ℕ) → peer i ≡ ok tt)
      → IsRequest (get k)
      → IsLine k
      → store.get k s ≡ (ok found, s)
      → let buf = request (get k) ++ (request (get j) ++ junk) in
        rounds store draw peer (suc n) (accepted s (received buf ∷ rest))
        ≡ continued (holding buf rest s (copies (suc n) (found_reply found)) (suc n))
  unfolding accepted Proto.new
  pipelined-repeats k j junk found rest s n listens h one got =
      let tail = request (get j) ++ junk in
      let buf = request (get k) ++ tail in
      let bytes = found_reply found in
      let first = accepted s (received buf ∷ rest) in
      let taken : round store draw peer first ≡ continued (holding buf rest s bytes 1) =
        unfold round on_read on_op in
        rw (read-request (get k) [] tail rest h, got)
          (reply_get_lem store draw peer found (holding buf rest s [] 0) listens) in
      let count : 1 + n ≡ suc n = omega arith in
      rounds-continued store draw peer n first _ taken
      ∙ same_again buf k found rest s n bytes 1 listens (read-pipelined k j junk rest h one) got
      ∙ rw count refl

  -- On a new connection, a SET request that one read brings is answered with the length of the
  -- value, whether the store's transaction returned `Ok` or an error; the client takes the reply.
  pub set-replies :
      (k v junk : Bytes) (rest : List ReadEvent) (s left : S) (x : Result (Unit {0}))
      → ((i : ℕ) → peer i ≡ ok tt)
      → IsRequest (set k v)
      → store.transact (with_random_id (draw 0) (Operation.set k v ∷ [])) s ≡ (x, left)
      → ((x ≡ ok tt) ⊎ ((why : Error) × (x ≡ err why)))
      → round store draw peer (accepted s (received (request (set k v) ++ junk) ∷ rest))
        ≡ continued (holding (request (set k v) ++ junk) rest left (write_set_result v) 1)
  unfolding accepted Proto.new round on_read on_op
  set-replies k v junk rest s left x listens h done outcome =
      let conn = holding (request (set k v) ++ junk) rest left [] 0 in
      let replying : reply_set store draw peer x v conn
          ≡ reply store draw peer (write_set_result v) conn =
        unfold reply_set in elim outcome [ inl e ↦ rw e refl | inr (why, e) ↦ rw e refl ] in
      rw (read-request (set k v) [] junk rest h, done)
        (replying ∙ reply_lem store draw peer (write_set_result v) conn listens)
