-- ===== src/Server/Connection.antt =====
-- `Connection::handle` of server/client.rs: commands of a client, calls of the store, replies.
pub mod Spec
pub mod Rounds
pub mod Requests
pub mod Durable
pub mod Closing
pub mod Pipelines
use kave.Base.{ℕ, zero, suc, ◌+◌, Option, none, some, List, [], ◌∷◌, ◌++◌}
use kave.Base.Bytes.{Bytes}
use kave.Error.{Result, ok, err, panic, pending, e, session}
use kave.Proto
use kave.Proto.{ProtoOp, get, set, echo, sys_close, cancelled, ReadEvent, Proto}
use kave.Proto.Machine.{read}
use kave.Proto.Replies.{write_null, write_echo, write_get_result, write_set_result}
use kave.Store.{Uuid, Operation, Transaction, with_random_id, Store}

-- A connection in its loop. `input` are the reads of the socket to come, `output` the bytes that were
-- written and flushed, and `replies` their number; `store` is what the clones of the store share.
pub record Connection (S : Type 0) : Type 0 where
  pub proto : Proto
  pub input : List ReadEvent
  pub output : Bytes
  pub replies : ℕ
  pub store : S

-- What a round of the loop comes to: the loop goes on, or `handle` returns.
pub data Served (S : Type 0) : Type 0 where
  continued : Connection S → Served S
  finished : Result (Unit {0}) → Connection S → Served S

-- The connection behind `Proto::new`, once TLS has accepted the stream.
unfoldable pub accepted : {S : Type 0} → S → List ReadEvent → Connection S
unfolding Proto.new
accepted store input = record {
  proto = Proto.new;
  input = input;
  output = [];
  replies = 0;
  store = store;
}

-- `draw n` is what `Uuid::new_v4` draws for the n-th reply, `peer n` what writing and flushing that
-- reply comes to. Of a write that failed it is not told how much the client received.
module _ {S : Type 0} (store : Store S) (draw : ℕ → Uuid) (peer : ℕ → Result (Unit {0})) where
  -- `write_…(…).await?; flush(…).await?`
  unfoldable pub reply : Bytes → Connection S → Served S
  reply bytes conn = elim (peer conn.replies) [
    | ok _ ↦ continued (record conn { output = conn.output ++ bytes; replies = conn.replies + 1 })
    | err x ↦ finished (err x) conn
    | panic ↦ finished panic conn
    | pending ↦ finished pending conn
  ]

  -- `store.get(…).await.unwrap()` and the reply.
  unfoldable pub reply_get : Result (Option Bytes) → Connection S → Served S
  unfolding reply
  reply_get (ok (some val)) conn = reply (write_get_result val) conn
  reply_get (ok none) conn = reply write_null conn
  reply_get (err x) conn = finished panic conn
  reply_get panic conn = finished panic conn
  reply_get pending conn = finished pending conn

  -- `store.transact(…).await.ok()` and the reply: an error is dropped.
  unfoldable pub reply_set : Result (Unit {0}) → Bytes → Connection S → Served S
  unfolding reply
  reply_set (ok _) value conn = reply (write_set_result value) conn
  reply_set (err x) value conn = reply (write_set_result value) conn
  reply_set panic value conn = finished panic conn
  reply_set pending value conn = finished pending conn

  -- The match on the operation that was read.
  unfoldable pub on_op : ProtoOp → Connection S → Served S
  unfolding reply reply_get reply_set
  on_op sys_close conn = finished (ok tt) conn
  on_op cancelled conn = finished (ok tt) conn
  on_op (echo msg) conn = reply (write_echo msg) conn
  on_op (get key) conn =
      let (found, left) = store.get key conn.store in reply_get found (record conn { store = left })
  on_op (set key value) conn =
      let tx = with_random_id (draw conn.replies) (Operation.set key value ∷ []) in
      let (done, left) = store.transact tx conn.store in
      reply_set done value (record conn { store = left })

  -- `op?` and the match. The loop of `read` always has an outcome, so `none` does not occur.
  unfoldable pub on_read :
      Option (Result ProtoOp × Proto × List ReadEvent) → Connection S → Served S
  unfolding on_op
  on_read none conn = finished pending conn
  on_read (some (ok op, proto, input)) conn =
      on_op op (record conn { proto = proto; input = input })
  on_read (some (err x, proto, input)) conn =
      finished (err x) (record conn { proto = proto; input = input })
  on_read (some (panic, proto, input)) conn =
      finished panic (record conn { proto = proto; input = input })
  on_read (some (pending, proto, input)) conn =
      finished pending (record conn { proto = proto; input = input })

  -- A round of the loop.
  unfoldable pub round : Connection S → Served S
  unfolding on_read
  round conn = on_read (read conn.proto conn.input) conn

  -- The first rounds of the loop, as many as `n` if it does not return before.
  unfoldable pub rounds : ℕ → Connection S → Served S
  unfolding round
  rounds zero conn = continued conn
  rounds (suc n) conn = elim (round conn) [
    | continued next ↦ rounds n next
    | finished x left ↦ finished x left
  ]

  -- `ClientServer::handle_conn` for some rounds, where accepting the connection and TLS on it came to
  -- `incoming` and `stream`.
  unfoldable pub handle_conn : ℕ → Option (Unit {0}) → Option (List ReadEvent) → S → Served S
  unfolding rounds
  handle_conn n none stream s = finished (err (e (session "error accepting tls"))) (accepted s [])
  handle_conn n (some _) none s =
      finished (err (e (session "error accepting stream"))) (accepted s [])
  handle_conn n (some _) (some input) s = rounds n (accepted s input)
