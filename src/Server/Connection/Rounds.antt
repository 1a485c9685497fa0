-- ===== src/Server/Connection/Rounds.antt =====
-- Single rounds of a connection of server/client.rs, and what some of them leave.
use kave.Base.{ℕ, suc, ◌+◌, Option, none, some, List, [], ◌∷◌, ◌++◌, ◌≡◌, refl, sym, append-nil}
use kave.Base.Bytes.{Bytes}
use kave.Error.{Result, ok, err, e, short_operation}
use kave.Proto
use kave.Proto.{ProtoOp, get, set, echo, sys_close, cancelled, ReadEvent, received, Proto}
use kave.Proto.Machine.{read}
use kave.Proto.Machine.RoundTrip.{request, IsRequest, used, read-request}
use kave.Proto.Machine.Closing.{read-closed_new, read-closed_used}
use kave.Proto.Machine.Sessions.{IsOneLine, read-next}
use kave.Proto.Replies.{write_null, write_get_result}
use kave.Server.Connection.{Connection, continued, reply, reply_get, round, rounds}
use kave.Server.Connection.Spec.{found_reply}
use kave.Store.{Uuid, Store}
use kave.Store.Contract.{View}

-- From this `Proto` the next request that comes is read, and an orderly end is an error.
pub record IsReady (proto : Proto) : Type 0 where
  pub reads :
      (op : ProtoOp) (input : List ReadEvent)
      → IsRequest op
      → read proto (received (request op) ∷ input) ≡ some (ok op, used (request op), input)
  pub closes :
      (input : List ReadEvent)
      → read proto (received [] ∷ input) ≡ some (err (e (short_operation [])), used [], input)

pub new-IsReady : IsReady Proto.new
new-IsReady = record {
  reads = λ op input h.
      unfold Proto.new in rw (sym (append-nil (request op))) (read-request op [] [] input h);
  closes = read-closed_new;
}

pub used-IsReady : (op : ProtoOp) → IsRequest op → IsOneLine op → IsReady (used (request op))
used-IsReady op h one = record {
  reads = λ next input g. rw (sym (append-nil (request next))) (read-next op next [] input h one g);
  closes = λ input. read-closed_used op input h one;
}

module _ {S : Type 0} (store : Store S) (draw : ℕ → Uuid) (peer : ℕ → Result (Unit {0})) where
  -- A round that goes on.
  pub rounds-continued :
      (n : ℕ) (conn next : Connection S)
      → round store draw peer conn ≡ continued next
      → rounds store draw peer (suc n) conn ≡ rounds store draw peer n next
  unfolding rounds
  rounds-continued n conn next h = rw (h, rounds)

  -- A connection behind a reply, in some state of the store.
  abbrev pub replied : Connection S → Bytes → S → Connection S
  replied conn bytes s = record conn {
    output = conn.output ++ bytes;
    replies = conn.replies + 1;
    store = s;
  }

  pub reply_lem :
      (bytes : Bytes) (conn : Connection S)
      → ((n : ℕ) → peer n ≡ ok tt)
      → reply store draw peer bytes conn ≡ continued (replied conn bytes conn.store)
  unfolding reply
  reply_lem bytes conn listens = rw (listens conn.replies, reply) refl

  pub reply_get_lem :
      (found : Option Bytes) (conn : Connection S)
      → ((n : ℕ) → peer n ≡ ok tt)
      → reply_get store draw peer (ok found) conn
        ≡ continued (replied conn (found_reply found) conn.store)
  unfolding reply_get
  reply_get_lem none conn listens = reply_lem write_null conn listens
  reply_get_lem (some val) conn listens = reply_lem (write_get_result val) conn listens

  -- What the rounds of some requests leave; `Shows` may depend on the number of replies.
  pub record Handled (Shows : ℕ → S → View → Type 0) (n : ℕ) (conn : Connection S) (bytes : Bytes)
      (f : View) (rest : List ReadEvent) : Type 0 where
    pub last : Connection S
    pub goes_on : rounds store draw peer n conn ≡ continued last
    pub output : last.output ≡ conn.output ++ bytes
    pub shows : Shows last.replies last.store f
    pub counted : last.replies ≡ conn.replies + n
    pub input : last.input ≡ rest
    pub ready : IsReady last.proto
