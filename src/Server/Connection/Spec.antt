-- ===== src/Server/Connection/Spec.antt =====
-- What a client of server/client.rs expects: the replies to its requests, and what they change.
use kave.Base.{Option, none, some, List, [], ◌∷◌, ◌++◌}
use kave.Base.Bytes.{Bytes}
use kave.Proto.{ProtoOp, get, set, echo, sys_close, cancelled, ReadEvent, received}
use kave.Proto.Machine.RoundTrip.{request, IsRequest}
use kave.Proto.Machine.Sessions.{IsOneLine}
use kave.Proto.Replies.{write_null, write_echo, write_get_result, write_set_result}
use kave.Store.{Operation}
use kave.Store.Contract.{View, write}

-- The reply to a request, where `f` is the value of each key.
abbrev pub found_reply : Option Bytes → Bytes
found_reply none = write_null
found_reply (some val) = write_get_result val

abbrev pub answer : ProtoOp → View → Bytes
answer (get key) f = found_reply (f key)
answer (set key value) f = write_set_result value
answer (echo msg) f = write_echo msg
answer sys_close f = []
answer cancelled f = []

-- The values of the keys behind a request.
abbrev pub effect : ProtoOp → View → View
effect (set key value) f = write (Operation.set key value) f
effect (get key) f = f
effect (echo msg) f = f
effect sys_close f = f
effect cancelled f = f

abbrev pub answers : List ProtoOp → View → Bytes
answers [] f = []
answers (op ∷ ops) f = answer op f ++ answers ops (effect op f)

abbrev pub effects : List ProtoOp → View → View
effects [] f = f
effects (op ∷ ops) f = effects ops (effect op f)

-- A client that sends each request in a read of its own.
abbrev pub reads_of : List ProtoOp → List ReadEvent
reads_of [] = []
reads_of (op ∷ ops) = received (request op) ∷ reads_of ops

abbrev pub AreRequests : List ProtoOp → Type 0
AreRequests [] = Unit
AreRequests (op ∷ ops) = IsRequest op × IsOneLine op × AreRequests ops
