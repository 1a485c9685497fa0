-- ===== src/Proto/Machine/Closing.antt =====
-- `read` of proto.rs where the other end closes the stream in order: a read returns no bytes.
use kave.Base.{◌+◌, ◌*◌, true, some, List, [], ◌∷◌, ◌++◌, ◌≡◌, refl, ◌∙◌, ap, arith, length}
use kave.Base.Bytes.{Bytes}
use kave.Error.{err, e, short_operation}
use kave.Proto
use kave.Proto.{ProtoOp, start, read_op, ReadEvent, received, Proto, Reader, defaults}
use kave.Proto.Loops.Laws.{IsLine}
use kave.Proto.Machine.{
  again, return, on_start, on_read_op, handle, fill, then_handle, round, run, left_of, fuel_for,
  read,
}
use kave.Proto.Machine.Requests.{run-again, run-return}
use kave.Proto.Machine.RoundTrip.{request, IsRequest, used, opening, left_of-run_more}
use kave.Proto.Machine.Sessions.{IsOneLine, line_of, line_of-IsLine, request-line_of, run-line}

-- A round on an empty buffer.
empty-round :
    (input : List ReadEvent) (r : Reader)
    → round r ≡ handle read_op (opening [] 0 input [])
    → left_of (run 1 r) ≡ some (err (e (short_operation [])), used [], input)
empty-round input r h =
    let last = opening [] 0 input [] in
    let ended : handle read_op last ≡ return (err (e (short_operation []))) last =
      unfold handle on_read_op in refl in
    ap left_of (run-return 0 r last _ (h ∙ ended)) ∙ (unfold left_of in refl)

pub read-closed_new :
    (input : List ReadEvent)
    → read Proto.new (received [] ∷ input) ≡ some (err (e (short_operation [])), used [], input)
unfolding read
read-closed_new input =
    let first = defaults Proto.new (received [] ∷ input) in
    let begun : round first ≡ again (opening [] 0 input []) =
      unfold round fill then_handle handle on_start defaults Proto.new in refl in
    let fuel : fuel_for (received [] ∷ input) ≡ 2 + (2 * length input + 10) = omega arith in
    rw fuel (
      left_of-run_more 2 (2 * length input + 10) first _ (
        ap left_of (run-again 1 first (opening [] 0 input []) begun)
        ∙ empty-round input (opening [] 0 input []) (unfold round in refl)))

-- Behind a whole line that is all of the buffer.
closed-line :
    (line : Bytes) (input : List ReadEvent)
    → IsLine line
    → read (used (line ++ b'\n' ∷ [])) (received [] ∷ input)
      ≡ some (err (e (short_operation [])), used [], input)
unfolding read
closed-line line input one =
    let events = received [] ∷ input in
    let buf = line ++ b'\n' ∷ [] in
    let refill = record (opening buf (0 + length line + 1) events []) { needs_read = true } in
    let filled : round refill ≡ handle read_op (opening [] 0 input []) =
      unfold round fill then_handle in refl in
    let fuel : fuel_for events ≡ 3 + (2 * length input + 9) = omega arith in
    rw fuel (
      left_of-run_more 3 (2 * length input + 9) (defaults (used buf) events) _
        (ap left_of (run-line 1 line events one) ∙ empty-round input refill filled))

pub read-closed_used :
    (op : ProtoOp) (input : List ReadEvent)
    → IsRequest op
    → IsOneLine op
    → read (used (request op)) (received [] ∷ input)
      ≡ some (err (e (short_operation [])), used [], input)
read-closed_used op input h one =
    rw (request-line_of op h) (closed-line (line_of op) input (line_of-IsLine op one))
