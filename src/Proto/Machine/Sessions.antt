-- ===== src/Proto/Machine/Sessions.antt =====
-- A second call of `read` in proto.rs, on the buffer that the first one left.
use mathlib.Core.Path.{subst}
use kave.Base.{
  ℕ, suc, ◌+◌, ◌*◌, true, false, some, List, [], ◌∷◌, ◌++◌, ◌≡◌, refl, ◌∙◌, sym, ap, arith, length,
  length-append, take, drop, drop-append_add, ltb, ◌==◌, if◌then◌else◌, append_assoc,
}
use kave.Base.Bytes.{Bytes}
use kave.Base.Decimal.{to_string}
use kave.Base.Decimal.RoundTrip.{AllDigits, to_string-AllDigits}
use kave.Error.{ok}
use kave.Proto.{
  ProtoOp, get, set, echo, sys_close, cancelled, op_get, read_op, ReadEvent, received, defaults,
}
use kave.Proto.Loops.Laws.{IsLine, skip_line-append}
use kave.Proto.Machine.{
  run, again, on_start, on_read_op, handle, fill, then_handle, round, left_of, fuel_for, read,
}
use kave.Proto.Machine.Requests.{field, tagged, run-again, run-get}
use kave.Proto.Machine.RoundTrip.{
  request, IsRequest, used, opening, ptr_of, tag_of, tag-round, left_of-run_more, run-opening,
}

IsLine-append : (a b : Bytes) → IsLine a → IsLine b → IsLine (a ++ b)
IsLine-append [] b p q = q
IsLine-append (c ∷ a) b p q = (p.0, IsLine-append a b p.1 q)

AllDigits-IsLine : (ds : Bytes) → AllDigits ds → IsLine ds
AllDigits-IsLine [] h = tt
AllDigits-IsLine (d ∷ ds) h = (ground (arith, h.0), AllDigits-IsLine ds h.2)

field-IsLine : (s : Bytes) → IsLine s → IsLine (field s)
field-IsLine s h = (
  refl,
  IsLine-append (to_string (length s)) (b':' ∷ s)
      (AllDigits-IsLine (to_string (length s)) (to_string-AllDigits (length s))) (refl, h),
)

-- The arguments of a request have no newline.
abbrev pub IsOneLine : ProtoOp → Type 0
IsOneLine (get k) = IsLine k
IsOneLine (set k v) = IsLine k × IsLine v
IsOneLine (echo msg) = IsLine msg
IsOneLine sys_close = Unit
IsOneLine cancelled = Unit

-- A request without its newline.
pub line_of : ProtoOp → Bytes
line_of (get k) = b'G' ∷ b'E' ∷ b'T' ∷ field k
line_of (set k v) = b'S' ∷ b'E' ∷ b'T' ∷ (field k ++ field v)
line_of (echo msg) = b'E' ∷ b'C' ∷ b'H' ∷ b'O' ∷ field msg
line_of _ = []

pub request-line_of : (op : ProtoOp) → IsRequest op → request op ≡ line_of op ++ b'\n' ∷ []
unfolding line_of
request-line_of (get k) h = refl
request-line_of (set k v) h =
    ap (λ (bytes : Bytes). b'S' ∷ b'E' ∷ b'T' ∷ bytes)
      (sym (append_assoc (field k) (field v) (b'\n' ∷ [])))
request-line_of (echo msg) h = refl
request-line_of sys_close h = absurd h
request-line_of cancelled h = absurd h

pub line_of-IsLine : (op : ProtoOp) → IsOneLine op → IsLine (line_of op)
unfolding line_of
line_of-IsLine (get k) h = (refl, (refl, (refl, field-IsLine k h)))
line_of-IsLine (set k v) h = (
  refl,
  (refl, (refl, IsLine-append (field k) (field v) (field-IsLine k h.0) (field-IsLine v h.1))),
)
line_of-IsLine (echo msg) h = (refl, (refl, (refl, (refl, field-IsLine msg h))))
line_of-IsLine sys_close h = tt
line_of-IsLine cancelled h = tt

-- The first round of a call on a used connection, where the buffer begins with a line.
skip-round :
    (line tail : Bytes) (input : List ReadEvent)
    → IsLine line
    → round (defaults (used (line ++ b'\n' ∷ tail)) input)
      ≡ again (
          opening (line ++ b'\n' ∷ tail) (0 + length line + 1) input (
            if ltb (0 + length line + 1) (length (line ++ b'\n' ∷ tail))
            then drop (0 + length line + 1) (line ++ b'\n' ∷ tail)
            else []))
unfolding round handle on_start defaults
skip-round line tail input h = rw (skip_line-append line tail 0 h)

length-line : (line : Bytes) → length (line ++ b'\n' ∷ []) ≡ length line + 1
length-line line = length-append line (b'\n' ∷ [])

-- The first two rounds of a call where the buffer is one whole line: there has to be a read.
pub run-line :
    (n : ℕ) (line : Bytes) (events : List ReadEvent)
    → IsLine line
    → let buf = line ++ b'\n' ∷ [] in
      run (suc (suc n)) (defaults (used buf) events)
      ≡ run n (record (opening buf (0 + length line + 1) events []) { needs_read = true })
run-line n line events one =
    let buf = line ++ b'\n' ∷ [] in
    let p = 0 + length line + 1 in
    let size = length-line line in
    let all : ltb p (length buf) ≡ false = ground (arith, size) in
    let short : ltb (length buf) (p + 4) ≡ true = ground (arith, size) in
    let inside : (p == 0) ≡ false = ground arith in
    let behind = opening buf p events [] in
    let skipped : round (defaults (used buf) events) ≡ again behind =
      rw all at (skip-round line [] events one) in
    let ended : round behind ≡ again (record behind { needs_read = true }) =
      unfold round handle on_read_op in rw (short, inside) in
    run-again (suc n) (defaults (used buf) events) behind skipped ∙ run-again n behind _ ended

-- Behind a whole line that is all of the buffer, the next read begins at the front.
read-line :
    (line : Bytes) (op : ProtoOp) (junk : Bytes) (input : List ReadEvent)
    → IsLine line
    → IsRequest op
    → read (used (line ++ b'\n' ∷ [])) (received (request op ++ junk) ∷ input)
      ≡ some (ok op, used (request op ++ junk), input)
unfolding read
read-line line op junk input one h =
    let events = received (request op ++ junk) ∷ input in
    let buf = line ++ b'\n' ∷ [] in
    let refill = record (opening buf (0 + length line + 1) events []) { needs_read = true } in
    let filled : round refill ≡ handle read_op (opening (request op ++ junk) 0 input []) =
      unfold round fill then_handle in refl in
    let fuel : fuel_for events ≡ 8 + (2 * length input + 4) = omega arith in
    rw fuel (
      left_of-run_more 8 (2 * length input + 4) (defaults (used buf) events) _
        (ap left_of (run-line 6 line events one) ∙ run-opening op junk input refill h filled))

pub read-next :
    (first next : ProtoOp) (junk : Bytes) (input : List ReadEvent)
    → IsRequest first
    → IsOneLine first
    → IsRequest next
    → read (used (request first)) (received (request next ++ junk) ∷ input)
      ≡ some (ok next, used (request next ++ junk), input)
read-next first next junk input f one h =
    rw (request-line_of first f)
      (read-line (line_of first) next junk input (line_of-IsLine first one) h)

-- A `GET` behind the line of another one, in a buffer that has both.
read-behind :
    (k j junk : Bytes) (input : List ReadEvent)
    → IsRequest (get k)
    → IsLine k
    → let buf = line_of (get k) ++ b'\n' ∷ (request (get j) ++ junk) in
      read (used buf) input ≡ some (ok (get k), used buf, input)
unfolding read line_of ptr_of
read-behind k j junk input h one =
    let rest = request (get j) ++ junk in
    let line = line_of (get k) in
    let buf = line ++ b'\n' ∷ rest in
    let p = 0 + length line + 1 in
    let residual : Bytes = if ltb p (length buf) then drop p buf else [] in
    let size : length buf ≡ length line + suc (length rest) = length-append line (b'\n' ∷ rest) in
    let long : ltb (length buf) (p + 4) ≡ false = ground (arith, size) in
    let here : drop p buf ≡ rest =
      ap (λ (n : ℕ). drop n buf) (omega arith) ∙ drop-append_add line (b'\n' ∷ rest) 1 in
    let start_at = opening buf p input residual in
    let again_at = tagged op_get buf 3 input residual in
    let tag_read : round start_at ≡ again again_at =
      unfold round in
      tag-round op_get buf p input residual long (unfold tag_of in ap (take 4) here) in
    let fuel : fuel_for input ≡ 5 + (2 * length input + 5) = omega arith in
    rw fuel (
      left_of-run_more 5 (2 * length input + 5) (defaults (used buf) input) _ (
        ap left_of (
          run-again 4 (defaults (used buf) input) start_at
            (skip-round line rest input (line_of-IsLine (get k) one))
          ∙ run-again 3 start_at again_at tag_read)
        ∙ run-get buf input residual k (b'\n' ∷ rest) 3 refl h.0 h.1))

pub read-pipelined :
    (k j junk : Bytes) (input : List ReadEvent)
    → IsRequest (get k)
    → IsLine k
    → read (used (request (get k) ++ (request (get j) ++ junk))) input
      ≡ some (ok (get k), used (request (get k) ++ (request (get j) ++ junk)), input)
read-pipelined k j junk input h one =
    let rest = request (get j) ++ junk in
    subst (λ (buf : Bytes). read (used buf) input ≡ some (ok (get k), used buf, input))
      (sym (
        ap (λ (bytes : Bytes). bytes ++ rest) (request-line_of (get k) h)
        ∙ append_assoc (line_of (get k)) (b'\n' ∷ []) rest))
      (read-behind k j junk input h one)
