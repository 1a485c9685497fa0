-- ===== src/Proto/Machine.antt =====
-- `read`: a round of the loop on each state, and the loop.
pub mod Termination
pub mod Requests
pub mod RoundTrip
pub mod Sessions
pub mod Closing
pub mod Stream
use kave.Base.{
  ℕ, zero, suc, ◌+◌, ◌*◌, Bool, true, false, Option, none, some, List, [], ◌∷◌, ◌++◌, length, take,
  drop, ltb, leb, ◌==◌, if◌then◌else◌,
}
use kave.Base.Bytes.{Bytes, beq}
use kave.Base.Text.{is_utf8}
use kave.Error.{
  Result, ok, err, panic, pending, e, session, short_operation, unknown_operation, invalid_utf8,
}
use kave.Proto.{
  ProtoOp, get, set, echo, sys_close, cancelled, Op, op_get, op_set, op_echo, State, start, read_op,
  read_key_len, read_key, read_echo, read_value_len, read_value, done, ReadEvent, received, eof,
  killed, failed, Reader, Proto, defaults,
}
use kave.Proto.Loops.{LenRead, skip_line, more, len, bad, read_len, read_bytes}

-- A round of the loop goes on, or returns.
pub data Round : Type 0 where
  again : Reader → Round
  return : Result ProtoOp → Reader → Round

-- `MIN_BUF_SIZE`
abbrev pub min_buf_size : ℕ
min_buf_size = 4

on_start : Reader → Round
on_start r =
    if r.fresh
    then again (record r { state = read_op; fresh = false })
    else elim (skip_line (drop r.ptr r.buf) r.ptr) [
      | some p ↦ again (record r {
        ptr = p;
        state = read_op;
        residual = if ltb p (length r.buf) then r.residual ++ drop p r.buf else r.residual;
      })
      | none ↦ again (record r { ptr = length r.buf; needs_read = true })
    ]

abbrev pub get_tag : Bytes
get_tag = b'G' ∷ b'E' ∷ b'T' ∷ b':' ∷ []

abbrev pub set_tag : Bytes
set_tag = b'S' ∷ b'E' ∷ b'T' ∷ b':' ∷ []

abbrev pub echo_tag : Bytes
echo_tag = b'E' ∷ b'C' ∷ b'H' ∷ b'O' ∷ []

-- The match on the four bytes. The pointer is set, not advanced.
on_tag : Bytes → Reader → Round
on_tag tag r =
    if beq tag get_tag
    then again (record r { ptr = 3; op = op_get; needs_read = false; state = read_key_len })
    else if beq tag set_tag
    then again (record r { ptr = 3; op = op_set; needs_read = false; state = read_key_len })
    else if beq tag echo_tag
    then again (record r { ptr = 4; op = op_echo; needs_read = false; state = read_key_len })
    else return (err (e (unknown_operation tag))) r

on_read_op : Reader → Round
unfolding on_tag
on_read_op r =
    if ltb (length r.buf) (r.ptr + min_buf_size)
    then (if r.ptr == 0
        then return (err (e (short_operation r.buf))) r
        else again (record r { needs_read = true }))
    else on_tag (take min_buf_size (drop r.ptr r.buf)) r

pub is_echo : Op → Bool
is_echo op_get = false
is_echo op_set = false
is_echo op_echo = true

-- What the round makes of the length that was read, in `State::ReadKeyLen`.
after_key_len : LenRead → Reader → Round
unfolding is_echo
after_key_len (more p between len_buf) r =
    again (record r { ptr = p; between_colons = between; key_len_buf = len_buf; needs_read = true })
after_key_len (len p n) r = again (record r {
  ptr = p;
  between_colons = false;
  key_len = n;
  state = if is_echo r.op then read_echo else read_key;
})
after_key_len (bad x) r = return (err x) r

pub on_read_key_len : Reader → Round
unfolding after_key_len
on_read_key_len r =
    after_key_len (read_len (drop r.ptr r.buf) r.ptr r.between_colons r.key_len_buf) r

pub on_read_echo : Reader → Round
on_read_echo r =
    let (p, got) = read_bytes (drop r.ptr r.buf) r.ptr r.echoed r.key_len in
    if leb r.key_len (length got)
    then again (record r { ptr = p; echoed = got; state = done })
    else again (record r { ptr = p; echoed = got; needs_read = true })

-- The match on the operation behind the key; an echo never reads a key.
after_key : Op → Reader → Round
after_key op_get r = again (record r { state = done })
after_key op_set r = again (record r { state = read_value_len })
after_key op_echo r = return panic r

pub on_read_key : Reader → Round
unfolding after_key
on_read_key r =
    let (p, got) = read_bytes (drop r.ptr r.buf) r.ptr r.key r.key_len in
    if leb r.key_len (length got)
    then after_key r.op (record r { ptr = p; key = got })
    else again (record r { ptr = p; key = got; needs_read = true })

-- The same in `State::ReadValueLen`.
after_value_len : LenRead → Reader → Round
after_value_len (more p between len_buf) r =
    again
      (record r { ptr = p; between_colons = between; value_len_buf = len_buf; needs_read = true })
after_value_len (len p n) r =
    again (record r { ptr = p; between_colons = false; value_len = n; state = read_value })
after_value_len (bad x) r = return (err x) r

pub on_read_value_len : Reader → Round
unfolding after_value_len
on_read_value_len r =
    after_value_len (read_len (drop r.ptr r.buf) r.ptr r.between_colons r.value_len_buf) r

pub on_read_value : Reader → Round
on_read_value r =
    let (p, got) = read_bytes (drop r.ptr r.buf) r.ptr r.value r.value_len in
    if leb r.value_len (length got)
    then again (record r { ptr = p; value = got; state = done })
    else again (record r { ptr = p; value = got; needs_read = true })

-- The operation that was read.
pub result_of : Op → Reader → ProtoOp
result_of op_echo r = echo r.echoed
result_of op_get r = get r.key
result_of op_set r = set r.key r.value

pub on_done : Reader → Round
unfolding result_of
on_done r =
    if is_utf8 r.key
    then return (ok (result_of r.op r)) r
    else return (err (e (invalid_utf8 "key"))) r

-- `match state`
unfoldable pub handle : State → Reader → Round
unfolding on_start on_read_op on_read_key_len on_read_echo on_read_key on_read_value_len
    on_read_value on_done
handle start r = on_start r
handle read_op r = on_read_op r
handle read_key_len r = on_read_key_len r
handle read_echo r = on_read_echo r
handle read_key r = on_read_key r
handle read_value_len r = on_read_value_len r
handle read_value r = on_read_value r
handle done r = on_done r

-- The read at the head of a round: the buffer is emptied, and what is left over goes before what
-- comes. With no read to come the call waits.
fill : List ReadEvent → Reader → Round
fill [] r = return pending (record r { buf = [] })
fill (eof ∷ rest) r = return (ok sys_close) (record r { buf = []; input = rest })
fill (killed ∷ rest) r = return (ok cancelled) (record r { buf = []; input = rest })
fill (failed ∷ rest) r =
    return (err (e (session "error reading from socket"))) (record r { buf = []; input = rest })
fill (received bytes ∷ rest) r = again (record r {
  buf = r.residual ++ bytes;
  residual = [];
  ptr = 0;
  needs_read = false;
  input = rest;
})

-- The state's part of the round, if the read did not return.
then_handle : Round → Round
then_handle (again r) = handle r.state r
then_handle (return x r) = return x r

unfoldable pub round : Reader → Round
unfolding fill then_handle
round r = if r.needs_read then then_handle (fill r.input r) else handle r.state r

-- The loop; `none` means that the fuel ran out.
unfoldable pub run : ℕ → Reader → Option (Result ProtoOp × Reader)
unfolding round
run zero r = none
run (suc fuel) r = elim (round r) [ again r' ↦ run fuel r' | return x r' ↦ some (x, r') ]

-- Every read is followed by at most one more round, and there are eight states.
abbrev pub fuel_for : List ReadEvent → ℕ
fuel_for input = 2 * length input + 10

-- What a call leaves of the variables of `read`.
unfoldable pub left_of :
    Option (Result ProtoOp × Reader) → Option (Result ProtoOp × Proto × List ReadEvent)
left_of none = none
left_of (some (x, r)) = some (x, record { buf = r.buf; fresh = r.fresh }, r.input)

-- A call of `read`: its result, the `Proto` that it leaves, and the reads still to come.
unfoldable pub read : Proto → List ReadEvent → Option (Result ProtoOp × Proto × List ReadEvent)
unfolding run
read proto input = left_of (run (fuel_for input) (defaults proto input))
