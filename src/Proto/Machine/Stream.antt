-- ===== src/Proto/Machine/Stream.antt =====
-- What `read` of proto.rs makes of the bytes behind the name of an operation, whatever reads bring
-- them: a decoder on one sequence of bytes. The proofs that `read` agrees with it are in Steps,
-- Lens and Whole.
pub mod Loops
pub mod Steps
pub mod Lens
pub mod Whole
pub mod Cuts
pub mod Fields
pub mod Ends
use kave.Base.{
  ℕ, Bool, true, false, Option, none, some, List, [], ◌∷◌, ◌++◌, length, ltb, leb, ◌==◌,
  if◌then◌else◌,
}
use kave.Base.Bytes.{Bytes}
use kave.Base.Text.{is_utf8, parse_usize}
use kave.Error.{
  Error, Result, ok, err, panic, pending, e, expected_colon, invalid_utf8, parse_int_error,
}
use kave.Proto.{
  ProtoOp, Op, op_get, op_set, op_echo, State, start, read_op, read_key_len, read_key, read_echo,
  read_value_len, read_value, done, Reader,
}
use kave.Proto.Machine.{is_echo, result_of}
use kave.Proto.Machine.Requests.{tagged}

-- A number and the bytes behind it, an error, or too few bytes.
pub data Taken : Type 0 where
  starved : Taken
  taken : ℕ → Bytes → Taken
  refused : Error → Taken

-- The length that was read, in front of `rest`.
pub parsed : Bytes → Bytes → Taken
parsed len_buf rest =
    if is_utf8 len_buf
    then elim (parse_usize len_buf) [ none ↦ refused parse_int_error | some n ↦ taken n rest ]
    else refused (e (invalid_utf8 "length"))

-- A length between colons.
pub take_len : Bytes → Bool → Bytes → Taken
unfolding parsed
take_len [] between len_buf = starved
take_len (c ∷ cs) false len_buf =
    let rest = take_len cs true len_buf in
    if c == b':' then rest else refused (e (expected_colon (c ∷ [])))
take_len (c ∷ cs) true len_buf =
    let rest = take_len cs true (len_buf ++ c ∷ []) in if c == b':' then parsed len_buf cs else rest

-- So many bytes and what is behind them.
pub take_bytes : Bytes → Bytes → ℕ → Option (Bytes × Bytes)
take_bytes [] got wanted = if leb wanted (length got) then some (got, []) else none
take_bytes (c ∷ cs) got wanted =
    let rest = take_bytes cs (got ++ c ∷ []) wanted in
    if ltb (length got) wanted then rest else some (got, c ∷ cs)

-- The variables that the result depends on, but for the digits of the key's length.
abbrev pub bare : Reader → Reader
bare r = record r {
  buf = [];
  input = [];
  state = start;
  needs_read = false;
  ptr = 0;
  key_len_buf = [];
  residual = [];
}

-- The variables that an operation is made of.
abbrev pub plain : Reader → Reader
plain r = record (tagged r.op [] 0 [] []) { key = r.key; echoed = r.echoed; value = r.value }

-- The result of the operation that was read.
pub settle : Reader → Option (Result ProtoOp)
settle r =
    if is_utf8 r.key
    then some (ok (result_of r.op (plain r)))
    else some (err (e (invalid_utf8 "key")))

pub decode_value : Reader → Bytes → Option (Result ProtoOp)
unfolding settle
decode_value r bytes = elim (take_bytes bytes r.value r.value_len) [
  | none ↦ none
  | some (got, rest) ↦ settle (record r { value = got })
]

pub decode_value_len : Reader → Bytes → Option (Result ProtoOp)
unfolding decode_value
decode_value_len r bytes = elim (take_len bytes r.between_colons r.value_len_buf) [
  | starved ↦ none
  | taken n rest ↦ decode_value (record r { between_colons = false; value_len = n }) rest
  | refused x ↦ some (err x)
]

pub decode_after_key : Op → Reader → Bytes → Option (Result ProtoOp)
unfolding decode_value_len settle
decode_after_key op_get r bytes = settle r
decode_after_key op_set r bytes = decode_value_len r bytes
decode_after_key op_echo r bytes = some panic

pub decode_key : Reader → Bytes → Option (Result ProtoOp)
unfolding decode_after_key
decode_key r bytes = elim (take_bytes bytes r.key r.key_len) [
  | none ↦ none
  | some (got, rest) ↦ decode_after_key r.op (record r { key = got }) rest
]

pub decode_echo : Reader → Bytes → Option (Result ProtoOp)
unfolding settle
decode_echo r bytes = elim (take_bytes bytes r.echoed r.key_len) [
  | none ↦ none
  | some (got, rest) ↦ settle (record r { echoed = got })
]

pub decode_key_len : Bytes → Reader → Bytes → Option (Result ProtoOp)
unfolding decode_echo decode_key
decode_key_len len_buf r bytes = elim (take_len bytes r.between_colons len_buf) [
  | starved ↦ none
  | taken n rest ↦
      let next = record r { between_colons = false; key_len = n } in
      if is_echo r.op then decode_echo next rest else decode_key next rest
  | refused x ↦ some (err x)
]

-- From a state behind the name of the operation.
pub decode : State → Bytes → Reader → Bytes → Option (Result ProtoOp)
unfolding decode_key_len decode_key decode_echo decode_value_len decode_value settle
decode start len_buf r bytes = none
decode read_op len_buf r bytes = none
decode read_key_len len_buf r bytes = decode_key_len len_buf r bytes
decode read_key len_buf r bytes = decode_key r bytes
decode read_echo len_buf r bytes = decode_echo r bytes
decode read_value_len len_buf r bytes = decode_value_len r bytes
decode read_value len_buf r bytes = decode_value r bytes
decode done len_buf r bytes = settle r

-- Too few bytes: the call waits.
pub or_waits : Option (Result ProtoOp) → Result ProtoOp
or_waits none = pending
or_waits (some x) = x
