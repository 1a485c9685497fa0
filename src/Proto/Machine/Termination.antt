-- ===== src/Proto/Machine/Termination.antt =====
-- The rounds of the loop of `read` in proto.rs, counted.
use kave.Base.{
  ℕ, zero, suc, ◌+◌, ◌*◌, ◌<◌, Bool, true, false, Option, none, some, List, [], ◌∷◌, ◌++◌, ◌≡◌, ◌≢◌,
  ◌⊎◌, inl, inr, refl, arith, length, drop, Bool-cases, Option-cases, if◌then◌else◌, leb, ltb, ◌==◌,
  take,
}
use kave.Base.Bytes.{Bytes, beq}
use kave.Base.Text.{is_utf8}
use kave.Error.{Error, Result, ok, err, panic, pending}
use kave.Proto.{
  ProtoOp, Op, op_get, op_set, op_echo, State, start, read_op, read_key_len, read_key, read_echo,
  read_value_len, read_value, done, ReadEvent, received, eof, killed, failed, Reader, Proto,
  defaults,
}
use kave.Proto.Loops.{skip_line, LenRead, more, len, bad, read_bytes}
use kave.Proto.Machine.{
  Round, again, return, on_start, on_tag, on_read_op, on_read_key_len, on_read_echo, after_key,
  on_read_key, on_read_value_len, on_read_value, on_done, handle, fill, then_handle, round, run,
  fuel_for, left_of, read, after_key_len, after_value_len, get_tag, set_tag, echo_tag, is_echo,
  min_buf_size,
}

-- How far a state is from the end.
unfoldable pub rank : State → ℕ
rank start = 6
rank read_op = 5
rank read_key_len = 4
rank read_key = 3
rank read_echo = 3
rank read_value_len = 2
rank read_value = 1
rank done = 0

abbrev pub measure : Reader → ℕ
measure r = 2 * length r.input + rank r.state + (if r.needs_read then 0 else 1)

-- A round that goes on is below the bound; one that waits has no read to come.
abbrev pub Below : ℕ → Round → Type 0
Below n (again r) = measure r < n
Below n (return x r) = (x ≢ pending) ⊎ (r.input ≡ [])

returns_err : {x : Error} (r : Result ProtoOp) → r ≡ err x → r ≢ pending
returns_err r h = cc h

returns_panic : (r : Result ProtoOp) → r ≡ panic → r ≢ pending
returns_panic r h = cc h

returns_ok : {o : ProtoOp} (r : Result ProtoOp) → r ≡ ok o → r ≢ pending
returns_ok r h = cc h

on_start-Below :
    (r : Reader) → r.state ≡ start → r.needs_read ≡ false → Below (measure r) (on_start r)
unfolding on_start rank
on_start-Below r at full = elim (Bool-cases r.fresh) [
  | inl new ↦ rw (new, at, full) (omega arith)
  | inr used ↦ elim (Option-cases (skip_line (drop r.ptr r.buf) r.ptr)) [
    | inl ended ↦ rw (used, ended, at, full) (omega arith)
    | inr (p, line) ↦ rw (used, line, at, full) (omega arith)
  ]
]

on_tag-Below :
    (tag : Bytes) (r : Reader)
    → r.state ≡ read_op
    → r.needs_read ≡ false
    → Below (measure r) (on_tag tag r)
unfolding on_tag rank
on_tag-Below tag r at full = elim (Bool-cases (beq tag get_tag)) [
  | inl is_get ↦ rw (is_get, at, full) (omega arith)
  | inr no_get ↦ elim (Bool-cases (beq tag set_tag)) [
    | inl is_set ↦ rw (no_get, is_set, at, full) (omega arith)
    | inr no_set ↦ elim (Bool-cases (beq tag echo_tag)) [
      | inl is_echo ↦ rw (no_get, no_set, is_echo, at, full) (omega arith)
      | inr no_echo ↦ rw (no_get, no_set, no_echo) (inl (returns_err _ refl))
    ]
  ]
]

on_read_op-Below :
    (r : Reader) → r.state ≡ read_op → r.needs_read ≡ false → Below (measure r) (on_read_op r)
unfolding on_read_op rank
on_read_op-Below r at full = elim (Bool-cases (ltb (length r.buf) (r.ptr + min_buf_size))) [
  | inl short ↦ elim (Bool-cases (r.ptr == 0)) [
    | inl first ↦ rw (short, first) (inl (returns_err _ refl))
    | inr later ↦ rw (short, later, at, full) (omega arith)
  ]
  | inr long ↦ rw long (on_tag-Below (take min_buf_size (drop r.ptr r.buf)) r at full)
]

after_key_len-Below :
    (x : LenRead) (r : Reader)
    → r.state ≡ read_key_len
    → r.needs_read ≡ false
    → Below (measure r) (after_key_len x r)
unfolding after_key_len rank
after_key_len-Below (more p between buf) r at full = rw (at, full) (omega arith)
after_key_len-Below (len p n) r at full = elim (Bool-cases (is_echo r.op)) [
  | inl echoes ↦ rw (echoes, at, full) (omega arith)
  | inr reads ↦ rw (reads, at, full) (omega arith)
]
after_key_len-Below (bad why) r at full = inl (returns_err _ refl)

after_value_len-Below :
    (x : LenRead) (r : Reader)
    → r.state ≡ read_value_len
    → r.needs_read ≡ false
    → Below (measure r) (after_value_len x r)
unfolding after_value_len rank
after_value_len-Below (more p between buf) r at full = rw (at, full) (omega arith)
after_value_len-Below (len p n) r at full = rw (at, full) (omega arith)
after_value_len-Below (bad why) r at full = inl (returns_err _ refl)

on_read_echo-Below :
    (r : Reader) → r.state ≡ read_echo → r.needs_read ≡ false → Below (measure r) (on_read_echo r)
unfolding on_read_echo rank
on_read_echo-Below r at full = ground arith

after_key-Below :
    (o : Op) (n : ℕ) (r : Reader)
    → r.needs_read ≡ false
    → 2 * length r.input + 3 < n
    → Below n (after_key o r)
unfolding after_key rank
after_key-Below op_get n r full h = rw full (omega arith)
after_key-Below op_set n r full h = rw full (omega arith)
after_key-Below op_echo n r full h = inl (returns_panic _ refl)

on_read_key-Below :
    (r : Reader) → r.state ≡ read_key → r.needs_read ≡ false → Below (measure r) (on_read_key r)
unfolding on_read_key rank
on_read_key-Below r at full =
    let (p, got) = read_bytes (drop r.ptr r.buf) r.ptr r.key r.key_len in
    elim (Bool-cases (leb r.key_len (length got))) [
      | inl whole ↦ rw whole (
          after_key-Below r.op (measure r) (record r { ptr = p; key = got }) full
            (rw (at, full) (omega arith)))
      | inr part ↦ rw (part, at, full) (omega arith)
    ]

on_read_value-Below :
    (r : Reader) → r.state ≡ read_value → r.needs_read ≡ false → Below (measure r) (on_read_value r)
unfolding on_read_value rank
on_read_value-Below r at full = ground arith

on_done-Below : (n : ℕ) (r : Reader) → Below n (on_done r)
unfolding on_done
on_done-Below n r = elim (Bool-cases (is_utf8 r.key)) [
  | inl text ↦ rw text (inl (returns_ok _ refl))
  | inr other ↦ rw other (inl (returns_err _ refl))
]

-- With a full buffer, a round moves on to a later state or asks for a read.
handle-Below :
    (s : State) (r : Reader) → r.state ≡ s → r.needs_read ≡ false → Below (measure r) (handle s r)
unfolding handle
handle-Below start r at full = on_start-Below r at full
handle-Below read_op r at full = on_read_op-Below r at full
handle-Below read_key_len r at full = unfold on_read_key_len in after_key_len-Below _ r at full
handle-Below read_key r at full = on_read_key-Below r at full
handle-Below read_echo r at full = on_read_echo-Below r at full
handle-Below read_value_len r at full =
    unfold on_read_value_len in after_value_len-Below _ r at full
handle-Below read_value r at full = on_read_value-Below r at full
handle-Below done r at full = on_done-Below (measure r) r

-- A read is taken from those to come.
fill-Below :
    (input : List ReadEvent) (r : Reader)
    → r.input ≡ input
    → r.needs_read ≡ true
    → Below (measure r) (then_handle (fill input r))
unfolding fill then_handle
fill-Below [] r at empty = inr at
fill-Below (eof ∷ rest) r at empty = inl (returns_ok _ refl)
fill-Below (killed ∷ rest) r at empty = inl (returns_ok _ refl)
fill-Below (failed ∷ rest) r at empty = inl (returns_err _ refl)
fill-Below (received bytes ∷ rest) r at empty =
    let next = record r {
      buf = r.residual ++ bytes;
      residual = [];
      ptr = 0;
      needs_read = false;
      input = rest;
    } in
    Below-weaken (handle r.state next) (measure next) (measure r) (rw (at, empty) (omega arith))
      (handle-Below r.state next refl refl)
  where
    Below-weaken : (x : Round) (m n : ℕ) → m < n → Below m x → Below n x
    Below-weaken (again r) m n h b = omega arith
    Below-weaken (return x r) m n h b = b

round-Below : (r : Reader) → Below (measure r) (round r)
unfolding round
round-Below r = choose r.needs_read refl
  where
    choose :
        (b : Bool)
        → r.needs_read ≡ b
        → Below (measure r) (if b then then_handle (fill r.input r) else handle r.state r)
    choose true empty = fill-Below r.input r refl empty
    choose false full = handle-Below r.state r refl full

-- What the loop comes to: an outcome, and where it waits, no read is to come.
abbrev pub Returns : Option (Result ProtoOp × Reader) → Type 0
Returns none = ⊥
Returns (some (x, r)) = (x ≢ pending) ⊎ (r.input ≡ [])

run-Returns : (fuel : ℕ) (r : Reader) → measure r < fuel → Returns (run fuel r)
unfolding run
run-Returns zero r h = absurd (omega arith)
run-Returns (suc fuel) r h =
    after_round (λ r' less. run-Returns fuel r' (omega (arith, less))) (round r) (round-Below r)
  where
    after_round :
        ((r' : Reader) → measure r' < measure r → Returns (run fuel r'))
        → (x : Round) → Below (measure r) x
        → Returns (elim x [ again r' ↦ run fuel r' | return y r' ↦ some (y, r') ])
    after_round next (again r') b = next r' b
    after_round next (return y r') b = b

-- On every list of reads from the socket, and whatever an earlier call left, the loop of `read`
-- comes to an outcome within its fuel, two rounds for each read and ten more; if that outcome is to
-- wait for input, every read of the list was taken.
pub read-returns :
    (proto : Proto) (input : List ReadEvent)
    → (x : Result ProtoOp) × (left : Proto) × (rest : List ReadEvent) × (read proto input
        ≡ some (x, left, rest))
      × ((x ≢ pending) ⊎ (rest ≡ []))
unfolding read
read-returns proto input =
    outcome (run (fuel_for input) (defaults proto input))
      (run-Returns (fuel_for input) (defaults proto input) (unfold defaults rank in ground arith))
  where
    outcome :
        (o : Option (Result ProtoOp × Reader))
        → Returns o
        → (x : Result ProtoOp) × (left : Proto) × (rest : List ReadEvent) × (left_of o
            ≡ some (x, left, rest))
          × ((x ≢ pending) ⊎ (rest ≡ []))
    outcome none h = absurd h
    outcome (some (x, r)) h =
        (x, record { buf = r.buf; fresh = r.fresh }, r.input, unfold left_of in refl, h)
