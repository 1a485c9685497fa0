-- ===== src/Proto/Machine/Requests.antt =====
-- The requests that the documentation of `read` in proto.rs describes, and the rounds that read one
-- out of a buffer that holds it.
use kave.Base.{
  ℕ, suc, ◌+◌, ◌<◌, true, false, Option, some, List, [], ◌∷◌, ◌++◌, ◌≡◌, refl, ◌∙◌, ap, arith,
  length, drop, drop-add, drop-append_add, drop-append_length, leb, if◌then◌else◌, append_assoc,
}
use kave.Base.Bytes.{Bytes}
use kave.Base.Decimal.{to_string}
use kave.Base.Text.{is_utf8, utf8_from}
use kave.Base.Words.{u64_mod}
use kave.Error.{Result, ok}
use kave.Proto.{
  ProtoOp, get, set, echo, Op, op_get, op_set, op_echo, read_key_len, read_key, read_echo,
  read_value_len, read_value, done, ReadEvent, Reader, Proto,
}
use kave.Proto.Loops.{LenRead, read_len, read_bytes}
use kave.Proto.Loops.Laws.{read_bytes-append, read_len-to_string}
use kave.Proto.Machine.{
  again, return, is_echo, after_key_len, on_read_key_len, on_read_echo, after_key, on_read_key,
  after_value_len, on_read_value_len, on_read_value, result_of, on_done, handle, round, run,
  left_of,
}

-- An argument behind its length.
abbrev pub field : Bytes → Bytes
field s = b':' ∷ (to_string (length s) ++ b':' ∷ s)

-- The reader behind the first four bytes of a request.
abbrev pub tagged : Op → Bytes → ℕ → List ReadEvent → Bytes → Reader
tagged op buf ptr input residual = record {
  buf = buf;
  fresh = false;
  input = input;
  state = read_key_len;
  op = op;
  between_colons = false;
  needs_read = false;
  ptr = ptr;
  key_len_buf = [];
  key_len = 0;
  key = [];
  echoed = [];
  value_len_buf = [];
  value_len = 0;
  value = [];
  residual = residual;
}

pub field-append :
    (s tail : Bytes) → field s ++ tail ≡ b':' ∷ (to_string (length s) ++ b':' ∷ (s ++ tail))
field-append s tail = ap (◌∷◌ b':') (append_assoc (to_string (length s)) (b':' ∷ s) tail)

-- Where a field begins in a buffer, its bytes begin behind its length.
drop-field :
    (s tail buf : Bytes) (ptr : ℕ)
    → drop ptr buf ≡ field s ++ tail
    → drop (ptr + length (to_string (length s)) + 2) buf ≡ s ++ tail
drop-field s tail buf ptr h =
    let ds = to_string (length s) in
    let count : ptr + length ds + 2 ≡ ptr + suc (length ds + 1) = omega arith in
    rw (count, drop-add ptr (suc (length ds + 1)) buf, h, append_assoc ds (b':' ∷ s) tail)
      (drop-append_add ds (b':' ∷ (s ++ tail)) 1)

-- A round that goes on.
pub run-again : (n : ℕ) (r r' : Reader) → round r ≡ again r' → run (suc n) r ≡ run n r'
unfolding run
run-again n r r' h = rw (h, run)

-- A round that returns.
pub run-return :
    (n : ℕ) (r r' : Reader) (x : Result ProtoOp)
    → round r ≡ return x r'
    → run (suc n) r ≡ some (x, r')
unfolding run
run-return n r r' x h = rw (h, run)

on_done-text : (r : Reader) → is_utf8 r.key ≡ true → on_done r ≡ return (ok (result_of r.op r)) r
unfolding on_done
on_done-text r h = rw h

key_len-round :
    (op : Op) (s tail buf : Bytes) (ptr : ℕ) (input : List ReadEvent) (residual : Bytes)
    → drop ptr buf ≡ field s ++ tail
    → length s < u64_mod
    → round (tagged op buf ptr input residual)
      ≡ again (record (tagged op buf ptr input residual) {
        ptr = ptr + length (to_string (length s)) + 2;
        key_len = length s;
        state = if is_echo op then read_echo else read_key;
      })
unfolding round handle on_read_key_len after_key_len
key_len-round op s tail buf ptr input residual h fits =
    ap (λ (x : LenRead). after_key_len x (tagged op buf ptr input residual))
      (ap (λ (bytes : Bytes). read_len bytes ptr false []) (h ∙ field-append s tail)
        ∙ read_len-to_string (length s) (s ++ tail) ptr fits)

-- Reading the bytes that are wanted, out of a buffer that holds them.
read_bytes-field :
    (s tail buf : Bytes) (ptr : ℕ)
    → drop ptr buf ≡ s ++ tail
    → read_bytes (drop ptr buf) ptr [] (length s) ≡ (ptr + length s, s)
read_bytes-field s tail buf ptr h = rw h (read_bytes-append s tail ptr [] (length s) (omega arith))

whole : (s : Bytes) → leb (length s) (length s) ≡ true
whole s = ground arith

module _ (buf : Bytes) (input : List ReadEvent) (residual : Bytes) where
  -- The reader in front of the bytes of the key, and behind them.
  abbrev keyed : Op → ℕ → ℕ → Reader
  keyed op ptr n = record (tagged op buf ptr input residual) { key_len = n; state = read_key }

  key-round :
      (op : Op) (k tail : Bytes) (ptr : ℕ)
      → drop ptr buf ≡ k ++ tail
      → round (keyed op ptr (length k))
        ≡ after_key op (record (keyed op (ptr + length k) (length k)) { key = k })
  unfolding round handle on_read_key
  key-round op k tail ptr h = rw (read_bytes-field k tail buf ptr h, whole k)

  echo-round :
      (msg tail : Bytes) (ptr : ℕ)
      → drop ptr buf ≡ msg ++ tail
      → round (record (keyed op_echo ptr (length msg)) { state = read_echo })
        ≡ again
            (record (keyed op_echo (ptr + length msg) (length msg)) { state = done; echoed = msg })
  unfolding round handle on_read_echo
  echo-round msg tail ptr h = rw (read_bytes-field msg tail buf ptr h, whole msg)

  -- The reader behind the key of a `SET`.
  abbrev valued : Bytes → ℕ → Reader
  valued k ptr = record (keyed op_set ptr (length k)) { key = k; state = read_value_len }

  value_len-round :
      (k v tail : Bytes) (ptr : ℕ)
      → drop ptr buf ≡ field v ++ tail
      → length v < u64_mod
      → round (valued k ptr)
        ≡ again (record (valued k (ptr + length (to_string (length v)) + 2)) {
          value_len = length v;
          state = read_value;
        })
  unfolding round handle on_read_value_len after_value_len
  value_len-round k v tail ptr h fits =
      ap (λ (x : LenRead). after_value_len x (valued k ptr))
        (ap (λ (bytes : Bytes). read_len bytes ptr false []) (h ∙ field-append v tail)
          ∙ read_len-to_string (length v) (v ++ tail) ptr fits)

  value-round :
      (k v tail : Bytes) (ptr : ℕ)
      → drop ptr buf ≡ v ++ tail
      → round (record (valued k ptr) { value_len = length v; state = read_value })
        ≡ again
            (record (valued k (ptr + length v)) { value_len = length v; value = v; state = done })
  unfolding round handle on_read_value
  value-round k v tail ptr h = rw (read_bytes-field v tail buf ptr h, whole v)

  -- What a call leaves behind a request that it read.
  abbrev pub outcome : ProtoOp → Option (Result ProtoOp × Proto × List ReadEvent)
  outcome op = some (ok op, record { buf = buf; fresh = false }, input)

  pub run-get :
      (k tail : Bytes) (ptr : ℕ)
      → drop ptr buf ≡ field k ++ tail
      → is_utf8 k ≡ true
      → length k < u64_mod
      → left_of (run 3 (tagged op_get buf ptr input residual)) ≡ outcome (get k)
  unfolding is_echo after_key left_of
  run-get k tail ptr h text fits =
      let p = ptr + length (to_string (length k)) + 2 in
      let last = record (keyed op_get (p + length k) (length k)) { key = k; state = done } in
      let returned : round last ≡ return (ok (get k)) last =
        unfold round handle result_of in on_done-text last text in
      ap left_of (
        run-again 2 (tagged op_get buf ptr input residual) (keyed op_get p (length k))
          (key_len-round op_get k tail buf ptr input residual h fits)
        ∙ run-again 1 (keyed op_get p (length k)) _
            (key-round op_get k tail p (drop-field k tail buf ptr h))
        ∙ run-return 0 last last (ok (get k)) returned)

  pub run-echo :
      (msg tail : Bytes) (ptr : ℕ)
      → drop ptr buf ≡ field msg ++ tail
      → length msg < u64_mod
      → left_of (run 3 (tagged op_echo buf ptr input residual)) ≡ outcome (echo msg)
  unfolding is_echo
  run-echo msg tail ptr h fits =
      let p = ptr + length (to_string (length msg)) + 2 in
      ap left_of (
        run-again 2 (tagged op_echo buf ptr input residual)
          (record (keyed op_echo p (length msg)) { state = read_echo })
          (key_len-round op_echo msg tail buf ptr input residual h fits)
        ∙ run-again 1 (record (keyed op_echo p (length msg)) { state = read_echo }) _
            (echo-round msg tail p (drop-field msg tail buf ptr h)))
      ∙ (unfold left_of run round handle on_done result_of is_utf8 utf8_from in refl)

  pub run-set :
      (k v tail : Bytes) (ptr : ℕ)
      → drop ptr buf ≡ field k ++ (field v ++ tail)
      → is_utf8 k ≡ true
      → length k < u64_mod
      → length v < u64_mod
      → left_of (run 5 (tagged op_set buf ptr input residual)) ≡ outcome (set k v)
  unfolding is_echo after_key left_of
  run-set k v tail ptr h text k_fits v_fits =
      let p = ptr + length (to_string (length k)) + 2 in
      let at_key = drop-field k (field v ++ tail) buf ptr h in
      let at_value : drop (p + length k) buf ≡ field v ++ tail =
        drop-add p (length k) buf
        ∙ ap (drop (length k)) at_key
        ∙ drop-append_length k (field v ++ tail) in
      let q = p + length k + length (to_string (length v)) + 2 in
      let last = record (valued k (q + length v)) {
        value_len = length v;
        value = v;
        state = done;
      } in
      let returned : round last ≡ return (ok (set k v)) last =
        unfold round handle result_of in on_done-text last text in
      ap left_of (
        run-again 4 (tagged op_set buf ptr input residual) (keyed op_set p (length k))
          (key_len-round op_set k (field v ++ tail) buf ptr input residual h k_fits)
        ∙ run-again 3 (keyed op_set p (length k)) (valued k (p + length k))
            (key-round op_set k (field v ++ tail) p at_key)
        ∙ run-again 2 (valued k (p + length k)) _
            (value_len-round k v tail (p + length k) at_value v_fits)
        ∙ run-again 1 (record (valued k q) { value_len = length v; state = read_value }) _
            (value-round k v tail q (drop-field v tail buf (p + length k) at_value))
        ∙ run-return 0 last last (ok (set k v)) returned)
