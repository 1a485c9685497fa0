-- ===== src/Proto/Machine/RoundTrip.antt =====
-- `read` of proto.rs on the requests of its documentation, each of which comes in one read.
use Prim.Native.Nat.add
use kave.Base.{
  ℕ, zero, suc, ◌+◌, ◌*◌, ◌<◌, true, false, none, some, List, [], ◌∷◌, ◌++◌, ◌≡◌, refl, ◌∙◌, sym,
  ap, arith, length, take, drop, ltb, append_assoc,
}
use kave.Base.Bytes.{Bytes, beq}
use kave.Base.Text.{is_utf8}
use kave.Base.Words.{u64_mod}
use kave.Error.{Result, ok}
use kave.Proto.{
  ProtoOp, get, set, echo, sys_close, cancelled, Op, op_get, op_set, op_echo, read_op, ReadEvent,
  received, Reader, Proto, defaults,
}
use kave.Proto.Machine.{
  Round, again, return, get_tag, set_tag, echo_tag, on_start, on_tag, on_read_op, handle, fill,
  then_handle, round, run, left_of, fuel_for, read,
}
use kave.Proto.Machine.Requests.{
  field, tagged, run-again, run-return, outcome, run-get, run-set, run-echo,
}

-- The documented form of a request.
abbrev pub request : ProtoOp → Bytes
request (get k) = b'G' ∷ b'E' ∷ b'T' ∷ (field k ++ b'\n' ∷ [])
request (set k v) = b'S' ∷ b'E' ∷ b'T' ∷ (field k ++ (field v ++ b'\n' ∷ []))
request (echo msg) = b'E' ∷ b'C' ∷ b'H' ∷ b'O' ∷ (field msg ++ b'\n' ∷ [])
request sys_close = []
request cancelled = []

-- A request that a client can send: its key is UTF-8, and lengths fit a `usize`.
abbrev pub IsRequest : ProtoOp → Type 0
IsRequest (get k) = (is_utf8 k ≡ true) × (length k < u64_mod)
IsRequest (set k v) = (is_utf8 k ≡ true) × (length k < u64_mod) × (length v < u64_mod)
IsRequest (echo msg) = length msg < u64_mod
IsRequest sys_close = ⊥
IsRequest cancelled = ⊥

unfoldable pub tag_of : Op → Bytes
tag_of op_get = get_tag
tag_of op_set = set_tag
tag_of op_echo = echo_tag

unfoldable pub ptr_of : Op → ℕ
ptr_of op_get = 3
ptr_of op_set = 3
ptr_of op_echo = 4

-- The reader in front of a request.
abbrev pub opening : Bytes → ℕ → List ReadEvent → Bytes → Reader
opening buf ptr input residual = record (tagged op_get buf ptr input residual) { state = read_op }

on_tag-tag_of :
    (op : Op) (buf : Bytes) (ptr : ℕ) (input : List ReadEvent) (residual : Bytes)
    → on_tag (tag_of op) (opening buf ptr input residual)
      ≡ again (tagged op buf (ptr_of op) input residual)
unfolding on_tag tag_of ptr_of beq
on_tag-tag_of op_get buf ptr input residual = refl
on_tag-tag_of op_set buf ptr input residual = refl
on_tag-tag_of op_echo buf ptr input residual = refl

-- Wherever the four bytes stand, the reader goes on at a fixed place of the buffer.
pub tag-round :
    (op : Op) (buf : Bytes) (ptr : ℕ) (input : List ReadEvent) (residual : Bytes)
    → ltb (length buf) (ptr + 4) ≡ false
    → take 4 (drop ptr buf) ≡ tag_of op
    → handle read_op (opening buf ptr input residual)
      ≡ again (tagged op buf (ptr_of op) input residual)
unfolding handle on_read_op
tag-round op buf ptr input residual long here =
    rw (long, here) (on_tag-tag_of op buf ptr input residual)

-- More fuel does not change what a call leaves.
pub left_of-run_more :
    (n k : ℕ) (r : Reader) (y : Result ProtoOp × Proto × List ReadEvent)
    → left_of (run n r) ≡ some y
    → left_of (run (n + k) r) ≡ some y
left_of-run_more zero k r y h = let nothing : none ≡ some y = unfold run left_of in h in cc nothing
left_of-run_more (suc n) k r y h =
    rw (add.suc n k) (step (λ r'. left_of-run_more n k r' y) (round r) refl)
  where
    step :
        ((r' : Reader) → left_of (run n r') ≡ some y → left_of (run (n + k) r') ≡ some y)
        → (x : Round) → round r ≡ x
        → left_of (run (suc (n + k)) r) ≡ some y
    step more (again r') e =
        ap left_of (run-again (n + k) r r' e) ∙ more r' (sym (ap left_of (run-again n r r' e)) ∙ h)
    step more (return x r') e =
        ap left_of (run-return (n + k) r r' x e) ∙ sym (ap left_of (run-return n r r' x e)) ∙ h

module _ (input : List ReadEvent) (residual : Bytes) where
  -- Reading on behind the four bytes of a request at the front of the buffer.
  unfoldable pub op_of : ProtoOp → Op
  op_of (get k) = op_get
  op_of (set k v) = op_set
  op_of _ = op_echo

  pub run-tagged :
      (op : ProtoOp) (junk : Bytes)
      → IsRequest op
      → left_of (run 5 (tagged (op_of op) (request op ++ junk) (ptr_of (op_of op)) input residual))
        ≡ outcome (request op ++ junk) input residual op
  unfolding op_of ptr_of
  run-tagged (get k) junk h = left_of-run_more 3 2 _ _ (
      run-get (request (get k) ++ junk) input residual k (b'\n' ∷ junk) 3
        (append_assoc (field k) (b'\n' ∷ []) junk) h.0 h.1)
  run-tagged (set k v) junk h =
      run-set (request (set k v) ++ junk) input residual k v (b'\n' ∷ junk) 3
        (append_assoc (field k) (field v ++ b'\n' ∷ []) junk
          ∙ ap (λ (bytes : Bytes). field k ++ bytes) (append_assoc (field v) (b'\n' ∷ []) junk))
        h.0 h.1 h.2
  run-tagged (echo msg) junk h = left_of-run_more 3 2 _ _ (
      run-echo (request (echo msg) ++ junk) input residual msg (b'\n' ∷ junk) 4
        (append_assoc (field msg) (b'\n' ∷ []) junk) h)
  run-tagged sys_close junk h = absurd h
  run-tagged cancelled junk h = absurd h

  -- The four bytes are the operation's.
  pub take-request :
      (op : ProtoOp) (junk : Bytes)
      → IsRequest op
      → (take 4 (request op ++ junk) ≡ tag_of (op_of op))
        × (ltb (length (request op ++ junk)) 4 ≡ false)
  unfolding op_of tag_of
  take-request (get k) junk h = (refl, ground arith)
  take-request (set k v) junk h = (refl, ground arith)
  take-request (echo msg) junk h = (refl, ground arith)
  take-request sys_close junk h = absurd h
  take-request cancelled junk h = absurd h

abbrev pub used : Bytes → Proto
used buf = record { buf = buf; fresh = false }

-- From a request at the front of the buffer, to what the call leaves.
pub run-opening :
    (op : ProtoOp) (junk : Bytes) (input : List ReadEvent) (r : Reader)
    → IsRequest op
    → round r ≡ handle read_op (opening (request op ++ junk) 0 input [])
    → left_of (run 6 r) ≡ outcome (request op ++ junk) input [] op
run-opening op junk input r h e =
    let here = take-request input [] op junk h in
    ap left_of (
      run-again 5 r _
        (e ∙ tag-round (op_of input [] op) (request op ++ junk) 0 input [] here.1 here.0))
    ∙ run-tagged input [] op junk h

-- On a fresh `Proto`, where the first read begins with a request in its documented form, whose key
-- is UTF-8 and whose lengths fit, `read` returns that request, with the reads behind the first one
-- left and the buffer as that read filled it.
pub read-request :
    (op : ProtoOp) (before junk : Bytes) (input : List ReadEvent)
    → IsRequest op
    → read (record { buf = before; fresh = true }) (received (request op ++ junk) ∷ input)
      ≡ some (ok op, used (request op ++ junk), input)
unfolding read
read-request op before junk input h =
    let bytes = request op ++ junk in
    let first = defaults (record { buf = before; fresh = true }) (received bytes ∷ input) in
    let started : round first ≡ again (opening bytes 0 input []) =
      unfold round fill then_handle handle on_start defaults in refl in
    let fuel : fuel_for (received bytes ∷ input) ≡ 7 + (2 * length input + 5) = omega arith in
    rw fuel (
      left_of-run_more 7 (2 * length input + 5) first _ (
        ap left_of (run-again 6 first (opening bytes 0 input []) started)
        ∙ run-opening op junk input (opening bytes 0 input []) h (unfold round in refl)))
