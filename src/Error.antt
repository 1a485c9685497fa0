-- ===== src/Error.antt =====
-- error.rs, and the outcome of an operation.
use Prim.Native.String.{String}
use mathlib.Core.Path.{◌≡◌, refl}
use kave.Base.Bytes.{Bytes}

-- The texts that the code formats into `Error::E`, a constructor for each place.
pub data Message : Type 0 where
  file_exists : Bytes → Message
  session : String → Message
  short_operation : Bytes → Message
  unknown_operation : Bytes → Message
  expected_colon : Bytes → Message
  invalid_utf8 : String → Message
  invalid_log_format : Bytes → Message
  plain : String → Message

-- `std::io::ErrorKind`, as far as the code tells its values apart.
pub data ErrorKind : Type 0 where
  unexpected_eof other : ErrorKind

pub data Error : Type 0 where
  e : Message → Error
  io : ErrorKind → Error
  parse_int_error bincode_error timeout_error dns_resolve_error : Error
  dns_resolution_failure : Bytes → Error

-- What a call comes to: `Ok`, `Err`, a panic (`unwrap`, `expect`, `assert!`, a library's own), or
-- that it has not returned: it waits for input, or its fuel ran out.
pub data Result {ℓ} (A : Type ℓ) : Type ℓ where
  ok : A → Result A
  err : Error → Result A
  panic : Result A
  pending : Result A

infixl 5 ◌>>=◌ ◌>>◌
abbrev pub ◌>>=◌ {ℓ κ} : {A : Type ℓ} {B : Type κ} → Result A → (A → Result B) → Result B
ok a >>= f = f a
err x >>= f = err x
panic >>= f = panic
pending >>= f = pending

abbrev pub ◌>>◌ {ℓ κ} : {A : Type ℓ} {B : Type κ} → Result A → Result B → Result B
m >> n = m >>= λ _. n

-- From a chain that returned `Ok`, to what follows from both of its calls.
pub from_chain {ℓ κ μ} :
    {A : Type ℓ} {B : Type κ} {Goal : Type μ} {result : B} (next : A → Result B) (first : Result A)
    → ((a : A) → first ≡ ok a → next a ≡ ok result → Goal)
    → first >>= next ≡ ok result
    → Goal
from_chain next (ok a) both h = both a refl h
from_chain next (err x) both h = cc h
from_chain next panic both h = cc h
from_chain next pending both h = cc h

-- A call that returned its outcome and a state, then `?` (or what stands for it) and what follows.
infixl 5 ◌▷◌
abbrev pub ◌▷◌ {ℓ κ μ} :
    {A : Type ℓ} {B : Type κ} {S : Type μ} → Result A × S → (A → S → Result B × S) → Result B × S
(ok a, s) ▷ f = f a s
(err x, s) ▷ f = (err x, s)
(panic, s) ▷ f = (panic, s)
(pending, s) ▷ f = (pending, s)

pub ▷_ok {ℓ κ μ} :
    {A : Type ℓ} {B : Type κ} {S : Type μ} (r : Result A × S) (f : A → S → Result B × S) {a : A}
    → r.0 ≡ ok a
    → (r ▷ f) ≡ f a r.1
▷_ok (ok x, s) f h = cc h
▷_ok (err x, s) f h = cc
▷_ok (panic, s) f h = cc
▷_ok (pending, s) f h = cc

-- An error ends the chain, with the state that it left.
pub ▷_err {ℓ κ μ} :
    {A : Type ℓ} {B : Type κ} {S : Type μ} (r : Result A × S) (f : A → S → Result B × S) {x : Error}
    → r.0 ≡ err x
    → (r ▷ f) ≡ (err x, r.1)
▷_err (ok a, s) f h = cc
▷_err (err x, s) f h = cc h
▷_err (panic, s) f h = cc
▷_err (pending, s) f h = cc
