-- ===== src/Tests/Ciphers.antt =====
-- The theorems on crypto.rs, over a library that encrypts nothing.
use kave.Base.{ℕ, zero, suc, Option, none, some, [], ◌∷◌, ◌++◌, ◌≡◌, refl, arith, length, ap}
use kave.Base.Bytes.{Bytes, beq}
use kave.Base.Text.{is_utf8, utf8_from}
use kave.Crypto.{OneNonceSequence, Libraries, Enc, encrypt_with_key, decrypt_with_key}
use kave.Crypto.Laws.{IsRing, encrypt-decrypt}
use kave.Error.{ok}
use kave.Tests.World.{key_a, key_b}

abbrev zeros : ℕ → Bytes
zeros zero = []
zeros (suc n) = 0 ∷ zeros n

length-zeros : (n : ℕ) → length (zeros n) ≡ n
length-zeros zero = refl
length-zeros (suc n) = ap suc (length-zeros n)

abbrev with_nonce : Option Bytes → Bytes → Option Bytes
with_nonce none bytes = none
with_nonce (some n) bytes = some bytes

abbrev plain_cipher :
    Bytes
    → (OneNonceSequence Bytes → Option Bytes × OneNonceSequence Bytes)
    → OneNonceSequence Bytes
    → Bytes
    → Option Bytes × OneNonceSequence Bytes
plain_cipher k adv seq bytes = (with_nonce (adv seq).0 bytes, (adv seq).1)

abbrev plain_library : Libraries (Unit {0}) Bytes Bytes
plain_library = record {
  fill = λ n r. (some (zeros n), r);
  pbkdf2 = λ n salt pw. zeros 64;
  digest = λ bytes. zeros 32;
  hmac_sign = λ key text. key ++ text;
  hmac_verify = λ key text tag. beq tag (key ++ text);
  try_assume_unique_for_key = λ bs. some bs;
  unbound_key = λ bs. some bs;
  seal_in_place = plain_cipher;
  open_in_place = plain_cipher;
  encode = λ bytes. bytes;
  decode = λ bytes. some bytes;
}

abbrev plain_laws : IsRing plain_library
plain_laws = record {
  pbkdf2_length = λ n salt pw. refl;
  nonce_ok = λ bs h. (bs, refl);
  key_ok = λ bs h. (bs, refl);
  limit = 1000;
  sealed = λ k n bytes. bytes;
  seal_ok = λ k adv seq n bytes h short. rw h refl;
  open_ok = λ k adv seq n bytes h short. rw h refl;
  verify_lem = λ key text tag. refl;
}

encrypt-decrypt_example :
    (enc : Enc) × ((encrypt_with_key plain_library key_a key_b tt).0 ≡ ok enc)
    × (decrypt_with_key plain_library enc key_b ≡ ok key_a)
encrypt-decrypt_example =
    encrypt-decrypt plain_library plain_laws key_a key_b tt (λ bytes. refl)
      (λ n r. (zeros n, refl, length-zeros n)) (unfold is_utf8 utf8_from in refl) (omega arith)
