-- ===== src/Crypto/Laws.antt =====
-- The theorems on crypto.rs, where `ring` and `base64` keep what they document.
use kave.Base.{
  length-take, ℕ, ◌≤◌, true, Option, none, some, ◌≡◌, refl, sym, ap, ◌∙◌, ◌↔◌, arith, length, take,
}
use kave.Base.Bytes.{Bytes, beq, beq_iff}
use kave.Base.Text.{is_utf8}
use kave.Crypto.{
  OneNonceSequence, new, advance, Libraries, or_else, map_err, Enc, rand_bytes, new_pw_salt,
  new_gcm_nonce, derive_password_hash, verify_decoded, hmac_verify_with_key, stretched_key,
  encrypt_bytes, decrypt_bytes, encrypt_drawn, encrypt_with_key, decrypt_with_key,
}
use kave.Error.{Error, ok}

-- A nonce has twelve bytes, a key 32, and a derived password fills its 64. A cipher takes one nonce
-- of its sequence, seals texts up to a limit, and opens what it sealed with the same nonce. A
-- signature is verified by making it again.
pub record IsRing {R N K : Type 0} (lib : Libraries R N K) : Type 0 where
  pub pbkdf2_length : (n : ℕ) (salt pw : Bytes) → length (lib.pbkdf2 n salt pw) ≡ 64
  pub nonce_ok :
      (bs : Bytes) → length bs ≡ 12 → (n : N) × (lib.try_assume_unique_for_key bs ≡ some n)
  pub key_ok : (bs : Bytes) → length bs ≡ 32 → (k : K) × (lib.unbound_key bs ≡ some k)
  pub limit : ℕ
  pub sealed : K → N → Bytes → Bytes
  pub seal_ok :
      (k : K) (adv : OneNonceSequence N → Option N × OneNonceSequence N) (seq : OneNonceSequence N)
      (n : N) (bytes : Bytes)
      → (adv seq).0 ≡ some n
      → length bytes ≤ limit
      → (lib.seal_in_place k adv seq bytes).0 ≡ some (sealed k n bytes)
  pub open_ok :
      (k : K) (adv : OneNonceSequence N → Option N × OneNonceSequence N) (seq : OneNonceSequence N)
      (n : N) (bytes : Bytes)
      → (adv seq).0 ≡ some n
      → length bytes ≤ limit
      → (lib.open_in_place k adv seq (sealed k n bytes)).0 ≡ some bytes
  pub verify_lem :
      (key text tag : Bytes) → lib.hmac_verify key text tag ≡ beq tag (lib.hmac_sign key text)

-- `base64::decode` reads back what `encode` wrote.
abbrev pub IsBase64 : {R N K : Type 0} → Libraries R N K → Type 0
IsBase64 lib = (bytes : Bytes) → lib.decode (lib.encode bytes) ≡ some bytes

-- The system's generator has bytes to give.
abbrev pub IsRandom : {R N K : Type 0} → Libraries R N K → Type 0
IsRandom {R} lib = (n : ℕ) (r : R) → (bs : Bytes) × ((lib.fill n r).0 ≡ some bs) × (length bs ≡ n)

module _ {R N K : Type 0} (lib : Libraries R N K) (laws : IsRing lib) where
  verify_decoded-sign :
      (text : Bytes) (x : Option Bytes) (key : Bytes)
      → (verify_decoded lib text x key ≡ true) ↔ (x ≡ some (lib.hmac_sign key text))
  unfolding verify_decoded
  verify_decoded-sign text none key = (λ h. cc h, λ h. cc h)
  verify_decoded-sign text (some tag) key =
      let same = laws.verify_lem key text tag in
      let exact = beq_iff tag (lib.hmac_sign key text) in
      (λ h. ap some (exact.0 (sym same ∙ h)), λ h. same ∙ exact.1 (cc h))

  -- `hmac_verify_with_key` accepts a signature exactly if base64 decodes it to the HMAC of the text
  -- with the key. ring keeps its laws.
  pub hmac_verify-sign :
      (text sig key : Bytes)
      → (hmac_verify_with_key lib text sig key ≡ true)
        ↔ (lib.decode sig ≡ some (lib.hmac_sign key text))
  unfolding hmac_verify_with_key
  hmac_verify-sign text sig key = verify_decoded-sign text (lib.decode sig) key

  stretched_key-ok :
      (pass salt : Bytes) → (k : K) × ((x : Error) → stretched_key lib x pass salt ≡ ok k)
  unfolding stretched_key derive_password_hash
  stretched_key-ok pass salt =
      let size = laws.pbkdf2_length 100_000 salt pass in
      let stretched = lib.pbkdf2 100_000 salt pass in
      let (k, made) =
        laws.key_ok (take 32 stretched) (length-take 32 stretched (omega (arith, size))) in
      (k, λ x. rw (made, or_else) refl)

  -- Both directions, with a nonce of twelve bytes.
  bytes_round :
      (s nonce pass salt : Bytes)
      → length nonce ≡ 12
      → length s ≤ laws.limit
      → (ct : Bytes) × (encrypt_bytes lib s nonce pass salt ≡ ok ct)
        × (decrypt_bytes lib ct nonce pass salt ≡ ok s)
  unfolding encrypt_bytes decrypt_bytes
  bytes_round s nonce pass salt twelve short =
      let (n, unique) = laws.nonce_ok nonce twelve in
      let (k, built) = stretched_key-ok pass salt in
      let first : (advance (new n)).0 ≡ some n = unfold advance new in refl in
      (
        laws.sealed k n s,
        rw (unique, or_else, built, laws.seal_ok k advance (new n) n s first short) refl,
        rw (unique, or_else, built, laws.open_ok k advance (new n) n s first short) refl,
      )

  -- Whatever nonce and salt were drawn.
  drawn_round :
      (s key nonce salt : Bytes)
      → IsBase64 lib
      → is_utf8 s ≡ true
      → length nonce ≡ 12
      → length s ≤ laws.limit
      → (enc : Enc) × (encrypt_drawn lib s key nonce salt ≡ ok enc)
        × (decrypt_with_key lib enc key ≡ ok s)
  unfolding encrypt_drawn decrypt_with_key
  drawn_round s key nonce salt decodes text twelve short =
      let (ct, sealing, opening) = bytes_round s nonce key salt twelve short in
      (
        record { value = lib.encode ct; nonce = lib.encode nonce; salt = lib.encode salt },
        rw (sealing, map_err) refl,
        rw (decodes nonce, or_else, decodes salt, decodes ct, opening, map_err, text) refl,
      )

  drawn-ok :
      (n : ℕ) (r : R)
      → IsRandom lib
      → (bs : Bytes) × ((rand_bytes lib n r).0 ≡ ok bs) × (length bs ≡ n)
  unfolding rand_bytes
  drawn-ok n r random = let (bs, filled, size) = random n r in (bs, rw (filled, or_else) refl, size)

  -- `encrypt_with_key` of a text in UTF-8, not longer than the cipher's limit, returns `Ok`, and
  -- `decrypt_with_key` of it with the same key returns the text. The random generator has bytes to
  -- give, and ring and base64 keep their laws.
  pub encrypt-decrypt :
      (s key : Bytes) (r : R)
      → IsBase64 lib
      → IsRandom lib
      → is_utf8 s ≡ true
      → length s ≤ laws.limit
      → (enc : Enc) × ((encrypt_with_key lib s key r).0 ≡ ok enc)
        × (decrypt_with_key lib enc key ≡ ok s)
  unfolding encrypt_with_key new_gcm_nonce new_pw_salt
  encrypt-decrypt s key r decodes random text short =
      let (nonce, nonce_drawn, twelve) = drawn-ok 12 r random in
      let (salt, salt_drawn, size) = drawn-ok 128 (rand_bytes lib 12 r).1 random in
      let (enc, made, read) = drawn_round s key nonce salt decodes text twelve short in
      (enc, rw (nonce_drawn, map_err, salt_drawn, made) refl, read)
