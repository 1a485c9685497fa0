-- ===== src/Crypto.antt =====
-- crypto.rs. `ring` and `base64` are parameters.
pub mod Laws
use kave.Base.{
  ℕ, ◌<◌, ◌≤◌, ◌+◌, Bool, true, false, Option, none, some, ◌≡◌, length, take, if◌then◌else◌,
}
use kave.Base.Bytes.{Bytes, beq}
use kave.Base.Text.{is_utf8}
use kave.Config.{Config}
use kave.Error.{Error, Result, ok, err, panic, pending, e, plain, ◌>>=◌, ◌▷◌}

-- `OneNonceSequence`, over the type of `ring::aead::Nonce`.
pub record OneNonceSequence (N : Type 0) : Type 0 where
  pub inner : Option N

-- `OneNonceSequence::new`
unfoldable pub new : {N : Type 0} → N → OneNonceSequence N
new inner = record { inner = some inner }

-- `OneNonceSequence::advance`; `none` is `Unspecified`.
unfoldable pub advance : {N : Type 0} → OneNonceSequence N → Option N × OneNonceSequence N
advance s = (s.inner, record { inner = none })

-- What the code calls of `ring` and `base64`, over the state `R` of the system's random generator,
-- and the types of nonces and keys; `none` is an error. `seal_in_place` and `open_in_place` take the
-- `advance` of the nonce sequence that the key was made with.
pub record Libraries (R N K : Type 0) : Type 0 where
  pub fill : ℕ → R → Option Bytes × R
  pub pbkdf2 : ℕ → Bytes → Bytes → Bytes
  pub digest : Bytes → Bytes
  pub hmac_sign : Bytes → Bytes → Bytes
  pub hmac_verify : Bytes → Bytes → Bytes → Bool
  pub try_assume_unique_for_key : Bytes → Option N
  pub unbound_key : Bytes → Option K
  pub seal_in_place :
      K
      → (OneNonceSequence N → Option N × OneNonceSequence N)
      → OneNonceSequence N
      → Bytes
      → Option Bytes × OneNonceSequence N
  pub open_in_place :
      K
      → (OneNonceSequence N → Option N × OneNonceSequence N)
      → OneNonceSequence N
      → Bytes
      → Option Bytes × OneNonceSequence N
  pub encode : Bytes → Bytes
  pub decode : Bytes → Option Bytes

-- `map_err` to a text.
unfoldable pub or_else : {A : Type 0} → Error → Option A → Result A
or_else x none = err x
or_else x (some a) = ok a

-- `map_err(|_| …)` on a result.
unfoldable pub map_err : {A : Type 0} → Error → Result A → Result A
map_err x (ok a) = ok a
map_err x (err y) = err x
map_err x panic = panic
map_err x pending = pending

pub record Enc : Type 0 where
  pub value : Bytes
  pub nonce : Bytes
  pub salt : Bytes

module _ {R N K : Type 0} (lib : Libraries R N K) where
  unfoldable pub rand_bytes : ℕ → R → Result Bytes × R
  unfolding or_else
  rand_bytes n r =
      let (buf, left) = lib.fill n r in (or_else (e (plain "Error getting random bytes")) buf, left)

  unfoldable pub new_pw_salt : R → Result Bytes × R
  unfolding rand_bytes
  new_pw_salt r = rand_bytes 128 r

  unfoldable pub new_gcm_nonce : R → Result Bytes × R
  unfolding rand_bytes
  new_gcm_nonce r = rand_bytes 12 r

  unfoldable pub derive_password_hash : Bytes → Bytes → Bytes
  derive_password_hash pw salt = lib.pbkdf2 100_000 salt pw

  unfoldable pub hmac_sign_with_key : Bytes → Bytes → Bytes
  hmac_sign_with_key s key = lib.encode (lib.hmac_sign key s)

  unfoldable pub hmac_sign : Config → Bytes → Bytes
  unfolding hmac_sign_with_key
  hmac_sign config s = hmac_sign_with_key s config.signing_key

  -- The signature, if it was decoded.
  unfoldable pub verify_decoded : Bytes → Option Bytes → Bytes → Bool
  verify_decoded text none key = false
  verify_decoded text (some sig) key = lib.hmac_verify key text sig

  unfoldable pub hmac_verify_with_key : Bytes → Bytes → Bytes → Bool
  unfolding verify_decoded
  hmac_verify_with_key text sig key = verify_decoded text (lib.decode sig) key

  unfoldable pub hmac_verify : Config → Bytes → Bytes → Bool
  unfolding hmac_verify_with_key
  hmac_verify config text sig = hmac_verify_with_key text sig config.signing_key

  unfoldable pub hash : Bytes → Bytes
  hash bytes = lib.digest bytes

  -- The key of the cipher: the first 32 bytes of the stretched password.
  unfoldable pub stretched_key : Error → Bytes → Bytes → Result K
  unfolding or_else derive_password_hash
  stretched_key x pass salt = or_else x (lib.unbound_key (take 32 (derive_password_hash pass salt)))

  unfoldable pub encrypt_bytes : Bytes → Bytes → Bytes → Bytes → Result Bytes
  unfolding new advance stretched_key
  encrypt_bytes bytes nonce pass salt = do
    unique ← or_else (e (plain "Encryption nonce not unique")) (lib.try_assume_unique_for_key nonce)
    key ← stretched_key (e (plain "Error building sealing key")) pass salt
    or_else (e (plain "Failed encrypting bytes"))
        (lib.seal_in_place key advance (new unique) bytes).0

  unfoldable pub decrypt_bytes : Bytes → Bytes → Bytes → Bytes → Result Bytes
  unfolding new advance stretched_key
  decrypt_bytes bytes nonce pass salt = do
    unique ← or_else (e (plain "Decryption nonce not unique")) (lib.try_assume_unique_for_key nonce)
    key ← stretched_key (e (plain "Error build opening key")) pass salt
    or_else (e (plain "Failed decrypting bytes"))
        (lib.open_in_place key advance (new unique) bytes).0

  -- What `encrypt_with_key` makes of the nonce and the salt that were drawn.
  unfoldable pub encrypt_drawn : Bytes → Bytes → Bytes → Bytes → Result Enc
  unfolding encrypt_bytes map_err
  encrypt_drawn s key nonce salt = do
    b ← map_err (e (plain "encryption error")) (encrypt_bytes s nonce key salt)
    ok (record { value = lib.encode b; nonce = lib.encode nonce; salt = lib.encode salt })

  unfoldable pub encrypt_with_key : Bytes → Bytes → R → Result Enc × R
  unfolding encrypt_drawn new_gcm_nonce new_pw_salt
  encrypt_with_key s key r =
      let (nonce, r1) = new_gcm_nonce r in
      (map_err (e (plain "error generating nonce")) nonce, r1) ▷ λ n s1.
      let (salt, r2) = new_pw_salt s1 in
      (map_err (e (plain "error generating salt")) salt, r2) ▷ λ m s2. (encrypt_drawn s key n m, s2)

  unfoldable pub encrypt : Config → Bytes → R → Result Enc × R
  unfolding encrypt_with_key
  encrypt config s r = encrypt_with_key s config.encryption_key r

  unfoldable pub decrypt_with_key : Enc → Bytes → Result Bytes
  unfolding decrypt_bytes
  decrypt_with_key enc key = do
    nonce ← or_else (e (plain "nonce base64 decode error")) (lib.decode enc.nonce)
    salt ← or_else (e (plain "salt base64 decode error")) (lib.decode enc.salt)
    value ← or_else (e (plain "value base64 decode error")) (lib.decode enc.value)
    bytes ← map_err (e (plain "encryption error")) (decrypt_bytes value nonce key salt)
    if is_utf8 bytes then ok bytes else err (e (plain "error decrypting bytes"))

  unfoldable pub decrypt : Config → Enc → Result Bytes
  unfolding decrypt_with_key
  decrypt config enc = decrypt_with_key enc config.encryption_key
