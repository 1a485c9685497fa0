-- ===== src/Base/Bytes.antt =====
-- Byte strings: the contents of files and of streams, and (as UTF-8) Rust's `String` and file names.
-- `Ord` on `str` compares byte by byte.
use kave.Base.{
  ℕ, Bool, true, false, ◌&&◌, List, [], ◌∷◌, ◌≡◌, refl, ◌↔◌, arith, ltb, ◌==◌, if◌then◌else◌,
}

abbrev pub Bytes : Type 0
Bytes = List ℕ

unfoldable pub beq : Bytes → Bytes → Bool
beq [] [] = true
beq (x ∷ xs) (y ∷ ys) = x == y && beq xs ys
beq _ _ = false

unfoldable pub blt : Bytes → Bytes → Bool
blt [] [] = false
blt [] (y ∷ ys) = true
blt (x ∷ xs) [] = false
blt (x ∷ xs) (y ∷ ys) = if x == y then blt xs ys else ltb x y

pub beq_iff : (a b : Bytes) → (beq a b ≡ true) ↔ (a ≡ b)
unfolding beq
beq_iff (x ∷ a) (y ∷ b) = ground (arith, beq_iff a b)
beq_iff _ _ = ground arith

pub beq_refl : (a : Bytes) → beq a a ≡ true
beq_refl a = (beq_iff a a).1 refl

pub blt_irrefl : (a : Bytes) → blt a a ≡ false
unfolding blt
blt_irrefl [] = refl
blt_irrefl (x ∷ a) = ground (arith, blt_irrefl a)

pub blt_trans : (a b c : Bytes) → blt a b ≡ true → blt b c ≡ true → blt a c ≡ true
unfolding blt
blt_trans (x ∷ a) (y ∷ b) (z ∷ c) p q = ground (arith, blt_trans a b c)
blt_trans _ _ _ p q = ground arith

-- The order is total.
pub blt_total : (a b : Bytes) → beq a b ≡ false → blt a b ≡ false → blt b a ≡ true
unfolding blt beq
blt_total (x ∷ a) (y ∷ b) p q = ground (arith, blt_total a b)
blt_total _ _ p q = ground arith

pub blt_asymm : (a b : Bytes) → blt a b ≡ true → blt b a ≡ false
unfolding blt
blt_asymm (x ∷ a) (y ∷ b) p = ground (arith, blt_asymm a b)
blt_asymm _ _ p = ground arith
