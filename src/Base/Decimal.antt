-- ===== src/Base/Decimal.antt =====
-- `to_string` of an unsigned number: its decimal digits, as bytes.
pub mod RoundTrip
use kave.Base.{ℕ, zero, suc, ◌+◌, ◌/◌, ◌%◌, [], ◌∷◌, ltb, if◌then◌else◌}
use kave.Base.Bytes.{Bytes}

-- The digits of `n` in front of `rest`; the fuel is at least the number of digits.
unfoldable pub digits_onto : ℕ → ℕ → Bytes → Bytes
digits_onto zero n rest = rest
digits_onto (suc fuel) n rest =
    let more = digits_onto fuel (n / 10) ((48 + n % 10) ∷ rest) in
    if ltb n 10 then (48 + n) ∷ rest else more

unfoldable pub to_string : ℕ → Bytes
unfolding digits_onto
to_string n = digits_onto (suc n) n []
