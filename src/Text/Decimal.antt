-- ===== src/Text/Decimal.antt =====
-- Decimal numbers as big.Int reads them with SetString(s, 10): a sign or none, and then digits only.
use multivendor_hsm_pki.Prelude.{
  ℕ, zero, suc, ◌+◌, ◌-◌, ◌*◌, String, Option, none, some, List, [], ◌∷◌, ◌&&◌, nat_beq, leb, ℤ,
  pos, negsuc, if◌then◌else◌,
}
use multivendor_hsm_pki.Text.{codes}

unfoldable pub digits_from : ℕ → List ℕ → Option ℕ
digits_from acc [] = some acc
digits_from acc (c ∷ cs) =
    let rest = digits_from (acc * 10 + (c - b'0')) cs in
    if leb b'0' c && leb c b'9' then rest else none

unfoldable pub digits : List ℕ → Option ℕ
digits [] = none
digits (c ∷ cs) = digits_from 0 (c ∷ cs)

abbrev pub negated : ℕ → ℤ
negated zero = pos 0
negated (suc n) = negsuc n

abbrev pub as_positive : Option ℕ → Option ℤ
as_positive none = none
as_positive (some n) = some (pos n)

abbrev pub as_negative : Option ℕ → Option ℤ
as_negative none = none
as_negative (some n) = some (negated n)

unfoldable pub signed : List ℕ → Option ℤ
signed [] = none
signed (c ∷ cs) =
    if nat_beq c b'-'
    then as_negative (digits cs)
    else if nat_beq c b'+'
    then as_positive (digits cs)
    else as_positive (digits (c ∷ cs))

-- new(big.Int).SetString(s, 10)
unfoldable pub parse_decimal : String → Option ℤ
parse_decimal s = signed (codes s)
