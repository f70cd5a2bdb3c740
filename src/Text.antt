-- ===== src/Text.antt =====
-- What the code asks of strings/unicode: code points, and the test for a text of spaces only.
pub mod Regex
pub mod Decimal
use Prim.Native.Char.{code}
use multivendor_hsm_pki.Prelude.{
  ℕ, ◌≡◌, refl, Bool, true, false, ◌||◌, ◌&&◌, String, List, [], ◌∷◌, nat_beq, leb, if◌then◌else◌,
}

-- The code points of a text.
abbrev pub codes : String → List ℕ
codes String.[] = []
codes (String.◌∷◌ first rest) = code first ∷ codes rest

-- unicode.IsSpace
unfoldable pub is_space : ℕ → Bool
is_space c =
    (leb 9 c && leb c 13)
    || (nat_beq c 0x20
        || (nat_beq c 0x85
            || (nat_beq c 0xa0
                || (nat_beq c 0x1680
                    || ((leb 0x2000 c && leb c 0x200a)
                        || (nat_beq c 0x2028
                            || (nat_beq c 0x2029
                                || (nat_beq c 0x202f
                                    || (nat_beq c 0x205f || nat_beq c 0x3000)))))))))

all_space : List ℕ → Bool
all_space [] = true
all_space (c ∷ cs) = is_space c && all_space cs

-- strings.TrimSpace(s) == ""
unfoldable pub is_blank : String → Bool
unfolding is_space all_space
is_blank s = all_space (codes s)

blank_examples : (is_blank "" ≡ true) × (is_blank " \t\n" ≡ true) × (is_blank " a " ≡ false)
unfolding is_blank
blank_examples = (refl, refl, refl)
