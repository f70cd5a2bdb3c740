-- ===== src/Text/Regex.antt =====
-- Regular expressions over code points, as Go's regexp decides them for the patterns in use:
-- literals, classes, sequence, alternatives and repetition, matched against a whole text. The
-- matcher takes derivatives; `Lang` says what it decides.
use multivendor_hsm_pki.Prelude.{
  ℕ, ◌≡◌, refl, sym, ap, ◌∙◌, Bool, true, false, ◌&&◌, ◌||◌, List, [], ◌∷◌, ◌++◌, arith, ◌↔◌, inl,
  inr, nat_beq, leb, Bool-cases, append-eq-nil, if◌then◌else◌,
}

pub data Regex : Type 0 where
  -- matches nothing, the empty text, one code point that passes
  never empty : Regex
  chars : (ℕ → Bool) → Regex
  seq alt : Regex → Regex → Regex
  star : Regex → Regex

unfoldable pub nullable : Regex → Bool
nullable never = false
nullable empty = true
nullable (chars p) = false
nullable (seq r s) = nullable r && nullable s
nullable (alt r s) = nullable r || nullable s
nullable (star r) = true

unfoldable pub derive : ℕ → Regex → Regex
derive c never = never
derive c empty = never
derive c (chars p) = if p c then empty else never
derive c (seq r s) =
    if nullable r then alt (seq (derive c r) s) (derive c s) else seq (derive c r) s
derive c (alt r s) = alt (derive c r) (derive c s)
derive c (star r) = seq (derive c r) (star r)

unfoldable pub full_match : Regex → List ℕ → Bool
unfolding nullable derive
full_match r [] = nullable r
full_match r (c ∷ cs) = full_match (derive c r) cs

-- The texts of an expression.
pub data Lang : Regex → List ℕ → Type 0 where
  nothing : Lang empty []
  one : {p : ℕ → Bool} (c : ℕ) → p c ≡ true → Lang (chars p) (c ∷ [])
  both :
      {r s : Regex} (u v : List ℕ) {w : List ℕ}
      → Lang r u
      → Lang s v
      → w ≡ u ++ v
      → Lang (seq r s) w
  left : {r s : Regex} {w : List ℕ} → Lang r w → Lang (alt r s) w
  right : {r s : Regex} {w : List ℕ} → Lang s w → Lang (alt r s) w
  stop : {r : Regex} → Lang (star r) []
  more :
      {r : Regex} (u v : List ℕ) {w : List ℕ}
      → Lang r u
      → Lang (star r) v
      → w ≡ u ++ v
      → Lang (star r) w

nullable_sound : (r : Regex) → nullable r ≡ true → Lang r []
unfolding nullable
nullable_sound never h = absurd (ground arith)
nullable_sound empty h = nothing
nullable_sound (chars p) h = absurd (ground arith)
nullable_sound (seq r s) h =
    both [] [] (nullable_sound r (ground arith)) (nullable_sound s (ground arith)) refl
nullable_sound (alt r s) h = elim (Bool-cases (nullable r)) [
  | inl t ↦ left (nullable_sound r t)
  | inr f ↦ right (nullable_sound s (ground (arith, f)))
]
nullable_sound (star r) h = stop

nullable_complete : {r : Regex} {w : List ℕ} → Lang r w → w ≡ [] → nullable r ≡ true
unfolding nullable
nullable_complete nothing e = refl
nullable_complete (one c h) e = cc
nullable_complete (both u v a b h) e =
    let (eu, ev) = append-eq-nil u v (sym h ∙ e) in
    ground (arith, nullable_complete a eu, nullable_complete b ev)
nullable_complete (left a) e = ground (arith, nullable_complete a e)
nullable_complete (right b) e = ground (arith, nullable_complete b e)
nullable_complete stop e = refl
nullable_complete (more u v a b h) e = refl

-- A text of the derivative, with `c` before it, is a text of the expression.
Consumes : ℕ → Regex → Type 0
Consumes c r = (w : List ℕ) → Lang (derive c r) w → Lang r (c ∷ w)

sound_both :
    (c : ℕ) (r s : Regex)
    → Consumes c r
    → (w : List ℕ) → Lang (seq (derive c r) s) w
    → Lang (seq r s) (c ∷ w)
unfolding Consumes
sound_both c r s f w (both u v a b h) = both (c ∷ u) v (f u a) b (ap (λ t. c ∷ t) h)

sound_seq :
    (c : ℕ) (r s : Regex) (b : Bool)
    → nullable r ≡ b
    → Consumes c r
    → Consumes c s
    → (w : List ℕ)
    → Lang (if b then alt (seq (derive c r) s) (derive c s) else seq (derive c r) s) w
    → Lang (seq r s) (c ∷ w)
unfolding Consumes
sound_seq c r s true e f g w (left l) = sound_both c r s f w l
sound_seq c r s true e f g w (right l) = both [] (c ∷ w) (nullable_sound r e) (g w l) refl
sound_seq c r s false e f g w l = sound_both c r s f w l

sound_chars :
    (c : ℕ) (p : ℕ → Bool) (b : Bool)
    → p c ≡ b
    → (w : List ℕ) → Lang (if b then empty else never) w
    → Lang (chars p) (c ∷ w)
sound_chars c p true e _ nothing = one c e
sound_chars c p false e w l = absurd (no_text l)
  where
    no_text : {w : List ℕ} → ¬ Lang never w
    no_text l = elim l [ ]

sound_star :
    (c : ℕ) (r : Regex)
    → Consumes c r
    → (w : List ℕ) → Lang (seq (derive c r) (star r)) w
    → Lang (star r) (c ∷ w)
unfolding Consumes
sound_star c r f w (both u v a b h) = more (c ∷ u) v (f u a) b (ap (λ t. c ∷ t) h)

derive_sound : (c : ℕ) (r : Regex) → Consumes c r
unfolding derive Consumes
derive_sound c never w l = elim l [ ]
derive_sound c empty w l = elim l [ ]
derive_sound c (chars p) w l = sound_chars c p (p c) refl w l
derive_sound c (seq r s) w l =
    sound_seq c r s (nullable r) refl (derive_sound c r) (derive_sound c s) w l
derive_sound c (alt r s) w (left l) = left (derive_sound c r w l)
derive_sound c (alt r s) w (right l) = right (derive_sound c s w l)
derive_sound c (star r) w l = sound_star c r (derive_sound c r) w l

complete_chars :
    (c : ℕ) (w : List ℕ) (b : Bool) → b ≡ true → w ≡ [] → Lang (if b then empty else never) w
complete_chars c [] true h e = nothing
complete_chars c (d ∷ w) true h e = cc
complete_chars c w false h e = cc

-- `c` is the first code point of the first part.
complete_first :
    (c : ℕ) (r s : Regex) (b : Bool) (u v w : List ℕ)
    → Lang (derive c r) u
    → Lang s v
    → w ≡ u ++ v
    → Lang (if b then alt (seq (derive c r) s) (derive c s) else seq (derive c r) s) w
complete_first c r s true u v w l m e = left (both u v l m e)
complete_first c r s false u v w l m e = both u v l m e

-- The first part is empty.
complete_second :
    (c : ℕ) (r s : Regex) (b : Bool) (w : List ℕ)
    → b ≡ true
    → Lang (derive c s) w
    → Lang (if b then alt (seq (derive c r) s) (derive c s) else seq (derive c r) s) w
complete_second c r s true w e l = right l
complete_second c r s false w e l = cc

derive_complete :
    {r : Regex} {t : List ℕ} (c : ℕ) (w : List ℕ) → Lang r t → t ≡ c ∷ w → Lang (derive c r) w
unfolding derive
derive_complete c w nothing e = absurd (ground arith)
derive_complete {r = chars p} c w (one d h) e =
    complete_chars c w (p c) (ground arith) (ground arith)
derive_complete c w (both {r = r} {s = s} [] v a b h) e =
    complete_second c r s (nullable r) w (nullable_complete a refl)
      (derive_complete c w b (sym h ∙ e))
derive_complete c w (both {r = r} {s = s} (d ∷ u) v a b h) e =
    complete_first c r s (nullable r) u v w (derive_complete c u a (ground arith)) b (ground arith)
derive_complete c w (left a) e = left (derive_complete c w a e)
derive_complete c w (right b) e = right (derive_complete c w b e)
derive_complete c w stop e = absurd (ground arith)
derive_complete c w (more [] v a b h) e = derive_complete c w b (sym h ∙ e)
derive_complete c w (more (d ∷ u) v a b h) e =
    both u v (derive_complete c u a (ground arith)) b (ground arith)

-- The matcher accepts exactly the texts of the expression.
pub full_match_iff : (r : Regex) (t : List ℕ) → (full_match r t ≡ true) ↔ Lang r t
unfolding full_match Consumes
full_match_iff r [] = (nullable_sound r, (λ l. nullable_complete l refl))
full_match_iff r (c ∷ cs) = (
  (λ h. derive_sound c r cs ((full_match_iff (derive c r) cs).0 h)),
  (λ l. (full_match_iff (derive c r) cs).1 (derive_complete c cs l refl)),
)

-- r+, a literal text, any code points, [0-9], [a-z0-9]
abbrev pub plus : Regex → Regex
plus r = seq r (star r)

unfoldable pub literal : List ℕ → Regex
literal [] = empty
literal (c ∷ cs) = seq (chars (λ d. nat_beq d c)) (literal cs)

abbrev pub anything : Regex
anything = star (chars (λ c. true))

abbrev pub digit : ℕ → Bool
digit c = leb b'0' c && leb c b'9'

abbrev pub lower_or_digit : ℕ → Bool
lower_or_digit c = (leb b'a' c && leb c b'z') || digit c

pub literal-Lang : (cs : List ℕ) → Lang (literal cs) cs
unfolding literal
literal-Lang [] = nothing
literal-Lang (c ∷ cs) = both (c ∷ []) cs (one c (ground arith)) (literal-Lang cs) refl

pub Lang-literal : (cs t : List ℕ) → Lang (literal cs) t → t ≡ cs
unfolding literal
Lang-literal [] t nothing = refl
Lang-literal (c ∷ cs) t (both u v (one d h) b e) = ground (arith, Lang-literal cs v b)
