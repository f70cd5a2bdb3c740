-- ===== src/Entitlement/Glob.antt =====
-- globRegexp of internal/entitlement/entitlement.go, and what the globs match. A text is its code
-- points; whether two of them are equal, or equal up to case, is an argument.
use multivendor_hsm_pki.Prelude.{
  ℕ, ◌≡◌, ◌≢◌, ◌↔◌, refl, ap, Bool, true, false, not, List, [], ◌∷◌, ◌++◌, ◌==◌, nat_eq, arith, inl,
  inr, Bool-cases, if◌then◌else◌,
}
use multivendor_hsm_pki.Text.Regex.{
  Regex, never, empty, chars, seq, star, full_match, full_match_iff, Lang, nothing, one, both, stop,
  more,
}

-- One round of strings.Split(glob, "*"), on the parts of what follows.
abbrev pub attach : ℕ → List (List ℕ) → List (List ℕ)
attach c [] = []
attach c (part ∷ parts) = if c == b'*' then [] ∷ part ∷ parts else (c ∷ part) ∷ parts

unfoldable pub split_star : List ℕ → List (List ℕ)
split_star [] = [] ∷ []
split_star (c ∷ cs) = attach c (split_star cs)

-- `.` of a pattern without the flag s
abbrev pub no_newline : ℕ → Bool
no_newline c = not (c == 10)

module _ (same : ℕ → ℕ → Bool) where
  -- regexp.QuoteMeta of a part
  unfoldable pub quote : List ℕ → Regex
  quote [] = empty
  quote (c ∷ cs) = seq (chars (same c)) (quote cs)

  -- strings.Join(parts, ".*")
  unfoldable pub join : List (List ℕ) → Regex
  unfolding quote
  join [] = never
  join (part ∷ []) = quote part
  join (part ∷ next ∷ parts) =
      seq (quote part) (seq (star (chars no_newline)) (join (next ∷ parts)))

  unfoldable pub glob_regexp : List ℕ → Regex
  unfolding join split_star
  glob_regexp glob = join (split_star glob)

  -- The rule of the comment on Pattern: a star is any run of code points, none included, but no line
  -- break; any other code point is itself.
  pub data GlobMatch : List ℕ → List ℕ → Type 0 where
    done : GlobMatch [] []
    char :
        (c d : ℕ) {glob text : List ℕ}
        → c ≢ b'*'
        → same c d ≡ true
        → GlobMatch glob text
        → GlobMatch (c ∷ glob) (d ∷ text)
    run_end :
        (c : ℕ) {glob text : List ℕ} → c ≡ b'*' → GlobMatch glob text → GlobMatch (c ∷ glob) text
    run_more :
        (c d : ℕ) {glob text : List ℕ}
        → c ≡ b'*'
        → d ≢ 10
        → GlobMatch (c ∷ glob) text
        → GlobMatch (c ∷ glob) (d ∷ text)

  -- A literal code point in front of the parts.
  Lang-char_sound :
      (c : ℕ) (part : List ℕ) (parts : List (List ℕ)) (text : List ℕ)
      → Lang (join ((c ∷ part) ∷ parts)) text
      → (d : ℕ) × (rest : List ℕ) × (text ≡ d ∷ rest)
        × (same c d ≡ true)
        × Lang (join (part ∷ parts)) rest
  unfolding join quote
  Lang-char_sound c part [] text (both u v (one d h) b e) = (d, v, e, h, b)
  Lang-char_sound c part (next ∷ parts) text (both u v (both w x (one d h) a e') b e) =
      (d, x ++ v, ground arith, h, both x v a b refl)

  Lang-char_complete :
      (c d : ℕ) (part : List ℕ) (parts : List (List ℕ)) (rest : List ℕ)
      → same c d ≡ true
      → Lang (join (part ∷ parts)) rest
      → Lang (join ((c ∷ part) ∷ parts)) (d ∷ rest)
  unfolding join quote
  Lang-char_complete c d part [] rest h l = both (d ∷ []) rest (one d h) l refl
  Lang-char_complete c d part (next ∷ parts) rest h (both u v a b e) =
      both (d ∷ u) v (both (d ∷ []) u (one d h) a refl) b (ap (λ t. d ∷ t) e)

  -- A star in front of the parts.
  Lang-star_sound :
      (parts : List (List ℕ)) (part : List ℕ) (text : List ℕ)
      → Lang (join ([] ∷ part ∷ parts)) text
      → Lang (seq (star (chars no_newline)) (join (part ∷ parts))) text
  unfolding join quote
  Lang-star_sound parts part text (both u v nothing b e) = rw e b

  Lang-star_complete :
      (parts : List (List ℕ)) (part : List ℕ) (text : List ℕ)
      → Lang (seq (star (chars no_newline)) (join (part ∷ parts))) text
      → Lang (join ([] ∷ part ∷ parts)) text
  unfolding join quote
  Lang-star_complete parts part text l = both [] text nothing l refl

  -- A run, and the glob after it.
  run :
      (c : ℕ) (glob u v : List ℕ) {text : List ℕ}
      → c ≡ b'*'
      → Lang (star (chars no_newline)) u
      → GlobMatch glob v
      → text ≡ u ++ v
      → GlobMatch (c ∷ glob) text
  run c glob u v star_c stop m e = rw e (run_end c star_c m)
  run c glob u v star_c (more w x (one d h) l e') m e =
      rw (e, e') (run_more c d star_c (ground (arith, h)) (run c glob x v star_c l m refl))

  Lang-nil : (text : List ℕ) → Lang (join []) text → ⊥
  unfolding join
  Lang-nil text l = elim l [ ]

  Lang-done : (text : List ℕ) → Lang (join ([] ∷ [])) text → text ≡ []
  unfolding join quote
  Lang-done text nothing = refl

  -- One round of the split is one code point of the glob.
  attach_sound :
      (c : ℕ) (glob : List ℕ) (parts : List (List ℕ))
      → ((t : List ℕ) → Lang (join parts) t → GlobMatch glob t)
      → (text : List ℕ) → Lang (join (attach c parts)) text
      → GlobMatch (c ∷ glob) text
  attach_sound c glob [] rec text l = absurd (Lang-nil text l)
  attach_sound c glob (part ∷ parts) rec text l = elim (Bool-cases (c == b'*')) [
    | inl t ↦ star_case (ground (arith, t)) (Lang-star_sound parts part text (rw t at l))
    | inr f ↦
        (let (d, rest, e, h, l') = Lang-char_sound c part parts text (rw f at l) in
          rw e (char c d (ground (arith, f)) h (rec rest l')))
  ]
    where
      star_case :
          c ≡ b'*'
          → Lang (seq (star (chars no_newline)) (join (part ∷ parts))) text
          → GlobMatch (c ∷ glob) text
      star_case e (both u v a b h) = run c glob u v e a (rec v b) h

  glob_sound : (glob text : List ℕ) → Lang (join (split_star glob)) text → GlobMatch glob text
  unfolding split_star
  glob_sound [] text l = rw (Lang-done text l) done
  glob_sound (c ∷ cs) text l = attach_sound c cs (split_star cs) (glob_sound cs) text l

  attach_char :
      (c d : ℕ) (parts : List (List ℕ)) (text : List ℕ)
      → c ≢ b'*'
      → same c d ≡ true
      → Lang (join parts) text
      → Lang (join (attach c parts)) (d ∷ text)
  attach_char c d [] text plain h l = absurd (Lang-nil text l)
  attach_char c d (part ∷ parts) text plain h l =
      let literal_c : (c == b'*') ≡ false = ground (arith, plain) in
      rw literal_c (Lang-char_complete c d part parts text h l)

  attach_end :
      (c : ℕ) (parts : List (List ℕ)) (text : List ℕ)
      → c ≡ b'*'
      → Lang (join parts) text
      → Lang (join (attach c parts)) text
  attach_end c [] text is_star l = absurd (Lang-nil text l)
  attach_end c (part ∷ parts) text is_star l =
      let star_c : (c == b'*') ≡ true = ground (arith, is_star) in
      rw star_c (Lang-star_complete parts part text (both [] text stop l refl))

  attach_more :
      (c d : ℕ) (parts : List (List ℕ)) (text : List ℕ)
      → c ≡ b'*'
      → d ≢ 10
      → Lang (join (attach c parts)) text
      → Lang (join (attach c parts)) (d ∷ text)
  attach_more c d [] text is_star ne l = absurd (Lang-nil text l)
  attach_more c d (part ∷ parts) text is_star ne l =
      let star_c : (c == b'*') ≡ true = ground (arith, is_star) in
      rw star_c (
        Lang-star_complete parts part (d ∷ text)
          (longer (Lang-star_sound parts part text (rw star_c at l))))
    where
      longer :
          Lang (seq (star (chars no_newline)) (join (part ∷ parts))) text
          → Lang (seq (star (chars no_newline)) (join (part ∷ parts))) (d ∷ text)
      longer (both u v a b e) =
          both (d ∷ u) v (more (d ∷ []) u (one d (ground (arith, ne))) a refl) b (ap (λ t. d ∷ t) e)

  glob_complete : {glob text : List ℕ} → GlobMatch glob text → Lang (join (split_star glob)) text
  unfolding split_star join quote
  glob_complete done = nothing
  glob_complete (char c d {glob = glob} {text = text} plain h m) =
      attach_char c d (split_star glob) text plain h (glob_complete m)
  glob_complete (run_end c {glob = glob} {text = text} is_star m) =
      attach_end c (split_star glob) text is_star (glob_complete m)
  glob_complete (run_more c d {glob = glob} {text = text} is_star ne m) =
      attach_more c d (split_star glob) text is_star ne (glob_complete m)

  -- The expression that a glob becomes matches exactly the texts of the glob: a star is any run of
  -- code points without a line break, and any other code point stands for those it is the same as.
  pub glob_regexp_iff :
      (glob text : List ℕ) → (full_match (glob_regexp glob) text ≡ true) ↔ GlobMatch glob text
  unfolding glob_regexp
  glob_regexp_iff glob text =
      let decides = full_match_iff (join (split_star glob)) text in
      ((λ h. glob_sound glob text (decides.0 h)), (λ m. decides.1 (glob_complete m)))
