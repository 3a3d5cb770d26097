-- ===== src/Paths/Safe/Chars.antt =====
-- paths.rs: which characters a part may hold at each stage.
use zip_mania.Prelude.{
  ℕ, ◌≤◌, ◌≡◌, ◌≢◌, refl, arith, Bool, true, false, ◌&&◌, List, [], ◌∷◌, map, ltb, ◌==◌,
  if◌then◌else◌, any, All, All-map, Bool-cases, not_less, inl, inr,
}
use zip_mania.Paths.Texts.{
  pieces, split, trim, trim_start_matches, trim_end_matches, is_whitespace, is_empty,
}
use zip_mania.Paths.{slash, backslash, unify, body_of, replace_forbidden, is_forbidden, underscore}

abbrev pub NoSeparator : ℕ → Type 0
NoSeparator c = (c ≢ slash) × (c ≢ backslash)

-- No separator and no control character, NUL included.
abbrev pub Clean : ℕ → Type 0
Clean c = NoSeparator c × (0x20 ≤ c)

pub map-All :
    (P Q : ℕ → Type 0) (f : ℕ → ℕ)
    → ((c : ℕ) → P c → Q (f c))
    → (s : List ℕ) → All P s
    → All Q (map f s)
map-All P Q f h [] k = tt
map-All P Q f h (c ∷ s) k = (h c k.0, map-All P Q f h s k.1)

map-Each : (Q : ℕ → Type 0) (f : ℕ → ℕ) → ((c : ℕ) → Q (f c)) → (s : List ℕ) → All Q (map f s)
map-Each Q f h [] = tt
map-Each Q f h (c ∷ s) = (h c, map-Each Q f h s)

unify-no_backslash : (c : ℕ) → unify c ≢ backslash
unfolding unify
unify-no_backslash c e = ground arith

module _ (P : ℕ → Type 0) where
  if-All : (b : Bool) (s t : List ℕ) → All P s → All P t → All P (if b then s else t)
  if-All true s t h k = h
  if-All false s t h k = k

  body_of-All : (s : List ℕ) → All P s → All P (body_of s)
  unfolding body_of
  body_of-All [] h = tt
  body_of-All (d ∷ []) h = h
  body_of-All (d ∷ c ∷ []) h = if-All _ [] (d ∷ c ∷ []) tt h
  body_of-All (d ∷ c ∷ s ∷ rest) h = if-All _ (s ∷ rest) (d ∷ c ∷ s ∷ rest) h.1.1 h

  trim_start_matches-All : (p : ℕ → Bool) (s : List ℕ) → All P s → All P (trim_start_matches p s)
  unfolding trim_start_matches
  trim_start_matches-All p [] h = tt
  trim_start_matches-All p (c ∷ s) h = elim (Bool-cases (p c)) [
    | inl e ↦ rw e (trim_start_matches-All p s h.1)
    | inr e ↦ rw e h
  ]

  pub trim_end_matches-All : (p : ℕ → Bool) (s : List ℕ) → All P s → All P (trim_end_matches p s)
  unfolding trim_end_matches
  trim_end_matches-All p [] h = tt
  trim_end_matches-All p (c ∷ s) h = elim (Bool-cases (is_empty (trim_end_matches p s) && p c)) [
    | inl e ↦ rw e tt
    | inr e ↦ rw e (h.0, trim_end_matches-All p s h.1)
  ]

  pub trim-All : (s : List ℕ) → All P s → All P (trim s)
  unfolding trim
  trim-All s h = trim_end_matches-All is_whitespace _ (trim_start_matches-All is_whitespace s h)

-- The last character, `d` if there is none.
abbrev pub last_or : ℕ → List ℕ → ℕ
last_or d [] = d
last_or d (c ∷ s) = last_or c s

is_empty-eq {ℓ} : {A : Type ℓ} (xs : List A) → is_empty xs ≡ true → xs ≡ []
is_empty-eq [] h = refl
is_empty-eq (x ∷ xs) h = cc

-- What is left does not end in what is trimmed.
module _ (p : ℕ → Bool) where
  pub trim_end_matches-last :
      (s : List ℕ) (d : ℕ)
      → is_empty (trim_end_matches p s) ≡ false
      → p (last_or d (trim_end_matches p s)) ≡ false
  unfolding trim_end_matches
  trim_end_matches-last [] d h = cc
  trim_end_matches-last (c ∷ s) d h = elim (Bool-cases (is_empty (trim_end_matches p s) && p c)) [
    | inl e ↦ cc (rw e at h)
    | inr e ↦ rw e (elim (Bool-cases (is_empty (trim_end_matches p s))) [
      | inl q ↦ rw (is_empty-eq (trim_end_matches p s) q) (rw q at e)
      | inr q ↦ trim_end_matches-last s c q
    ])
  ]

-- The pieces hold what the text holds, and not the separator.
module _ (P : ℕ → Type 0) where
  pieces-All :
      (s : List ℕ)
      → All P s
      → All (λ c. P c × (c ≢ slash)) (pieces slash s).0
        × All (All (λ c. P c × (c ≢ slash))) (pieces slash s).1
  unfolding pieces
  pieces-All [] h = (tt, tt)
  pieces-All (c ∷ s) h = elim (Bool-cases (c == slash)) [
    | inl e ↦ rw e (tt, pieces-All s h.1)
    | inr e ↦
        let (first, others) = pieces-All s h.1 in
        let differs : c ≢ slash = λ q. (ground (arith, q)) in rw e (((h.0, differs), first), others)
  ]

-- The parts of a name hold no separator.
pub parts-NoSeparator :
    (name : List ℕ) → All (All NoSeparator) (split slash (body_of (map unify name)))
unfolding split
parts-NoSeparator name =
    let (first, others) =
      pieces-All (λ c. c ≢ backslash) (body_of (map unify name))
        (body_of-All (λ c. c ≢ backslash) (map unify name)
          (map-Each _ unify unify-no_backslash name)) in
    (
      All-map _ _ (λ c h. (h.1, h.0)) _ first,
      All-map _ _ (λ s h. All-map _ _ (λ c k. (k.1, k.0)) s h) _ others,
    )

pub any-control : (s : List ℕ) → any (λ c. ltb c 0x20) s ≡ false → All (λ c. 0x20 ≤ c) s
any-control [] h = tt
any-control (c ∷ s) h = elim (Bool-cases (ltb c 0x20)) [
  | inl e ↦ cc (rw e at h)
  | inr e ↦ (not_less c 0x20 e, any-control s (rw e at h))
]

pub replace_forbidden-Clean : (c : ℕ) → Clean c → Clean (replace_forbidden c)
unfolding replace_forbidden
replace_forbidden-Clean c h = elim (Bool-cases (is_forbidden c)) [
  | inl e ↦ rw e (((λ q. omega (arith, q)), (λ q. omega (arith, q))), omega arith)
  | inr e ↦ rw e h
]

pub underscore_allowed : is_forbidden underscore ≡ false
unfolding is_forbidden
underscore_allowed = refl

replace_forbidden-allowed : (c : ℕ) → is_forbidden (replace_forbidden c) ≡ false
unfolding replace_forbidden
replace_forbidden-allowed c = elim (Bool-cases (is_forbidden c)) [
  | inl e ↦ rw e underscore_allowed
  | inr e ↦ rw e e
]

pub map-allowed : (s : List ℕ) → All (λ c. is_forbidden c ≡ false) (map replace_forbidden s)
map-allowed = map-Each _ replace_forbidden replace_forbidden-allowed
