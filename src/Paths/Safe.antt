-- ===== src/Paths/Safe.antt =====
-- paths.rs: what every accepted name is turned into.
pub mod Chars
use mathlib.Core.Path.{subst}
use zip_mania.Prelude.{
  ℕ, ◌-◌, ◌≤◌, ◌<◌, ◌≡◌, ◌≢◌, refl, sym, ap, ◌∙◌, arith, Bool, true, false, not, ◌||◌, ◌&&◌, Option,
  none, some, List, [], ◌∷◌, map, ltb, leb, ◌==◌, if◌then◌else◌, any, eq_list, eq_list_refl, drop,
  All, All-map, All-map2, Bool-cases, some-injective, false_not_true, inl, inr,
}
use zip_mania.Errors.{
  Result, ok, err, unsafe_path, ◌>>=◌, ◌>>◌, >>=-eq-ok, refuse_if, refuse_if-eq-ok, ok-injective,
}
use zip_mania.Paths.Texts.{
  split, split_first, pieces, to_ascii_upper, trim, trim_end_matches, to_ascii_uppercase,
  is_ascii_alphabetic, is_empty,
}
use zip_mania.Paths.{
  slash, backslash, dot, underscore, unify, body_of, is_forbidden, replace_forbidden,
  is_space_or_dot, is_reserved, windows_part, sanitize_part, push, sanitize_parts, sanitize_for,
}
use zip_mania.Paths.Safe.Chars.{
  NoSeparator, Clean, parts-NoSeparator, any-control, replace_forbidden-Clean, map-allowed,
  underscore_allowed, trim-All, trim_end_matches-All, last_or, trim_end_matches-last, map-All,
}

-- A component that stays in its directory, on any system.
pub record IsSafe (p : List ℕ) : Type 0 where
  pub nonempty : p ≢ []
  pub clean : All Clean p
  pub no_dot : p ≢ dot ∷ []
  pub no_dots : p ≢ dot ∷ dot ∷ []

-- What Windows asks besides.
pub record IsSafeOnWindows (p : List ℕ) : Type 0 where
  pub allowed : All (λ c. is_forbidden c ≡ false) p
  pub end_allowed : is_space_or_dot (last_or 0 p) ≡ false
  pub no_device : is_reserved p ≡ false

abbrev pub IsSafeFor : Bool → List ℕ → Type 0
IsSafeFor for_windows p = IsSafe p × (for_windows ≡ true → IsSafeOnWindows p)

underscore-no_device : (p : List ℕ) → is_reserved (underscore ∷ p) ≡ false
unfolding is_reserved split_first pieces to_ascii_uppercase to_ascii_upper eq_list
underscore-no_device p = refl

last_differs :
    (s t : List ℕ)
    → is_space_or_dot (last_or 0 s) ≡ false
    → is_space_or_dot (last_or 0 t) ≡ true
    → s ≢ t
last_differs s t h k e = false_not_true h (ap (λ u. is_space_or_dot (last_or 0 u)) e ∙ k)

kept-Safe :
    (kept : List ℕ)
    → is_empty kept ≡ false
    → All Clean kept
    → All (λ c. is_forbidden c ≡ false) kept
    → is_space_or_dot (last_or 0 kept) ≡ false
    → is_reserved kept ≡ false
    → IsSafe kept × IsSafeOnWindows kept
kept-Safe kept n c a l d = (
  record {
    nonempty = λ e. false_not_true n (ap is_empty e);
    clean = c;
    no_dot = last_differs kept (dot ∷ []) l refl;
    no_dots = last_differs kept (dot ∷ dot ∷ []) l refl;
  },
  record { allowed = a; end_allowed = l; no_device = d },
)

windows_part-Safe :
    (part p : List ℕ) → All Clean part → windows_part part ≡ some p → IsSafe p × IsSafeOnWindows p
unfolding windows_part
windows_part-Safe part p h q =
    let kept = trim_end_matches is_space_or_dot (map replace_forbidden part) in
    let clean : All Clean kept =
      trim_end_matches-All Clean is_space_or_dot _
        (map-All Clean Clean replace_forbidden replace_forbidden-Clean part h) in
    let allowed : All (λ c. is_forbidden c ≡ false) kept =
      trim_end_matches-All (λ c. is_forbidden c ≡ false) is_space_or_dot _ (map-allowed part) in
    elim (Bool-cases (is_empty kept)) [
      | inl e ↦ cc (rw e at q)
      | inr e ↦ elim (Bool-cases (is_reserved kept)) [
        | inr d ↦
            subst (λ s. IsSafe s × IsSafeOnWindows s) (some-injective (rw (e, d) at q))
              (kept-Safe kept e clean allowed (trim_end_matches-last is_space_or_dot _ 0 e) d)
        | inl d ↦
            subst (λ s. IsSafe s × IsSafeOnWindows s) (some-injective (rw (e, d) at q))
              (kept-Safe (underscore ∷ kept) refl
                ((((λ u. omega (arith, u)), (λ u. omega (arith, u))), omega arith), clean)
                (underscore_allowed, allowed) (trim_end_matches-last is_space_or_dot _ underscore e)
                (underscore-no_device kept))
      ]
    ]

-- A part that is kept as it is, off Windows.
plain-Safe :
    (part : List ℕ)
    → is_empty part || eq_list part (dot ∷ []) ≡ false
    → eq_list part (dot ∷ dot ∷ []) ≡ false
    → All Clean part
    → IsSafe part
unfolding eq_list
plain-Safe part e f c = record {
  nonempty = λ q. false_not_true e (ap (λ s. is_empty s || eq_list s (dot ∷ [])) q);
  clean = c;
  no_dot = λ q. false_not_true e (ap (λ s. is_empty s || eq_list s (dot ∷ [])) q ∙ refl);
  no_dots = λ q. false_not_true f (ap (λ s. eq_list s (dot ∷ dot ∷ [])) q);
}

last_step-Safe :
    (for_windows : Bool) (part p : List ℕ)
    → is_empty part || eq_list part (dot ∷ []) ≡ false
    → eq_list part (dot ∷ dot ∷ []) ≡ false
    → All Clean part
    → (if for_windows then ok (windows_part part) else ok (some part)) ≡ ok (some p)
    → IsSafeFor for_windows p
last_step-Safe true part p e f c q =
    let (safe, windows) = windows_part-Safe part p c (ok-injective q) in (safe, λ _. windows)
last_step-Safe false part p e f c q =
    (subst IsSafe (some-injective (ok-injective q)) (plain-Safe part e f c), λ w. cc)

sanitize_part-Safe :
    (for_windows : Bool) (raw p : List ℕ)
    → All NoSeparator raw
    → sanitize_part for_windows raw ≡ ok (some p)
    → IsSafeFor for_windows p
unfolding sanitize_part
sanitize_part-Safe w raw p h q =
    let part = trim raw in
    let kept : All NoSeparator part = trim-All NoSeparator raw h in
    elim (Bool-cases (is_empty part || eq_list part (dot ∷ []))) [
      | inl e ↦ cc (rw e at q)
      | inr e ↦ elim (Bool-cases (eq_list part (dot ∷ dot ∷ []))) [
        | inl f ↦ cc (rw (e, f) at q)
        | inr f ↦ elim (Bool-cases (any (λ c. ltb c 0x20) part)) [
          | inl g ↦ cc (rw (e, f, g) at q)
          | inr g ↦
              let clean : All Clean part =
                All-map2 NoSeparator (λ c. 0x20 ≤ c) Clean (λ c u v. (u, v)) part kept
                  (any-control part g) in
              last_step-Safe w part p e f clean (rw (e, f, g) at q)
        ]
      ]
    ]

push-Safe :
    (for_windows : Bool) (o : Option (List ℕ)) (ps : List (List ℕ))
    → ((p : List ℕ) → o ≡ some p → IsSafeFor for_windows p)
    → All (IsSafeFor for_windows) ps
    → All (IsSafeFor for_windows) (push o ps)
push-Safe w none ps h k = k
push-Safe w (some p) ps h k = (h p refl, k)

sanitize_parts-Safe :
    (for_windows : Bool) (raws : List (List ℕ)) {parts : List (List ℕ)}
    → All (All NoSeparator) raws
    → sanitize_parts for_windows raws ≡ ok parts
    → All (IsSafeFor for_windows) parts
unfolding sanitize_parts
sanitize_parts-Safe w [] h q = subst (All (IsSafeFor w)) (ok-injective q) tt
sanitize_parts-Safe w (raw ∷ raws) h q =
    let (o, a, b) = >>=-eq-ok (sanitize_part w raw) _ q in
    let (ps, c, d) = >>=-eq-ok (sanitize_parts w raws) _ b in
    subst (All (IsSafeFor w)) (ok-injective d) (
      push-Safe w o ps (λ p e. sanitize_part-Safe w raw p h.0 (a ∙ ap ok e))
        (sanitize_parts-Safe w raws h.1 c))

not_empty :
    (ps : List (List ℕ)) {parts : List (List ℕ)}
    → (refuse_if (is_empty ps) unsafe_path >> ok ps) ≡ ok parts
    → (ps ≢ []) × (ps ≡ parts)
not_empty [] q = cc
not_empty (p ∷ ps) q = ((λ e. cc), ok-injective q)

-- Whatever the name of an entry, the path that it is turned into has at least one component, and
-- each of them names a file of its own directory: it is not empty, holds no separator and no
-- control character, and is neither `.` nor `..`; on Windows it also holds no forbidden character,
-- does not end in a space or a dot, and its part before the first dot is not, in any case of its
-- letters, in the list of device names.
pub sanitize_for-Safe :
    (name : List ℕ) (for_windows : Bool) {parts : List (List ℕ)}
    → sanitize_for name for_windows ≡ ok parts
    → (parts ≢ []) × All (IsSafeFor for_windows) parts
unfolding sanitize_for
sanitize_for-Safe name w q = elim (Bool-cases (any (λ c. c == 0) name)) [
  | inl z ↦ cc (rw z at q)
  | inr z ↦
      let (ps, b, c) =
        >>=-eq-ok (sanitize_parts w (split slash (body_of (map unify name))))
          (λ ps. refuse_if (is_empty ps) unsafe_path >> ok ps) (rw z at q) in
      let (filled, same) = not_empty ps c in
      subst (λ s. (s ≢ []) × All (IsSafeFor w) s) same
        (filled, sanitize_parts-Safe w _ (parts-NoSeparator name) b)
]
