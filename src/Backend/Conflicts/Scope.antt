-- ===== src/Backend/Conflicts/Scope.antt =====
-- backend/mod.rs and extract.rs: which entries a selection covers, and what they are called below the
-- output directory.
use zip_mania.Prelude.{
  ℕ, ◌≡◌, ◌≢◌, refl, ap, sym, ◌∙◌, Bool, true, false, ◌||◌, Bool-cases, inl, inr, ◌↔◌, none, some,
  Option-cases, some-injective, List, [], ◌∷◌, ◌++◌, append_assoc, map, eq_list, eq_list_iff, ◌==◌,
  ==_iff, ==_refl, or_true, All,
}
use mathlib.Core.Path.{subst}
use zip_mania.Paths.{unify, slash}
use zip_mania.Volumes.Names.{rsplit_once, no_separator, rsplit_once-append}
use zip_mania.Backend.Conflicts.{starts_with, in_any, in_scope, file_part, relative_name}

-- A selected path covers itself and what lies below it, with a slash for each separator.
pub data Covers (s path : List ℕ) : Type 0 where
  itself : path ≡ map unify s → Covers s path
  below : (rest : List ℕ) → path ≡ map unify s ++ slash ∷ rest → Covers s path

pub data AnyCovers (path : List ℕ) : List (List ℕ) → Type 0 where
  this : {s : List ℕ} {ss : List (List ℕ)} → Covers s path → AnyCovers path (s ∷ ss)
  that : {s : List ℕ} {ss : List (List ℕ)} → AnyCovers path ss → AnyCovers path (s ∷ ss)

-- Nothing selected is all.
pub data IsSelected (path : List ℕ) (selected : List (List ℕ)) : Type 0 where
  no_selection : selected ≡ [] → IsSelected path selected
  covered : AnyCovers path selected → IsSelected path selected

-- What an entry is called: its path, or its last part.
pub data IsNamed (path name : List ℕ) : Bool → Type 0 where
  whole_path : name ≡ path → IsNamed path name true
  no_folder : All (λ c. c ≢ slash) path → name ≡ path → IsNamed path name false
  last_part :
      (front : List ℕ)
      → path ≡ front ++ slash ∷ name
      → All (λ c. c ≢ slash) name
      → IsNamed path name false

starts_with-append : (s rest : List ℕ) → starts_with (s ++ rest) s ≡ true
unfolding starts_with
starts_with-append [] [] = refl
starts_with-append [] (c ∷ cs) = refl
starts_with-append (c ∷ cs) rest = rw (==_refl c) (starts_with-append cs rest)

starts_with-rest :
    (path s : List ℕ) → starts_with path s ≡ true → (rest : List ℕ) × (path ≡ s ++ rest)
unfolding starts_with
starts_with-rest path [] h = (path, refl)
starts_with-rest [] (c ∷ cs) h = cc
starts_with-rest (d ∷ ds) (c ∷ cs) h = elim (Bool-cases (d == c)) [
  | inr e ↦ cc (rw e at h)
  | inl e ↦ let (rest, k) = starts_with-rest ds cs (rw e at h) in (rest, cc (k, (==_iff d c).0 e))
]

covers : List ℕ → List ℕ → Bool
covers path s = eq_list path (map unify s) || starts_with path (map unify s ++ slash ∷ [])

covers-Covers : (path s : List ℕ) → covers path s ≡ true → Covers s path
unfolding covers
covers-Covers path s h = elim (Bool-cases (eq_list path (map unify s))) [
  | inl e ↦ itself ((eq_list_iff path (map unify s)).0 e)
  | inr e ↦
      let (rest, k) = starts_with-rest path (map unify s ++ slash ∷ []) (rw e at h) in
      below rest (k ∙ append_assoc (map unify s) (slash ∷ []) rest)
]

Covers-covers : {path s : List ℕ} → Covers s path → covers path s ≡ true
unfolding covers
Covers-covers {path} {s} (itself e) = rw ((eq_list_iff path (map unify s)).1 e) refl
Covers-covers {path} {s} (below rest e) =
    rw
      (subst (λ p. starts_with p (map unify s ++ slash ∷ []) ≡ true)
        (append_assoc (map unify s) (slash ∷ []) rest ∙ sym e)
        (starts_with-append (map unify s ++ slash ∷ []) rest))
      (or_true (eq_list path (map unify s)))

in_any-covers :
    (path s : List ℕ) (ss : List (List ℕ)) → in_any path (s ∷ ss) ≡ covers path s || in_any path ss
unfolding in_any covers
in_any-covers path s ss = refl

or_second : {a b : Bool} → a ≡ false → a || b ≡ true → b ≡ true
or_second {b} e h = ap (λ a. a || b) (sym e) ∙ h

in_any-AnyCovers : (path : List ℕ) (ss : List (List ℕ)) → in_any path ss ≡ true → AnyCovers path ss
unfolding in_any
in_any-AnyCovers path [] h = cc
in_any-AnyCovers path (s ∷ ss) h = elim (Bool-cases (covers path s)) [
  | inl e ↦ this (covers-Covers path s e)
  | inr e ↦ that (in_any-AnyCovers path ss (or_second e (sym (in_any-covers path s ss) ∙ h)))
]

AnyCovers-in_any : {path : List ℕ} {ss : List (List ℕ)} → AnyCovers path ss → in_any path ss ≡ true
AnyCovers-in_any {path} (this {s} {ss} c) =
    in_any-covers path s ss ∙ ap (λ b. b || in_any path ss) (Covers-covers c)
AnyCovers-in_any {path} (that {s} {ss} a) =
    in_any-covers path s ss
    ∙ ap (λ b. covers path s || b) (AnyCovers-in_any a)
    ∙ or_true (covers path s)

-- The test of the selection decides whether a path is selected.
pub in_scope-IsSelected :
    (path : List ℕ) (selected : List (List ℕ))
    → (in_scope path selected ≡ true) ↔ IsSelected path selected
unfolding in_scope
in_scope-IsSelected path selected = (there path selected, back path selected)
  where
    there :
        (path : List ℕ) (selected : List (List ℕ))
        → in_scope path selected ≡ true
        → IsSelected path selected
    there path [] h = no_selection refl
    there path (s ∷ ss) h = covered (in_any-AnyCovers path (s ∷ ss) h)

    back :
        (path : List ℕ) (selected : List (List ℕ))
        → IsSelected path selected
        → in_scope path selected ≡ true
    back path [] i = refl
    back path (s ∷ ss) (no_selection e) = cc
    back path (s ∷ ss) (covered a) = AnyCovers-in_any a

rsplit_once-none : (sep : ℕ) (cs : List ℕ) → rsplit_once sep cs ≡ none → All (λ c. c ≢ sep) cs
unfolding rsplit_once
rsplit_once-none sep [] h = tt
rsplit_once-none sep (c ∷ cs) h = elim (Option-cases (rsplit_once sep cs)) [
  | inr (p, e) ↦ cc (rw (e, rsplit_once) at h)
  | inl e ↦ elim (Bool-cases (c == sep)) [
    | inl f ↦ cc (rw (e, f, rsplit_once) at h)
    | inr f ↦ ((λ same. cc (f, (==_iff c sep).1 same)), rsplit_once-none sep cs e)
  ]
]

rsplit_once-some :
    (sep : ℕ) (cs : List ℕ) {front back : List ℕ}
    → rsplit_once sep cs ≡ some (front, back)
    → (cs ≡ front ++ sep ∷ back) × All (λ c. c ≢ sep) back
unfolding rsplit_once
rsplit_once-some sep [] h = cc
rsplit_once-some sep (c ∷ cs) {front} {back} h = elim (Option-cases (rsplit_once sep cs)) [
  | inr (p, e) ↦
      let (same, clear) = rsplit_once-some sep cs {front = p.0} {back = p.1} e in
      subst (λ (q : List ℕ × List ℕ). (c ∷ cs ≡ q.0 ++ sep ∷ q.1) × All (λ c. c ≢ sep) q.1)
        (some-injective (rw (e, rsplit_once) at h)) (ap (λ xs. c ∷ xs) same, clear)
  | inl e ↦ elim (Bool-cases (c == sep)) [
    | inr f ↦ cc (rw (e, f, rsplit_once) at h)
    | inl f ↦
        subst (λ (q : List ℕ × List ℕ). (c ∷ cs ≡ q.0 ++ sep ∷ q.1) × All (λ c. c ≢ sep) q.1)
          (some-injective (rw (e, f, rsplit_once) at h))
          (ap (λ d. d ∷ cs) ((==_iff c sep).0 f), rsplit_once-none sep cs e)
  ]
]

pub relative_name-IsNamed :
    (keep_paths : Bool) (path : List ℕ) → IsNamed path (relative_name keep_paths path) keep_paths
unfolding relative_name file_part
relative_name-IsNamed true path = whole_path refl
relative_name-IsNamed false path = elim (Option-cases (rsplit_once slash path)) [
  | inl e ↦ no_folder (rsplit_once-none slash path e) (rw (e, relative_name, file_part) refl)
  | inr (p, e) ↦
      let (same, clear) = rsplit_once-some slash path {front = p.0} {back = p.1} e in
      rw (e, relative_name, file_part) (last_part p.0 same clear)
]

-- An entry is called nothing else.
pub IsNamed-relative_name :
    {path name : List ℕ} {keep_paths : Bool}
    → IsNamed path name keep_paths
    → relative_name keep_paths path ≡ name
unfolding relative_name file_part
IsNamed-relative_name (whole_path e) = sym e
IsNamed-relative_name {path} (no_folder clear e) =
    rw (no_separator slash path clear, file_part) (sym e)
IsNamed-relative_name {name} (last_part front e clear) =
    rw (e, rsplit_once-append slash front name clear, file_part) refl
