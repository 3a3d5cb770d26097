-- ===== src/Formats/Unique.antt =====
-- formats.rs: `unique_path`. A path with a name is its components, the innermost one first; what is
-- on the disk is a parameter. `file_stem` and `extension` split a name at its last dot, unless the
-- dot is the first character. A name is a text, so `to_str` never fails and the stem needs no other
-- name.
use mathlib.Core.Path.{subst}
use zip_mania.Prelude.{
  ℕ, zero, suc, ◌+◌, ◌≤◌, ◌<◌, ◌≡◌, refl, arith, Bool, true, false, ◌||◌, ◌&&◌, Bool-cases, inl,
  inr, ◌⊎◌, Option, none, some, List, [], ◌∷◌, ◌++◌, map, sym, eq_list, ◌==◌, ==_iff, if◌then◌else◌,
}
use zip_mania.Prelude.Digits.{to_digits}
use zip_mania.Paths.Texts.{split, is_empty}
use zip_mania.Volumes.Names.{rsplit_once}

abbrev dots : List ℕ
dots = 0x2E ∷ 0x2E ∷ []

-- The name in front of the last dot and behind it, none where there is no extension.
unfoldable pub split_name : List ℕ → Option (List ℕ × List ℕ)
split_name name = if eq_list name dots then none else elim (rsplit_once 0x2E name) [
  | none ↦ none
  | some p ↦ if is_empty p.0 then none else some p
]

unfoldable pub file_stem : List ℕ → List ℕ
file_stem name = elim (split_name name) [ none ↦ name | some p ↦ p.0 ]

unfoldable pub extension : List ℕ → Option (List ℕ)
extension name = elim (split_name name) [ none ↦ none | some p ↦ some p.1 ]

abbrev or_empty : Option (List ℕ) → List ℕ
or_empty none = []
or_empty (some e) = e

-- `{stem} ({n})`, with the extension if there is one.
unfoldable pub numbered : List ℕ → List ℕ → ℕ → List ℕ
numbered stem ext n =
    let front = stem ++ 0x20 ∷ 0x28 ∷ to_digits n ++ 0x29 ∷ [] in
    if is_empty ext then front else front ++ 0x2E ∷ ext

-- The name at the end of a path: the last piece but for empty ones and `.`, if it is not `..`.
unfoldable pub last_of : Option (List ℕ) → List (List ℕ) → Option (List ℕ)
last_of found [] = found
last_of found (p ∷ ps) =
    if is_empty p || eq_list p (0x2E ∷ []) then last_of found ps else last_of (some p) ps

abbrev to_slash : Bool → ℕ → ℕ
to_slash for_windows c = if for_windows && c == 0x5C then 0x2F else c

unfoldable pub last_name : Bool → List ℕ → Option (List ℕ)
unfolding last_of
last_name for_windows path = elim (last_of none (split 0x2F (map (to_slash for_windows) path))) [
  | none ↦ none
  | some name ↦ if eq_list name dots then none else some name
]

above : (m n : ℕ) → n ≤ m → m == n ≡ false → n + 1 ≤ m
above m n low q = ground arith

module _ (exists : List (List ℕ) → Bool) where
  -- The first candidate that is free, from number `n` on, of as many as there are rounds.
  unfoldable pub free_from : List (List ℕ) → List ℕ → List ℕ → ℕ → ℕ → Option (List (List ℕ))
  free_from parent stem ext zero n = none
  free_from parent stem ext (suc rounds) n =
      let cand = numbered stem ext n ∷ parent in
      elim (exists cand) [ false ↦ some cand | true ↦ free_from parent stem ext rounds (n + 1) ]

  abbrev or_target : List (List ℕ) → Option (List (List ℕ)) → List (List ℕ)
  or_target target none = target
  or_target target (some cand) = cand

  unfoldable pub unique_path : List ℕ → List (List ℕ) → List (List ℕ)
  unique_path name parent =
      let found = free_from parent (file_stem name) (or_empty (extension name)) 9_998 2 in
      elim (exists (name ∷ parent)) [
        | false ↦ name ∷ parent
        | true ↦ or_target (name ∷ parent) found
      ]

  -- What the loop finds is free and beside the target; where it finds nothing all are taken.
  data Searched (parent : List (List ℕ)) (stem ext : List ℕ) (rounds n : ℕ)
      : Option (List (List ℕ)) → Type 0 where
    free :
        (m : ℕ)
        → exists (numbered stem ext m ∷ parent) ≡ false
        → Searched parent stem ext rounds n (some (numbered stem ext m ∷ parent))
    taken :
        ((m : ℕ) → n ≤ m → m < n + rounds → exists (numbered stem ext m ∷ parent) ≡ true)
        → Searched parent stem ext rounds n none

  Searched-later :
      (parent : List (List ℕ)) (stem ext : List ℕ) (rounds n : ℕ) (o : Option (List (List ℕ)))
      → exists (numbered stem ext n ∷ parent) ≡ true
      → Searched parent stem ext rounds (n + 1) o
      → Searched parent stem ext (suc rounds) n o
  Searched-later parent stem ext rounds n o e (free m f) = free m f
  Searched-later parent stem ext rounds n o e (taken k) = taken λ m low high.
      elim (Bool-cases (m == n)) [
        | inl q ↦
            subst (λ m. exists (numbered stem ext m ∷ parent) ≡ true) (sym ((==_iff m n).0 q)) e
        | inr q ↦ k m (above m n low q) (omega arith)
      ]

  free_from-Searched :
      (parent : List (List ℕ)) (stem ext : List ℕ) (rounds n : ℕ)
      → Searched parent stem ext rounds n (free_from parent stem ext rounds n)
  unfolding free_from
  free_from-Searched parent stem ext zero n = taken λ m low high. absurd (omega arith)
  free_from-Searched parent stem ext (suc rounds) n =
      elim (Bool-cases (exists (numbered stem ext n ∷ parent))) [
        | inr e ↦ rw (e, free_from) (free n e)
        | inl e ↦
            rw (e, free_from)
              (Searched-later parent stem ext rounds n (free_from parent stem ext rounds (n + 1)) e
                (free_from-Searched parent stem ext rounds (n + 1)))
      ]

  -- The path keeps its directory, and is free unless all of the 9,998 numbered names are taken, in
  -- which case it is the target itself.
  pub record Unique (name : List ℕ) (parent result : List (List ℕ)) : Type 0 where
    pub beside : (name' : List ℕ) × (result ≡ name' ∷ parent)
    pub free_or_full :
        (exists result ≡ false)
        ⊎ ((result ≡ name ∷ parent)
            × ((m : ℕ)
                → 2 ≤ m
                → m < 10_000
                → exists (numbered (file_stem name) (or_empty (extension name)) m ∷ parent) ≡ true))

  chosen :
      (name : List ℕ) (parent : List (List ℕ)) (o : Option (List (List ℕ)))
      → Searched parent (file_stem name) (or_empty (extension name)) 9_998 2 o
      → Unique name parent (or_target (name ∷ parent) o)
  chosen name parent o (free m e) = record { beside = (_, refl); free_or_full = inl e }
  chosen name parent o (taken k) = record {
    beside = (name, refl);
    free_or_full = inr (refl, λ m low high. k m low (omega arith));
  }

  pub unique_path-Unique :
      (name : List ℕ) (parent : List (List ℕ)) → Unique name parent (unique_path name parent)
  unfolding unique_path
  unique_path-Unique name parent = elim (Bool-cases (exists (name ∷ parent))) [
    | inr e ↦ rw (e, unique_path) (record { beside = (name, refl); free_or_full = inl e })
    | inl e ↦
        rw (e, unique_path)
          (chosen name parent _
            (free_from-Searched parent (file_stem name) (or_empty (extension name)) 9_998 2))
  ]
