-- ===== src/Formats/Extensions/Shared.antt =====
-- formats.rs: each extension that the program reads belongs to one backend.
use mathlib.Core.Path.{subst}
use zip_mania.Prelude.{
  ℕ, ◌≡◌, refl, Bool, true, false, not, ◌&&◌, ◌||◌, Bool-cases, inl, inr, List, [], ◌∷◌, eq_list,
  eq_list_iff, if◌then◌else◌, all,
}
use zip_mania.Formats.{contains}
use zip_mania.Formats.Extensions.{read_exts, sevenzip_exts, unzip_exts, unegg_exts}

-- What all texts of a list satisfy, each text in it does.
contains-all :
    (p : List ℕ → Bool) (xs : List (List ℕ)) (e : List ℕ)
    → contains xs e ≡ true
    → all p xs ≡ true
    → p e ≡ true
unfolding contains
contains-all p [] e h k = cc
contains-all p (x ∷ xs) e h k = elim (Bool-cases (eq_list x e)) [
  | inl q ↦ subst (λ e. p e ≡ true) ((eq_list_iff x e).0 q) (both (p x) (all p xs) k).0
  | inr q ↦ contains-all p xs e (rw q at h) (both (p x) (all p xs) k).1
]
  where
    both : (a b : Bool) → (a && b) ≡ true → (a ≡ true) × (b ≡ true)
    both true b h = (refl, h)
    both false b h = cc

-- In exactly one of three.
abbrev pub one_of : Bool → Bool → Bool → Bool
one_of a b c = if a then not (b || c) else if b then not c else c

abbrev pub owned : List ℕ → Bool
owned e = one_of (contains sevenzip_exts e) (contains unzip_exts e) (contains unegg_exts e)

-- Where one of three lists holds a text, so does the list of all.
module _ (e : List ℕ) where
  -- Whatever the extension: the program reads it exactly if it belongs to one of the backends, and
  -- then it belongs to one alone.
  pub read_exts-shared :
      (contains read_exts e ≡ true → owned e ≡ true)
      × (contains sevenzip_exts e || (contains unzip_exts e || contains unegg_exts e) ≡ true
          → contains read_exts e ≡ true)
  unfolding contains eq_list
  read_exts-shared = (
    (λ h. contains-all owned read_exts e h refl),
    λ h. elim (Bool-cases (contains sevenzip_exts e)) [
      | inl q ↦ contains-all (contains read_exts) sevenzip_exts e q refl
      | inr q ↦ elim (Bool-cases (contains unzip_exts e)) [
        | inl r ↦ contains-all (contains read_exts) unzip_exts e r refl
        | inr r ↦ contains-all (contains read_exts) unegg_exts e (rw (q, r) at h) refl
      ]
    ],
  )
