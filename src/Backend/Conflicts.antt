-- ===== src/Backend/Conflicts.antt =====
-- backend/mod.rs: `compute_conflicts`, which files an extraction would meet. What the disk holds is a
-- parameter, and so are `canonicalize` and the current directory, which resolve_under uses.
pub mod Scope
pub mod Meeting
use zip_mania.Prelude.{
  ℕ, ◌≡◌, refl, sym, Bool, true, false, not, ◌&&◌, ◌||◌, Bool-cases, inl, inr, ◌↔◌, Option, none,
  some, List, [], ◌∷◌, ◌++◌, map, eq_list, ◌==◌, if◌then◌else◌,
}
use zip_mania.Errors.{Result, ok, err, ◌>>=◌, Result-cases}
use zip_mania.Paths.{unify, slash, sanitize_for}
use zip_mania.Paths.Under.{Components, GivenPath, resolve_under}
use zip_mania.Volumes.Names.{rsplit_once}
use zip_mania.Unegg.Items.Listing.{ArchiveEntry}

unfoldable pub starts_with : List ℕ → List ℕ → Bool
starts_with s [] = true
starts_with [] (c ∷ cs) = false
starts_with (d ∷ ds) (c ∷ cs) = d == c && starts_with ds cs

-- The path is one that is selected, or lies below it.
unfoldable pub in_any : List ℕ → List (List ℕ) → Bool
in_any path [] = false
in_any path (s ∷ ss) =
    let s' = map unify s in
    (eq_list path s' || starts_with path (s' ++ slash ∷ [])) || in_any path ss

abbrev none_selected : List (List ℕ) → Bool
none_selected [] = true
none_selected (s ∷ ss) = false

-- `in_scope`: nothing selected means all.
unfoldable pub in_scope : List ℕ → List (List ℕ) → Bool
in_scope path selected = none_selected selected || in_any path selected

-- `rsplit('/').next()`.
unfoldable pub file_part : List ℕ → List ℕ
file_part path = elim (rsplit_once slash path) [ none ↦ path | some p ↦ p.1 ]

-- What an entry is called below the output directory.
unfoldable pub relative_name : Bool → List ℕ → List ℕ
relative_name keep_paths path = if keep_paths then path else file_part path

module _ (canonicalize : GivenPath → Option Components) (current_dir : Components)
    (for_windows : Bool) where
  -- `sanitize` and then `resolve_under`.
  unfoldable pub target_of : GivenPath → List ℕ → Result Components
  target_of dest name = do
    rel ← sanitize_for name for_windows
    resolve_under canonicalize current_dir dest rel

  module _ (exists : Components → Bool) (dest : GivenPath) (keep_paths : Bool)
      (selected : List (List ℕ)) where
    abbrev is_there : Result Components → Bool
    is_there (err c) = false
    is_there (ok target) = exists target

    -- The body of the loop: the path of the entry, if it is a conflict.
    unfoldable pub conflict_of : ArchiveEntry → Bool
    conflict_of e =
        let path_norm = map unify e.path in
        if e.is_dir
        then false
        else if not (in_scope path_norm selected)
        then false
        else is_there (target_of dest (relative_name keep_paths path_norm))

    unfoldable pub compute_conflicts : List ArchiveEntry → List (List ℕ)
    unfolding conflict_of
    compute_conflicts [] = []
    compute_conflicts (e ∷ es) =
        let rest = compute_conflicts es in if conflict_of e then map unify e.path ∷ rest else rest
