-- ===== src/Paths/Under.antt =====
-- paths.rs: `resolve_under` and `absolutize`. An absolute path is its components, the innermost one
-- first, so that the parent is the rest. What `canonicalize` finds on the disk, links followed, and
-- the current directory are parameters.
pub mod Contained
use zip_mania.Prelude.{
  ℕ, Bool, true, false, not, ◌&&◌, ◌||◌, Option, none, some, List, [], ◌∷◌, eq_list, if◌then◌else◌,
}
use zip_mania.Errors.{Result, ok, err, unsafe_path, ◌>>◌}

abbrev pub Components : Type 0
Components = List (List ℕ)

pub data Component : Type 0 where
  parent_dir cur_dir : Component
  normal : List ℕ → Component

-- A path as it is given: absolute, or relative with its outermost component first. A relative path of
-- Windows with a drive or a root of its own, as `C:a` and `\a`, is left out.
pub data GivenPath : Type 0 where
  absolute : Components → GivenPath
  relative : List Component → GivenPath

unfoldable pub eq_path : Components → Components → Bool
eq_path [] [] = true
eq_path (x ∷ xs) (y ∷ ys) = eq_list x y && eq_path xs ys
eq_path _ _ = false

-- `p.starts_with(root)`.
unfoldable pub is_under : Components → Components → Bool
is_under root [] = eq_path [] root
is_under root (c ∷ p) = eq_path (c ∷ p) root || is_under root p

unfoldable pub join : Components → List (List ℕ) → Components
join root [] = root
join root (c ∷ cs) = join (c ∷ root) cs

abbrev pop : Components → Components
pop [] = []
pop (c ∷ out) = out

unfoldable pub push_components : Components → List Component → Components
push_components out [] = out
push_components out (parent_dir ∷ cs) = push_components (pop out) cs
push_components out (cur_dir ∷ cs) = push_components out cs
push_components out (normal c ∷ cs) = push_components (c ∷ out) cs

unfoldable pub absolutize : Components → GivenPath → Components
absolutize current_dir (absolute p) = p
absolutize current_dir (relative cs) = push_components current_dir cs

module _ (canonicalize : GivenPath → Option Components) where
  -- The loop over the ancestors of the target; the root directory ends it, since it is the output
  -- root or not under it.
  unfoldable pub check_ancestors : Components → Components → Result (Unit {0})
  check_ancestors root [] = ok tt
  check_ancestors root (c ∷ p) =
      let rest = check_ancestors root p in
      if eq_path (c ∷ p) root || not (is_under root (c ∷ p))
      then ok tt
      else elim (canonicalize (absolute (c ∷ p))) [
        | none ↦ rest
        | some real ↦ if is_under root real then ok tt else err unsafe_path
      ]

  unfoldable pub root_of : Components → GivenPath → Components
  root_of current_dir root = elim (canonicalize root) [
    | some p ↦ p
    | none ↦ absolutize current_dir root
  ]

  unfoldable pub resolve_under : Components → GivenPath → List (List ℕ) → Result Components
  resolve_under current_dir root rel =
      let root_abs = root_of current_dir root in
      let target = join root_abs rel in check_ancestors root_abs target >> ok target
