-- ===== src/CommandLine/Args/Positional.antt =====
-- cmdline.rs: which arguments are positional.
use zip_mania.Prelude.{ℕ, ◌≡◌, Bool, true, false, List, [], ◌∷◌}

-- An argument that is taken for an option: a dash and more, wherever it stands, or a dash alone that no
-- positional argument stands before.
pub data IsOption (seen : Bool) : List ℕ → Type 0 where
  dashed : (c : ℕ) (cs : List ℕ) → IsOption seen (0x2D ∷ c ∷ cs)
  dash : seen ≡ false → IsOption seen (0x2D ∷ [])

-- The second list is that of the arguments that are no options, in order; `seen` tells whether one
-- came before.
pub data Positional : Bool → List (List ℕ) → List (List ℕ) → Type 0 where
  no_more : {seen : Bool} → Positional seen [] []
  option :
      {seen : Bool} {a : List ℕ} {args ps : List (List ℕ)}
      → IsOption seen a
      → Positional seen args ps
      → Positional seen (a ∷ args) ps
  argument :
      {seen : Bool} {a : List ℕ} {args ps : List (List ℕ)}
      → ¬ IsOption seen a
      → Positional true args ps
      → Positional seen (a ∷ args) (a ∷ ps)
