-- ===== src/Unegg/Extract/Steps.antt =====
-- extract.rs: the steps of the loop over the entries, and what they do to the missing items.
use zip_mania.Prelude.{◌≡◌, refl, sym, ◌∙◌, ◌⊎◌, inl, inr, List, [], ◌∷◌, ◌++◌}
use zip_mania.Backend.Results.{MissingItem}
use zip_mania.Unegg.Extract.{State, Stopped, Step, next, stop}

-- What became of the missing items in a step for an entry.
pub data Did (P : Type 0) (before after : List MissingItem) : Type 0 where
  kept : P → after ≡ before → Did P before after
  lost : (m : MissingItem) → after ≡ before ++ m ∷ [] → Did P before after

pub next-injective : {W : Type 0} {a b : State W} → next a ≡ next b → a ≡ b
next-injective h = cc

pub stop-next : {W : Type 0} {r : Stopped} {st : State W} → stop r ≡ next st → ⊥
stop-next h = cc

pub Step-cases :
    {W : Type 0} (s : Step W) → ((r : Stopped) × (s ≡ stop r)) ⊎ ((st : State W) × (s ≡ next st))
Step-cases (stop r) = inl (r, refl)
Step-cases (next st) = inr (st, refl)

not_empty : (ms : List MissingItem) (m : MissingItem) → ms ++ m ∷ [] ≡ [] → ⊥
not_empty [] m h = cc
not_empty (n ∷ ms) m h = cc

-- Nothing that is missing is forgotten: where nothing is in the end, nothing ever was, and the step
-- lost nothing.
pub nothing_lost :
    {P : Type 0} {before after : List MissingItem}
    → Did P before after
    → after ≡ []
    → P × (before ≡ [])
nothing_lost (kept p same) e = (p, sym same ∙ e)
nothing_lost {before} (lost m same) e = absurd (not_empty before m (sym same ∙ e))
