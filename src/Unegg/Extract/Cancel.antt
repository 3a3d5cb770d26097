-- ===== src/Unegg/Extract/Cancel.antt =====
-- extract.rs: `CancelWriter`. The inner writer is a parameter: how many bytes it takes of a buffer,
-- or the kind of its error. `write_all` is the default method of the standard library's `Write`, which
-- `read_item_to` calls: it goes on until the buffer is empty, and tries again after `Interrupted`.
use zip_mania.Prelude.{
  ℕ, zero, suc, ◌≤◌, ◌<◌, ◌≡◌, refl, arith, Bool, true, false, Option, none, some, List, [], ◌∷◌,
  length, length-drop, drop, if◌then◌else◌,
}

pub data ErrorKind : Type 0 where
  interrupted other : ErrorKind

pub data Written : Type 0 where
  wrote : ℕ → Written
  failed : ErrorKind → Written

-- How a `write_all` ends.
pub data Ended : Type 0 where
  all_written write_zero : Ended
  gave_up : ErrorKind → Ended

module _ (inner : List ℕ → Written) where
  -- `CancelWriter::write`.
  unfoldable pub write : Bool → List ℕ → Written
  write canceled buf = if canceled then failed interrupted else inner buf

  -- The loop, while the flag stays as it is; none where the rounds run out.
  unfoldable pub write_all : ℕ → Bool → List ℕ → Option Ended
  write_all zero canceled buf = none
  write_all (suc rounds) canceled [] = some all_written
  write_all (suc rounds) canceled (c ∷ cs) = elim (write canceled (c ∷ cs)) [
    | wrote zero ↦ some write_zero
    | wrote (suc n) ↦ write_all rounds canceled (drop (suc n) (c ∷ cs))
    | failed interrupted ↦ write_all rounds canceled (c ∷ cs)
    | failed other ↦ some (gave_up other)
  ]

  -- The inner writer takes at least one byte of what it is given, and no more than there are.
  unfoldable pub Takes : Type 0
  Takes = (c : ℕ) (cs : List ℕ) → (n : ℕ) × (inner (c ∷ cs) ≡ wrote (suc n)) × (n ≤ length cs)

  spins : (rounds : ℕ) (c : ℕ) (cs : List ℕ) → write_all rounds true (c ∷ cs) ≡ none
  unfolding write_all write
  spins zero c cs = refl
  spins (suc rounds) c cs = spins rounds c cs

  delivers :
      Takes
      → (rounds : ℕ) (buf : List ℕ) → length buf < rounds
      → write_all rounds false buf ≡ some all_written
  unfolding write_all write Takes
  delivers t zero buf h = absurd (omega arith)
  delivers t (suc rounds) [] h = refl
  delivers t (suc rounds) (c ∷ cs) h =
      let (n, e, few) = t c cs in
      rw (e, write_all) (delivers t rounds (drop n cs) (omega (arith, length-drop n cs, h)))

  -- While the flag is not set, a write of a buffer ends with all of it written, in more rounds than it
  -- has bytes; while it is set, a write of a buffer that is not empty never ends, whatever the rounds.
  pub write_all-ends :
      Takes
      → (c : ℕ) (cs : List ℕ) (rounds : ℕ) → length (c ∷ cs) < rounds
      → (write_all rounds false (c ∷ cs) ≡ some all_written)
        × (write_all rounds true (c ∷ cs) ≡ none)
  write_all-ends t c cs rounds h = (delivers t rounds (c ∷ cs) h, spins rounds c cs)
