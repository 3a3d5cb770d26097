-- ===== src/OutFile/Commit.antt =====
-- outfile.rs: how the volumes of a finished set come to their names. What the disk does is a
-- parameter. A path is its file name here, as in volumes.rs, since temporary files stand beside the target.
pub mod Placed
use mathlib.Core.List.{zip}
use zip_mania.Prelude.{
  ℕ, zero, suc, ◌+◌, Bool, true, false, Option, List, [], ◌∷◌, ◌++◌, map, ◌==◌, if◌then◌else◌,
  length,
}
use zip_mania.Errors.{Result, ok, err, output_error, stale_volume}
use zip_mania.Volumes.Names.{volume_name}

-- `rename` moves the file of the first path to the second one and says whether it did; `remove` may
-- leave the file.
pub record Disk (W : Type 0) : Type 0 where
  pub content : W → List ℕ → Option (List ℕ)
  pub exists : W → List ℕ → Bool
  pub rename : List ℕ → List ℕ → W → Bool × W
  pub remove : List ℕ → W → W

unfoldable pub names_from : List ℕ → ℕ → ℕ → List (List ℕ)
names_from target i zero = []
names_from target i (suc n) = volume_name target i ∷ names_from target (i + 1) n

unfoldable pub finals_of : List ℕ → ℕ → List (List ℕ)
finals_of target n = if n == 1 then target ∷ [] else names_from target 1 n

unfoldable pub stale_of : List ℕ → ℕ → List ℕ
stale_of target n = if n == 1 then volume_name target 1 else volume_name target (n + 1)

module _ {W : Type 0} (disk : Disk W) where
  -- The pairs that were moved and, from the first failure on, those that were not.
  unfoldable pub move_all :
      List (List ℕ × List ℕ) → W → List (List ℕ × List ℕ) × (List (List ℕ × List ℕ) × W)
  move_all [] w = ([], ([], w))
  move_all ((t, d) ∷ ps) w =
      let (renamed, w') = disk.rename t d w in
      elim renamed [
        | false ↦ ([], ((t, d) ∷ ps, w'))
        | true ↦ let (moved, (left, w'')) = move_all ps w' in ((t, d) ∷ moved, (left, w''))
      ]

  -- The temporary paths that hold their volumes again.
  unfoldable pub roll_back : List (List ℕ × List ℕ) → W → List (List ℕ) × W
  roll_back [] w = ([], w)
  roll_back ((t, d) ∷ ps) w =
      let (renamed, w') = disk.rename d t w in
      let (back, w'') = roll_back ps w' in (if renamed then t ∷ back else back, w'')

  -- `drop` of the temporary files that were not committed.
  unfoldable pub drop_all : List (List ℕ) → W → W
  drop_all [] w = w
  drop_all (t ∷ ts) w = drop_all ts (disk.remove t w)

  abbrev pub end_of :
      List (List ℕ)
      → List (List ℕ × List ℕ)
      → List (List ℕ × List ℕ)
      → W
      → Result (List (List ℕ)) × W
  end_of finals moved [] w = (ok finals, w)
  end_of finals moved (p ∷ ps) w =
      let (back, w') = roll_back moved w in
      (err output_error, drop_all (back ++ map (λ q. q.0) (p ∷ ps)) w')

  unfoldable pub commit : List (List ℕ) → List ℕ → W → Result (List (List ℕ)) × W
  commit [] target w = (err output_error, w)
  commit (t ∷ ts) target w =
      let n = length (t ∷ ts) in
      elim (disk.exists w (stale_of target n)) [
        | true ↦ (err stale_volume, drop_all (t ∷ ts) w)
        | false ↦
            let (moved, (left, w')) = move_all (zip (t ∷ ts) (finals_of target n)) w in
            end_of (finals_of target n) moved left w'
      ]
