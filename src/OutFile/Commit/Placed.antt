-- ===== src/OutFile/Commit/Placed.antt =====
-- outfile.rs: where the volumes are once a set is committed.
use mathlib.Core.List.{zip}
use mathlib.Core.Path.{subst}
use zip_mania.Prelude.{
  ℕ, ◌≡◌, ◌≢◌, refl, sym, ap, ◌∙◌, true, false, Bool-cases, inl, inr, none, List, [], ◌∷◌, All,
  length,
}
use zip_mania.Errors.{Result, ok}
use zip_mania.OutFile.Commit.{Disk, finals_of, stale_of, move_all, end_of, commit}

abbrev pub Pair : Type 0
Pair = List ℕ × List ℕ

-- The path is none of these.
abbrev pub Away : List ℕ → List Pair → Type 0
Away p ps = All (λ (q : Pair). (p ≢ q.0) × (p ≢ q.1)) ps

-- No path stands twice.
abbrev pub Apart : List Pair → Type 0
Apart [] = Unit {0}
Apart ((t, d) ∷ ps) = (t ≢ d) × (Away t ps × (Away d ps × Apart ps))

-- What a rename does where it succeeds, and that it leaves the other paths alone.
pub record Renames {W : Type 0} (disk : Disk W) : Type 0 where
  pub takes :
      (t d : List ℕ) (w : W)
      → t ≢ d
      → (disk.rename t d w).0 ≡ true
      → (disk.content (disk.rename t d w).1 d ≡ disk.content w t)
        × (disk.content (disk.rename t d w).1 t ≡ none)
  pub keeps :
      (t d p : List ℕ) (w : W)
      → p ≢ t
      → p ≢ d
      → disk.content (disk.rename t d w).1 p ≡ disk.content w p

module _ {W : Type 0} (disk : Disk W) (laws : Renames disk) where
  -- The file of the second path is what the first one held, which is free.
  abbrev pub IsPlaced : W → W → Pair → Type 0
  IsPlaced w w' q = (disk.content w' q.1 ≡ disk.content w q.0) × (disk.content w' q.0 ≡ none)

  move_all-frame :
      (ps : List Pair) (w : W) (p : List ℕ)
      → Away p ps
      → disk.content (move_all disk ps w).1.1 p ≡ disk.content w p
  unfolding move_all
  move_all-frame [] w p a = refl
  move_all-frame ((t, d) ∷ ps) w p a = elim (Bool-cases (disk.rename t d w).0) [
    | inl e ↦
        rw (e, move_all)
          (move_all-frame ps (disk.rename t d w).1 p a.1 ∙ laws.keeps t d p w a.0.0 a.0.1)
    | inr e ↦ rw (e, move_all) (laws.keeps t d p w a.0.0 a.0.1)
  ]

  -- What was said of the disk behind a rename holds of the one before it.
  move_back :
      (t d : List ℕ) (w w' : W) (ps : List Pair)
      → Away t ps
      → Away d ps
      → All (IsPlaced (disk.rename t d w).1 w') ps
      → All (IsPlaced w w') ps
  move_back t d w w' [] a b h = tt
  move_back t d w w' (q ∷ ps) a b h = (
    (h.0.0 ∙ laws.keeps t d q.0 w (λ e. a.0.0 (sym e)) (λ e. b.0.0 (sym e)), h.0.1),
    move_back t d w w' ps a.1 b.1 h.1,
  )

  move_all_lem :
      (t d : List ℕ) (ps : List Pair) (w : W)
      → (disk.rename t d w).0 ≡ true
      → (move_all disk ps (disk.rename t d w).1).1.1 ≡ (move_all disk ((t, d) ∷ ps) w).1.1
  unfolding move_all
  move_all_lem t d ps w e = rw (e, move_all) refl

  move_all-IsPlaced :
      (ps : List Pair) (w : W)
      → Apart ps
      → (move_all disk ps w).1.0 ≡ []
      → All (IsPlaced w (move_all disk ps w).1.1) ps
  unfolding move_all
  move_all-IsPlaced [] w a h = tt
  move_all-IsPlaced ((t, d) ∷ ps) w a h =
      let w' = (disk.rename t d w).1 in
      elim (Bool-cases (disk.rename t d w).0) [
        | inr e ↦ cc (rw (e, move_all) at h)
        | inl e ↦
            let moved = laws.takes t d w a.0 e in
            subst (λ v. All (IsPlaced w v) ((t, d) ∷ ps)) (move_all_lem t d ps w e)
              ((
                (move_all-frame ps w' d a.1.1.0 ∙ moved.0, move_all-frame ps w' t a.1.0 ∙ moved.1),
                move_back t d w (move_all disk ps w').1.1 ps a.1.0 a.1.1.0
                    (move_all-IsPlaced ps w' a.1.1.1 (rw (e, move_all) at h)),
              ))
      ]

  ended :
      (finals : List (List ℕ)) (moved left : List Pair) (w : W) {named : List (List ℕ)} {w' : W}
      → end_of disk finals moved left w ≡ (ok named, w')
      → (left ≡ []) × ((finals ≡ named) × (w ≡ w'))
  ended finals moved [] w h = (refl, (cc, ap (λ (r : Result (List (List ℕ)) × W). r.1) h))
  ended finals moved (p ∷ ps) w h = cc

  -- A commit that succeeds returns the names of its volumes, for one volume the target alone; the name
  -- behind the last was not on the disk, and the file of each name is what the temporary file held,
  -- which is gone, where the paths all differ.
  pub commit-IsPlaced :
      (temps : List (List ℕ)) (target : List ℕ) (w : W) {named : List (List ℕ)} {w' : W}
      → Apart (zip temps (finals_of target (length temps)))
      → commit disk temps target w ≡ (ok named, w')
      → (named ≡ finals_of target (length temps))
        × ((disk.exists w (stale_of target (length temps)) ≡ false)
            × All (IsPlaced w w') (zip temps (finals_of target (length temps))))
  unfolding commit
  commit-IsPlaced [] target w a h = cc
  commit-IsPlaced (t ∷ ts) target w a h =
      let pairs = zip (t ∷ ts) (finals_of target (length (t ∷ ts))) in
      elim (Bool-cases (disk.exists w (stale_of target (length (t ∷ ts))))) [
        | inl e ↦ cc (rw (e, commit) at h)
        | inr e ↦
            let end =
              ended (finals_of target (length (t ∷ ts))) (move_all disk pairs w).0
                (move_all disk pairs w).1.0 (move_all disk pairs w).1.1 (rw (e, commit) at h) in
            (
              sym end.1.0,
              (
                e,
                subst (λ v. All (IsPlaced w v) pairs) end.1.1 (move_all-IsPlaced pairs w a end.0),
              ),
            )
      ]
