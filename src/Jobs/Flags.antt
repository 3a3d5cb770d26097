-- ===== src/Jobs/Flags.antt =====
-- jobs.rs: the shared cancel flags, which only ever rise.
use mathlib.Core.Path.{subst}
use zip_mania.Prelude.{
  ℕ, zero, suc, ◌+◌, ◌≤◌, ◌<◌, ◌≡◌, refl, sym, ap, arith, Bool, true, false, List, [], ◌∷◌, ◌++◌,
  length, length-append, get_or, All, Bool-cases, false_not_true, inl, inr,
}
use zip_mania.Jobs.{ActiveEntry, raise, owned_by, retire_entries, cancel_entries}

-- What the worker that holds place `i` reads.
abbrev pub flag_at : List Bool → ℕ → Bool
flag_at flags i = get_or flags i false

-- No flag is lost, and none that is set is cleared.
pub record Rises (fs gs : List Bool) : Type 0 where
  pub long : length fs ≤ length gs
  pub keeps : (i : ℕ) → flag_at fs i ≡ true → flag_at gs i ≡ true

pub Rises-refl : (fs : List Bool) → Rises fs fs
Rises-refl fs = record { long = omega arith; keeps = λ i h. h }

pub Rises-trans : {fs gs hs : List Bool} → Rises fs gs → Rises gs hs → Rises fs hs
Rises-trans p q = record {
  long = omega (arith, p.long, q.long);
  keeps = λ i h. q.keeps i (p.keeps i h);
}

length-raise : (i : ℕ) (fs : List Bool) → length (raise i fs) ≡ length fs
unfolding raise
length-raise i [] = refl
length-raise zero (b ∷ fs) = refl
length-raise (suc i) (b ∷ fs) = ap suc (length-raise i fs)

flag_at-raise :
    (i : ℕ) (fs : List Bool) (j : ℕ) → flag_at fs j ≡ true → flag_at (raise i fs) j ≡ true
unfolding raise
flag_at-raise i [] j h = h
flag_at-raise zero (b ∷ fs) zero h = refl
flag_at-raise zero (b ∷ fs) (suc j) h = h
flag_at-raise (suc i) (b ∷ fs) zero h = h
flag_at-raise (suc i) (b ∷ fs) (suc j) h = flag_at-raise i fs j h

pub raise-Rises : (i : ℕ) (fs : List Bool) → Rises fs (raise i fs)
raise-Rises i fs = record { long = omega (arith, length-raise i fs); keeps = flag_at-raise i fs }

pub raise-sets : (i : ℕ) (fs : List Bool) → i < length fs → flag_at (raise i fs) i ≡ true
unfolding raise
raise-sets i [] h = absurd (omega arith)
raise-sets zero (b ∷ fs) h = refl
raise-sets (suc i) (b ∷ fs) h = raise-sets i fs (omega arith)

flag_at-append : (fs gs : List Bool) (i : ℕ) → flag_at fs i ≡ true → flag_at (fs ++ gs) i ≡ true
flag_at-append [] gs i h = cc
flag_at-append (b ∷ fs) gs zero h = h
flag_at-append (b ∷ fs) gs (suc i) h = flag_at-append fs gs i h

pub append-Rises : (fs gs : List Bool) → Rises fs (fs ++ gs)
append-Rises fs gs = record {
  long = omega (arith, length-append fs gs);
  keeps = flag_at-append fs gs;
}

-- The worker of the entry sees the cancellation.
abbrev pub Canceled : List Bool → ActiveEntry → Type 0
Canceled flags e = flag_at flags e.cancel_flag ≡ true

-- The entry's flag is there.
abbrev pub Held : List Bool → ActiveEntry → Type 0
Held flags e = e.cancel_flag < length flags

abbrev pub Entries : Type 0
Entries = List (List ℕ × ActiveEntry)

-- The loop of `retire_session` by cases.
module _ (s k : List ℕ) (e : ActiveEntry) (xs : Entries) (fs : List Bool) (n : ℕ) where
  retire_entries_owned :
      owned_by s e ≡ true
      → retire_entries s ((k, e) ∷ xs) fs n ≡ retire_entries s xs (raise e.cancel_flag fs) (n + 1)
  unfolding retire_entries
  retire_entries_owned h = rw (h, retire_entries) refl

  retire_entries_other :
      owned_by s e ≡ false → retire_entries s ((k, e) ∷ xs) fs n ≡ retire_entries s xs fs n
  unfolding retire_entries
  retire_entries_other h = rw (h, retire_entries) refl

pub retire_entries-Rises :
    (s : List ℕ) (xs : Entries) (fs : List Bool) (n : ℕ) → Rises fs (retire_entries s xs fs n).0
unfolding retire_entries
retire_entries-Rises s [] fs n = Rises-refl fs
retire_entries-Rises s ((k, e) ∷ xs) fs n = elim (Bool-cases (owned_by s e)) [
  | inl h ↦ rw (retire_entries_owned s k e xs fs n h) (
      Rises-trans (raise-Rises e.cancel_flag fs)
        (retire_entries-Rises s xs (raise e.cancel_flag fs) (n + 1)))
  | inr h ↦ rw (retire_entries_other s k e xs fs n h) (retire_entries-Rises s xs fs n)
]

pub cancel_entries-Rises : (xs : Entries) (fs : List Bool) → Rises fs (cancel_entries xs fs).0
unfolding cancel_entries
cancel_entries-Rises [] fs = Rises-refl fs
cancel_entries-Rises ((k, e) ∷ xs) fs =
    Rises-trans (raise-Rises e.cancel_flag fs) (cancel_entries-Rises xs (raise e.cancel_flag fs))

pub Held-Rises : {fs gs : List Bool} (e : ActiveEntry) → Rises fs gs → Held fs e → Held gs e
Held-Rises e r h = omega (arith, r.long)

pub All-Held-Rises :
    {fs gs : List Bool} (xs : Entries)
    → Rises fs gs
    → All (λ p. Held fs p.1) xs
    → All (λ p. Held gs p.1) xs
All-Held-Rises [] r h = tt
All-Held-Rises (p ∷ xs) r h = (Held-Rises p.1 r h.0, All-Held-Rises xs r h.1)

pub cancel_entries-Canceled :
    (xs : Entries) (fs : List Bool)
    → All (λ p. Held fs p.1) xs
    → All (λ p. Canceled (cancel_entries xs fs).0 p.1) xs
unfolding cancel_entries
cancel_entries-Canceled [] fs h = tt
cancel_entries-Canceled ((k, e) ∷ xs) fs h =
    let up = raise-Rises e.cancel_flag fs in
    (
      (cancel_entries-Rises xs (raise e.cancel_flag fs)).keeps e.cancel_flag
          (raise-sets e.cancel_flag fs h.0),
      cancel_entries-Canceled xs (raise e.cancel_flag fs) (All-Held-Rises xs up h.1),
    )

-- The session's jobs are canceled.
abbrev pub SessionCanceled : List ℕ → List Bool → Entries → Type 0
SessionCanceled s flags = All (λ p. owned_by s p.1 ≡ true → Canceled flags p.1)

pub retire_entries-Canceled :
    (s : List ℕ) (xs : Entries) (fs : List Bool) (n : ℕ)
    → All (λ p. Held fs p.1) xs
    → SessionCanceled s (retire_entries s xs fs n).0 xs
retire_entries-Canceled s [] fs n h = tt
retire_entries-Canceled s ((k, e) ∷ xs) fs n h = elim (Bool-cases (owned_by s e)) [
  | inl o ↦
      let up = raise-Rises e.cancel_flag fs in
      subst (λ r. SessionCanceled s r.0 ((k, e) ∷ xs)) (sym (retire_entries_owned s k e xs fs n o))
        (
          λ _.
              (retire_entries-Rises s xs (raise e.cancel_flag fs) (n + 1)).keeps e.cancel_flag
                (raise-sets e.cancel_flag fs h.0),
          retire_entries-Canceled s xs (raise e.cancel_flag fs) (n + 1) (All-Held-Rises xs up h.1),
        )
  | inr o ↦
      subst (λ r. SessionCanceled s r.0 ((k, e) ∷ xs)) (sym (retire_entries_other s k e xs fs n o))
        (λ o'. absurd (false_not_true o o'), retire_entries-Canceled s xs fs n h.1)
]
