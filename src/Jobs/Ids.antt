-- ===== src/Jobs/Ids.antt =====
-- jobs.rs: no two jobs get one id.
use mathlib.Core.Path.{subst}
use zip_mania.Prelude.{ℕ, ◌+◌, ◌%◌, ◌^◌, ◌<◌, ◌≡◌, ◌≢◌, refl, sym, ap, arith, inl, inr, drop}
use zip_mania.Prelude.Digits.{to_digits-injective}
use zip_mania.Jobs.{JobManager, next_id, retire_session, finish, begin_shutdown}
use zip_mania.Jobs.Invariant.{
  Step, Steps, issue, starts, cancels, retires, finishes, closes, done, more, start_cases,
  start_accepted, cancel_cases,
}

-- How many ids a call, and a sequence of them, issues.
unfoldable pub issued : {m m' : JobManager} → Step m m' → ℕ
issued (issue m) = 1
issued (starts id info m) = 0
issued (cancels id m) = 0
issued (retires session m) = 0
issued (finishes id m) = 0
issued (closes m) = 0

unfoldable pub issues : {m m' : JobManager} → Steps m m' → ℕ
issues done = 0
issues (more s ss) = issued s + issues ss

counter-next_id : (m : JobManager) → (next_id m).1.counter ≡ (m.counter + 1) % 2 ^ 64
unfolding next_id
counter-next_id m = refl

next_id-injective :
    (m m' : JobManager)
    → (next_id m).0 ≡ (next_id m').0
    → (m.counter + 1) % 2 ^ 64 ≡ (m'.counter + 1) % 2 ^ 64
unfolding next_id
next_id-injective m m' h =
    to_digits-injective ((m.counter + 1) % 2 ^ 64) ((m'.counter + 1) % 2 ^ 64) (ap (drop 4) h)

-- The counter of the manager counts the ids, around its width.
abbrev Counts : JobManager → JobManager → ℕ → Type 0
Counts m m' n = m'.counter % 2 ^ 64 ≡ (m.counter + n) % 2 ^ 64

Step-Counts : {m m' : JobManager} (s : Step m m') → Counts m m' (issued s)
unfolding next_id retire_session finish begin_shutdown issued
Step-Counts (issue m) = omega arith
Step-Counts (starts id info m) = elim (start_cases id info m) [
  | inr (c, e) ↦ subst (λ k. Counts m k.1 0) (sym e) (omega arith)
  | inl a ↦ subst (λ k. Counts m k.1 0) (sym (start_accepted id info m a)) (omega arith)
]
Step-Counts (cancels id m) = elim (cancel_cases id m) [
  | inl e ↦ subst (λ k. Counts m k.1 0) (sym e) (omega arith)
  | inr (a, e) ↦ subst (λ k. Counts m k.1 0) (sym e) (omega arith)
]
Step-Counts (retires session m) = omega arith
Step-Counts (finishes id m) = omega arith
Step-Counts (closes m) = omega arith

Steps-Counts : {m m' : JobManager} (ss : Steps m m') → Counts m m' (issues ss)
unfolding issues
Steps-Counts done = omega arith
Steps-Counts (more s ss) = omega (arith, Step-Counts s, Steps-Counts ss)

-- An id that was issued is not issued again, whatever calls come between, as long as they issue fewer
-- than 2 ^ 64 - 1 ids.
pub next_id-fresh :
    (m : JobManager) {m' : JobManager} (ss : Steps (next_id m).1 m')
    → issues ss + 1 < 2 ^ 64
    → (next_id m').0 ≢ (next_id m).0
next_id-fresh m {m'} ss few e =
    let later : m'.counter % 2 ^ 64 ≡ ((next_id m).1.counter + issues ss) % 2 ^ 64 =
      Steps-Counts ss in
    omega (arith, counter-next_id m, later, few, next_id-injective m' m e)
