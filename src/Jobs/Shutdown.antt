-- ===== src/Jobs/Shutdown.antt =====
-- jobs.rs: cancellation for good, and the end of the program.
use mathlib.Core.Path.{subst}
use zip_mania.Prelude.{
  ℕ, ◌≤◌, ◌≡◌, refl, sym, ap, arith, Bool, true, false, some, List, [], ◌∷◌, length, All, All-map,
  ◌⊎◌, Bool-cases, some-injective, or_true, inl, inr, eq_list, eq_list_refl,
}
use zip_mania.Errors.{err, job_busy, window_closed}
use zip_mania.Jobs.{
  ActiveEntry, JobInfo, JobManager, raise, contains, lookup, remove, next_id, start, cancel,
  retire_session, finish, cancel_entries, begin_shutdown, all_retired,
}
use zip_mania.Jobs.Flags.{
  Rises, Rises-refl, Rises-trans, raise-Rises, append-Rises, Canceled, Entries,
  retire_entries-Rises, cancel_entries-Rises, raise-sets, Held,
}
use zip_mania.Jobs.Invariant.{
  IsValid, Step, Steps, issue, starts, cancels, retires, finishes, closes, done, more,
  start_accepted, start_cases, cancel_cases, Steps-IsValid,
}

-- What no call takes back.
pub record Grows (m m' : JobManager) : Type 0 where
  pub flags_rise : Rises m.flags m'.flags
  pub stays_closing : m.state.closing ≡ true → m'.state.closing ≡ true
  pub stays_retired :
      (s : List ℕ) → contains s m.state.retired ≡ true → contains s m'.state.retired ≡ true

Grows-refl : (m : JobManager) → Grows m m
Grows-refl m = record {
  flags_rise = Rises-refl m.flags;
  stays_closing = λ h. h;
  stays_retired = λ s h. h;
}

Step-Grows : {m m' : JobManager} → Step m m' → Grows m m'
unfolding next_id retire_session finish begin_shutdown contains
Step-Grows (issue m) = record {
  flags_rise = Rises-refl m.flags;
  stays_closing = λ h. h;
  stays_retired = λ s h. h;
}
Step-Grows (starts id info m) = elim (start_cases id info m) [
  | inr (c, e) ↦ subst (Grows m) (sym (ap (λ p. p.1) e)) (Grows-refl m)
  | inl a ↦ subst (Grows m) (sym (ap (λ p. p.1) (start_accepted id info m a))) (record {
    flags_rise = append-Rises m.flags (false ∷ []);
    stays_closing = λ h. h;
    stays_retired = λ s h. h;
  })
]
Step-Grows (cancels id m) = elim (cancel_cases id m) [
  | inl e ↦ subst (Grows m) (sym (ap (λ p. p.1) e)) (Grows-refl m)
  | inr (a, e) ↦ subst (Grows m) (sym (ap (λ p. p.1) e)) (record {
    flags_rise = raise-Rises a.cancel_flag m.flags;
    stays_closing = λ h. h;
    stays_retired = λ s h. h;
  })
]
Step-Grows (retires session m) = record {
  flags_rise = retire_entries-Rises session m.state.active m.flags 0;
  stays_closing = λ h. h;
  stays_retired = λ s h. rw h (or_true (eq_list s session));
}
Step-Grows (finishes id m) = record {
  flags_rise = Rises-refl m.flags;
  stays_closing = λ h. h;
  stays_retired = λ s h. h;
}
Step-Grows (closes m) = record {
  flags_rise = cancel_entries-Rises m.state.active m.flags;
  stays_closing = λ h. refl;
  stays_retired = λ s h. h;
}

-- A cancellation that a worker has seen, a shutdown and a withdrawal are never taken back by
-- further calls.
pub Steps-Grows : {m m' : JobManager} → Steps m m' → Grows m m'
Steps-Grows {m} done = Grows-refl m
Steps-Grows (more s ss) =
    let g = Step-Grows s in
    let k = Steps-Grows ss in
    record {
      flags_rise = Rises-trans g.flags_rise k.flags_rise;
      stays_closing = λ h. k.stays_closing (g.stays_closing h);
      stays_retired = λ s h. k.stays_retired s (g.stays_retired s h);
    }

start_closing :
    (id : List ℕ) (info : JobInfo) (m : JobManager)
    → m.state.closing ≡ true
    → start id info m ≡ (err job_busy, m)
unfolding start
start_closing id info m h = rw h refl

begin_shutdown-closing : (m : JobManager) → (begin_shutdown m).1.state.closing ≡ true
unfolding begin_shutdown
begin_shutdown-closing m = refl

-- After `begin_shutdown`, however the calls go on: no job starts, and every job that still runs is
-- canceled.
pub shutdown_final :
    {m m' : JobManager} (id : List ℕ) (info : JobInfo)
    → IsValid m
    → Steps (begin_shutdown m).1 m'
    → (start id info m' ≡ (err job_busy, m')) × All (λ p. Canceled m'.flags p.1) m'.state.active
shutdown_final {m} {m'} id info v ss =
    let on = (Steps-Grows ss).stays_closing (begin_shutdown-closing m) in
    (start_closing id info m' on, (Steps-IsValid v (more (closes m) ss)).closed on)

-- Every job of a snapshot is finished, in its order.
abbrev pub finish_all : List (List ℕ × JobInfo) → JobManager → JobManager
finish_all [] m = m
finish_all ((id, info) ∷ rest) m = finish_all rest (finish id m)

finish_all-one :
    (xs : Entries) (fs : List Bool) (m : JobManager)
    → length xs ≤ 1
    → m.state.active ≡ xs
    → all_retired (finish_all (cancel_entries xs fs).1 m) ≡ true
unfolding all_retired cancel_entries finish remove
finish_all-one [] fs m one h = rw h refl
finish_all-one ((k, e) ∷ []) fs m one h = rw (h, eq_list_refl k) refl
finish_all-one (p ∷ q ∷ xs) fs m one h = absurd (omega arith)

-- Once the jobs that `begin_shutdown` reported are finished, nothing is left to wait for.
pub shutdown_drains :
    (m : JobManager)
    → IsValid m
    → all_retired (finish_all (begin_shutdown m).0 (begin_shutdown m).1) ≡ true
unfolding begin_shutdown
shutdown_drains m v = finish_all-one m.state.active m.flags (begin_shutdown m).1 v.one refl

lookup-All :
    (P : ActiveEntry → Type 0) (id : List ℕ) (xs : Entries) {e : ActiveEntry}
    → All (λ p. P p.1) xs
    → lookup id xs ≡ some e
    → P e
unfolding lookup
lookup-All P id [] h q = cc
lookup-All P id ((k, a) ∷ xs) h q = elim (Bool-cases (eq_list id k)) [
  | inl w ↦ subst P (some-injective (rw w at q)) h.0
  | inr w ↦ lookup-All P id xs h.1 (rw w at q)
]

cancel_found :
    (id : List ℕ) (m : JobManager) {e : ActiveEntry}
    → lookup id m.state.active ≡ some e
    → cancel id m ≡ (true, record m { flags = raise e.cancel_flag m.flags })
unfolding cancel
cancel_found id m h = rw (h, cancel) refl

-- A cancellation of a running job is answered with true, sets the flag that its worker reads, and
-- stands through all further calls.
pub cancel_final :
    (id : List ℕ) (m : JobManager) {e : ActiveEntry} {m' : JobManager}
    → IsValid m
    → lookup id m.state.active ≡ some e
    → Steps (cancel id m).1 m'
    → ((cancel id m).0 ≡ true) × Canceled m'.flags e
cancel_final id m {e} {m'} v h ss =
    let q = cancel_found id m h in
    let set : Canceled (raise e.cancel_flag m.flags) e =
      raise-sets e.cancel_flag m.flags (lookup-All (Held m.flags) id m.state.active v.held h) in
    (
      ap (λ p. p.0) q,
      (Steps-Grows ss).flags_rise.keeps e.cancel_flag
          (subst (λ p. Canceled p.1.flags e) (sym q) set),
    )

start_withdrawn :
    (id : List ℕ) (info : JobInfo) (m : JobManager)
    → contains info.owner m.state.retired ≡ true
    → ((start id info m).0 ≡ err job_busy) ⊎ ((start id info m).0 ≡ err window_closed)
unfolding start
start_withdrawn id info m h = elim (Bool-cases m.state.closing) [
  | inl e ↦ inl (rw e refl)
  | inr e ↦ inr (rw (e, h) refl)
]

retire_session-retired :
    (s : List ℕ) (m : JobManager) → contains s (retire_session s m).1.state.retired ≡ true
unfolding retire_session contains
retire_session-retired s m = rw (eq_list_refl s) refl

-- After `retire_session`, however the calls go on: no job of the session starts, and every job of
-- it that still runs is canceled.
pub retired_final :
    {m m' : JobManager} (id : List ℕ) (info : JobInfo)
    → IsValid m
    → Steps (retire_session info.owner m).1 m'
    → (((start id info m').0 ≡ err job_busy) ⊎ ((start id info m').0 ≡ err window_closed))
      × All (λ p. p.1.info.owner ≡ info.owner → Canceled m'.flags p.1) m'.state.active
retired_final {m} {m'} id info v ss =
    let on = (Steps-Grows ss).stays_retired info.owner (retire_session-retired info.owner m) in
    let w = Steps-IsValid v (more (retires info.owner m) ss) in
    (start_withdrawn id info m' on, All-map _ _ (λ p h q. h (rw q on)) m'.state.active w.withdrawn)
