-- ===== src/Jobs/Invariant.antt =====
-- jobs.rs: what holds of the manager after any sequence of calls, in any order.
use mathlib.Core.Path.{subst}
use zip_mania.Prelude.{
  ℕ, ◌≤◌, ◌≡◌, refl, sym, ap, arith, Bool, true, false, not, Option-cases, List, [], ◌∷◌, ◌++◌,
  length, length-append, All, All-map, All-map2, ◌⊎◌, Bool-cases, false_not_true, inl, inr, eq_list,
}
use zip_mania.Errors.{Code, ok, err, job_busy, window_closed}
use zip_mania.Jobs.{
  ActiveEntry, JobInfo, JobManager, new, raise, contains, lookup, remove, next_id, is_empty, start,
  cancel, owned_by, retire_entries, retire_session, finish, begin_shutdown,
}
use zip_mania.Jobs.Flags.{
  Rises, raise-Rises, Canceled, Held, Entries, retire_entries-Rises, cancel_entries-Rises,
  All-Held-Rises, cancel_entries-Canceled, retire_entries-Canceled,
}

-- At most one job runs; every running job's flag is there; while the program closes every running
-- job is canceled, and so is every running job of a session that has withdrawn.
pub record IsValid (m : JobManager) : Type 0 where
  pub one : length m.state.active ≤ 1
  pub held : All (λ p. Held m.flags p.1) m.state.active
  pub closed : m.state.closing ≡ true → All (λ p. Canceled m.flags p.1) m.state.active
  pub withdrawn :
      All
        (λ p. contains p.1.info.owner m.state.retired ≡ true → Canceled m.flags p.1)
        m.state.active

-- One call, of any thread.
pub data Step : JobManager → JobManager → Type 0 where
  issue : (m : JobManager) → Step m (next_id m).1
  starts : (id : List ℕ) (info : JobInfo) (m : JobManager) → Step m (start id info m).1
  cancels : (id : List ℕ) (m : JobManager) → Step m (cancel id m).1
  retires : (session : List ℕ) (m : JobManager) → Step m (retire_session session m).1
  finishes : (id : List ℕ) (m : JobManager) → Step m (finish id m)
  closes : (m : JobManager) → Step m (begin_shutdown m).1

pub data Steps : JobManager → JobManager → Type 0 where
  done : {m : JobManager} → Steps m m
  more : {m m' m'' : JobManager} → Step m m' → Steps m' m'' → Steps m m''

new-IsValid : IsValid new
new-IsValid = record { one = omega arith; held = tt; closed = λ e. cc; withdrawn = tt }

All-remove :
    (P : List ℕ × ActiveEntry → Type 0) (id : List ℕ) (xs : Entries)
    → All P xs
    → All P (remove id xs)
unfolding remove
All-remove P id [] h = tt
All-remove P id ((k, e) ∷ xs) h = elim (Bool-cases (eq_list id k)) [
  | inl q ↦ rw q (All-remove P id xs h.1)
  | inr q ↦ rw q (h.0, All-remove P id xs h.1)
]

length-remove : (id : List ℕ) (xs : Entries) → length (remove id xs) ≤ length xs
unfolding remove
length-remove id [] = omega arith
length-remove id ((k, e) ∷ xs) = elim (Bool-cases (eq_list id k)) [
  | inl q ↦ rw q (omega (arith, length-remove id xs))
  | inr q ↦ rw q (omega (arith, length-remove id xs))
]

nothing_active {ℓ} : {A : Type ℓ} (xs : List A) → not (is_empty xs) ≡ false → xs ≡ []
nothing_active [] h = refl
nothing_active (x ∷ xs) h = cc

-- The manager after a job was started.
abbrev pub started : List ℕ → JobInfo → JobManager → JobManager
started id info m = record m {
  state = record (m.state) {
    active = (id, record { cancel_flag = length m.flags; info = info }) ∷ [];
  };
  flags = m.flags ++ false ∷ [];
}

-- Nothing stands in the way of a job of this session.
pub record Accepts (owner : List ℕ) (m : JobManager) : Type 0 where
  pub running : m.state.closing ≡ false
  pub present : contains owner m.state.retired ≡ false
  pub idle : m.state.active ≡ []

pub start_accepted :
    (id : List ℕ) (info : JobInfo) (m : JobManager)
    → Accepts info.owner m
    → start id info m ≡ (ok (length m.flags), started id info m)
unfolding start remove
start_accepted id info m a = rw (a.running, a.present, a.idle) refl

-- A call of `start` succeeds, or changes nothing.
pub start_cases :
    (id : List ℕ) (info : JobInfo) (m : JobManager)
    → Accepts info.owner m ⊎ ((c : Code) × (start id info m ≡ (err c, m)))
unfolding start
start_cases id info m = elim (Bool-cases m.state.closing) [
  | inl e ↦ inr (job_busy, rw e refl)
  | inr e ↦ elim (Bool-cases (contains info.owner m.state.retired)) [
    | inl q ↦ inr (window_closed, rw (e, q) refl)
    | inr q ↦ elim (Bool-cases (not (is_empty m.state.active))) [
      | inl w ↦ inr (job_busy, rw (e, q, w) refl)
      | inr w ↦ inl (record { running = e; present = q; idle = nothing_active m.state.active w })
    ]
  ]
]

pub cancel_cases :
    (id : List ℕ) (m : JobManager)
    → (cancel id m ≡ (false, m))
      ⊎ ((e : ActiveEntry) × (cancel id m
            ≡ (true, record m { flags = raise e.cancel_flag m.flags })))
unfolding cancel
cancel_cases id m = elim (Option-cases (lookup id m.state.active)) [
  | inl e ↦ inl (rw (e, cancel) refl)
  | inr (a, e) ↦ inr (a, rw (e, cancel) refl)
]

-- With the same jobs, and no flag lowered.
raised-IsValid :
    {m : JobManager} (v : IsValid m) (fs : List Bool)
    → Rises m.flags fs
    → IsValid (record m { flags = fs })
raised-IsValid {m} v fs r = record {
  one = v.one;
  held = All-Held-Rises m.state.active r v.held;
  closed = λ e.
      All-map (λ p. Canceled m.flags p.1) (λ p. Canceled fs p.1) (λ p. r.keeps p.1.cancel_flag)
        m.state.active (v.closed e);
  withdrawn =
      All-map (λ p. contains p.1.info.owner m.state.retired ≡ true → Canceled m.flags p.1)
        (λ p. contains p.1.info.owner m.state.retired ≡ true → Canceled fs p.1)
        (λ p h q. r.keeps p.1.cancel_flag (h q)) m.state.active v.withdrawn;
}

-- A job of a session that has withdrawn withdrew now or earlier.
either_canceled :
    (retired : List (List ℕ)) (fs : List Bool) (session : List ℕ) (e : ActiveEntry)
    → (owned_by session e ≡ true → Canceled fs e)
    → (contains e.info.owner retired ≡ true → Canceled fs e)
    → contains e.info.owner (session ∷ retired) ≡ true
    → Canceled fs e
unfolding contains owned_by
either_canceled retired fs session e own old h = elim (Bool-cases (eq_list e.info.owner session)) [
  | inl q ↦ own q
  | inr q ↦ old (rw q at h)
]

module _ {m : JobManager} (v : IsValid m) where
  next_id-IsValid : IsValid (next_id m).1
  unfolding next_id
  next_id-IsValid = record {
    one = v.one;
    held = v.held;
    closed = v.closed;
    withdrawn = v.withdrawn;
  }

  start-IsValid : (id : List ℕ) (info : JobInfo) → IsValid (start id info m).1
  start-IsValid id info = elim (start_cases id info m) [
    | inr (c, e) ↦ subst IsValid (sym (ap (λ p. p.1) e)) v
    | inl a ↦ subst IsValid (sym (ap (λ p. p.1) (start_accepted id info m a))) (record {
      one = omega arith;
      held = (omega (arith, length-append m.flags (false ∷ [])), tt);
      closed = λ e. absurd (false_not_true a.running e);
      withdrawn = (λ e. absurd (false_not_true a.present e), tt);
    })
  ]

  cancel-IsValid : (id : List ℕ) → IsValid (cancel id m).1
  cancel-IsValid id = elim (cancel_cases id m) [
    | inl e ↦ subst IsValid (sym (ap (λ p. p.1) e)) v
    | inr (a, e) ↦
        subst IsValid (sym (ap (λ p. p.1) e))
          (raised-IsValid v _ (raise-Rises a.cancel_flag m.flags))
  ]

  finish-IsValid : (id : List ℕ) → IsValid (finish id m)
  unfolding finish
  finish-IsValid id = record {
    one = omega (arith, length-remove id m.state.active, v.one);
    held = All-remove _ id m.state.active v.held;
    closed = λ e. All-remove (λ p. Canceled m.flags p.1) id m.state.active (v.closed e);
    withdrawn = All-remove _ id m.state.active v.withdrawn;
  }

  begin_shutdown-IsValid : IsValid (begin_shutdown m).1
  unfolding begin_shutdown
  begin_shutdown-IsValid =
      let r = cancel_entries-Rises m.state.active m.flags in
      let w = raised-IsValid v _ r in
      record {
        one = w.one;
        held = w.held;
        closed = λ e. cancel_entries-Canceled m.state.active m.flags v.held;
        withdrawn = w.withdrawn;
      }

  retire_session-IsValid : (session : List ℕ) → IsValid (retire_session session m).1
  unfolding retire_session
  retire_session-IsValid session =
      let r = retire_entries-Rises session m.state.active m.flags 0 in
      let w = raised-IsValid v _ r in
      record {
        one = w.one;
        held = w.held;
        closed = w.closed;
        withdrawn =
            All-map2
              (λ p.
                owned_by session p.1 ≡ true
                → Canceled (retire_entries session m.state.active m.flags 0).0 p.1)
              (λ p.
                contains p.1.info.owner m.state.retired ≡ true
                → Canceled (retire_entries session m.state.active m.flags 0).0 p.1)
              _ (λ p own old q. either_canceled m.state.retired _ session p.1 own old q)
              m.state.active (retire_entries-Canceled session m.state.active m.flags 0 v.held)
              w.withdrawn;
      }

Step-IsValid : {m m' : JobManager} → IsValid m → Step m m' → IsValid m'
Step-IsValid v (issue m) = next_id-IsValid v
Step-IsValid v (starts id info m) = start-IsValid v id info
Step-IsValid v (cancels id m) = cancel-IsValid v id
Step-IsValid v (retires session m) = retire_session-IsValid v session
Step-IsValid v (finishes id m) = finish-IsValid v id
Step-IsValid v (closes m) = begin_shutdown-IsValid v

pub Steps-IsValid : {m m' : JobManager} → IsValid m → Steps m m' → IsValid m'
Steps-IsValid v done = v
Steps-IsValid v (more s ss) = Steps-IsValid (Step-IsValid v s) ss

-- After any sequence of calls on a new manager at most one job runs, every running job has its
-- flag, all running jobs are canceled once the program closes, and the running jobs of a session
-- that has withdrawn are canceled.
pub reachable-IsValid : {m : JobManager} → Steps new m → IsValid m
reachable-IsValid ss = Steps-IsValid new-IsValid ss
