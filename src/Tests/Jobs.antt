-- ===== src/Tests/Jobs.antt =====
-- The job manager of jobs.rs: runs with two jobs, a withdrawal and a shutdown.
use zip_mania.Prelude.{
  ℕ, arith, ◌≡◌, ◌≢◌, refl, true, false, none, some, List, [], ◌∷◌, ◌⊎◌, All, eq_list,
}
use zip_mania.Prelude.Digits.{to_digits, digits_from}
use zip_mania.Errors.{err, job_busy, window_closed}
use zip_mania.Jobs.{
  JobInfo, JobManager, new, next_id, start, cancel, retire_session, finish, begin_shutdown,
  all_retired, raise, contains, lookup, remove, owned_by, retire_entries, cancel_entries,
}
use zip_mania.Jobs.Flags.{Canceled}
use zip_mania.Jobs.Gate.{ProgressGate, Event, Spaced, sent, finals, sent-Spaced}
use zip_mania.Jobs.Gate
use zip_mania.Jobs.Ids.{issues, issued, next_id-fresh}
use zip_mania.Jobs.Invariant.{
  issue, IsValid, Steps, done, more, starts, finishes, reachable-IsValid,
}
use zip_mania.Jobs.Shutdown.{
  finish_all, shutdown_final, shutdown_drains, cancel_final, retired_final,
}

abbrev compress_window : List ℕ
compress_window = 0x63 ∷ []

abbrev job : JobInfo
job = record { kind = 0x61 ∷ []; target = 0x62 ∷ []; owner = compress_window }

abbrev id1 : List ℕ
id1 = 0x6A ∷ 0x31 ∷ []

abbrev busy : JobManager
busy = record {
  counter = 0;
  state = record {
    active = (id1, record { cancel_flag = 0; info = job }) ∷ [];
    retired = [];
    closing = false;
  };
  flags = false ∷ [];
}

-- Unfolded where the runs are checked.
program : Unit {0}
unfolding next_id to_digits digits_from start cancel retire_session finish begin_shutdown raise
    contains lookup remove owned_by retire_entries cancel_entries eq_list all_retired
program = tt

started_once : (start id1 job new).1 ≡ busy
unfolding start contains remove
started_once = refl

second_refused : (start id1 job busy).0 ≡ err job_busy
unfolding start contains
second_refused = refl

first_id : (next_id new).0 ≡ 0x6A ∷ 0x6F ∷ 0x62 ∷ 0x2D ∷ 0x31 ∷ []
unfolding next_id to_digits digits_from
first_id = refl

reached : Steps new busy
unfolding start contains remove
reached = more (starts id1 job new) done

reachable-IsValid_example : IsValid busy
reachable-IsValid_example = reachable-IsValid reached

found : lookup id1 busy.state.active ≡ some (record { cancel_flag = 0; info = job })
unfolding lookup eq_list
found = refl

cancel_final_example :
    ((cancel id1 busy).0 ≡ true)
    × Canceled (finish id1 (cancel id1 busy).1).flags (record { cancel_flag = 0; info = job })
cancel_final_example =
    cancel_final id1 busy (reachable-IsValid reached) found
      (more (finishes id1 (cancel id1 busy).1) done)

abbrev closing : JobManager
closing = (begin_shutdown busy).1

shutdown_final_example :
    (start id1 job closing ≡ (err job_busy, closing))
    × All (λ p. Canceled closing.flags p.1) closing.state.active
shutdown_final_example = shutdown_final id1 job (reachable-IsValid reached) done

shutdown_drains_example : all_retired (finish_all (begin_shutdown busy).0 closing) ≡ true
shutdown_drains_example = shutdown_drains busy (reachable-IsValid reached)

abbrev withdrawn : JobManager
withdrawn = (retire_session compress_window busy).1

retired_final_example :
    (((start id1 job withdrawn).0 ≡ err job_busy)
      ⊎ ((start id1 job withdrawn).0 ≡ err window_closed))
    × All
        (λ p. p.1.info.owner ≡ compress_window → Canceled withdrawn.flags p.1)
        withdrawn.state.active
retired_final_example = retired_final id1 job (reachable-IsValid reached) done

next_id-fresh_example : (next_id (next_id (next_id new).1).1).0 ≢ (next_id new).0
unfolding issues issued
next_id-fresh_example = next_id-fresh new (more (issue (next_id new).1) done) (omega arith)

abbrev events : List Event
events = (1, 0) ∷ (2, 10) ∷ (3, 50) ∷ (4, 51) ∷ (100, 52) ∷ []

sent-events : sent events Gate.new ≡ (1, 0) ∷ (3, 50) ∷ (100, 52) ∷ []
unfolding sent Gate.allow_at
sent-events = refl

sent-Spaced_example :
    Spaced none (sent events Gate.new) × (finals (sent events Gate.new) ≡ finals events)
sent-Spaced_example = sent-Spaced events Gate.new
