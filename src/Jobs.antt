-- ===== src/Jobs.antt =====
-- src-tauri/src/jobs.rs: the manager of running jobs. Texts are lists of code points. A cancel flag
-- is an `Arc<AtomicBool>` that the worker and the entry share: here a place in `flags`, which
-- nothing frees. A call holds the lock from its first access to its last, so it is one step.
pub mod Gate
pub mod Flags
pub mod Ids
pub mod Invariant
pub mod Shutdown
use zip_mania.Prelude.{
  ℕ, zero, suc, ◌+◌, ◌/◌, ◌%◌, ◌^◌, Bool, true, false, not, Option, none, some, List, [], ◌∷◌, ◌++◌,
  if◌then◌else◌, length, any, eq_list, ltb,
}
use zip_mania.Prelude.Digits.{to_digits, digits_from}
use zip_mania.Errors.{Result, ok, err, job_busy, window_closed}

pub record JobInfo : Type 0 where
  pub kind : List ℕ
  pub target : List ℕ
  pub owner : List ℕ

pub record ActiveEntry : Type 0 where
  pub cancel_flag : ℕ
  pub info : JobInfo

-- `HashMap<String, ActiveEntry>` as its pairs, `HashSet<String>` as its elements.
pub record JobState : Type 0 where
  pub active : List (List ℕ × ActiveEntry)
  pub retired : List (List ℕ)
  pub closing : Bool

pub record JobManager : Type 0 where
  pub counter : ℕ
  pub state : JobState
  pub flags : List Bool

abbrev pub new : JobManager
new = record {
  counter = 0;
  state = record { active = []; retired = []; closing = false };
  flags = [];
}

-- `flag.store(true)`.
unfoldable pub raise : ℕ → List Bool → List Bool
raise i [] = []
raise zero (b ∷ flags) = true ∷ flags
raise (suc i) (b ∷ flags) = b ∷ raise i flags

unfoldable pub contains : List ℕ → List (List ℕ) → Bool
contains s xs = any (eq_list s) xs

unfoldable pub lookup : List ℕ → List (List ℕ × ActiveEntry) → Option ActiveEntry
lookup id [] = none
lookup id ((k, e) ∷ rest) = if eq_list id k then some e else lookup id rest

unfoldable pub remove : List ℕ → List (List ℕ × ActiveEntry) → List (List ℕ × ActiveEntry)
remove id [] = []
remove id ((k, e) ∷ rest) =
    let kept = remove id rest in if eq_list id k then kept else (k, e) ∷ kept

-- `job-`.
abbrev pub id_prefix : List ℕ
id_prefix = 0x6A ∷ 0x6F ∷ 0x62 ∷ 0x2D ∷ []

-- The `AtomicU64` wraps around.
unfoldable pub next_id : JobManager → List ℕ × JobManager
unfolding to_digits
next_id m = let n = (m.counter + 1) % 2 ^ 64 in (id_prefix ++ to_digits n, record m { counter = n })

abbrev is_empty {ℓ} : {A : Type ℓ} → List A → Bool
is_empty [] = true
is_empty (x ∷ xs) = false

-- The entry is put in place of one with the same id. The result is the place of the new flag.
unfoldable pub start : List ℕ → JobInfo → JobManager → Result ℕ × JobManager
unfolding contains remove
start id info m =
    if m.state.closing
    then (err job_busy, m)
    else if contains info.owner m.state.retired
    then (err window_closed, m)
    else if not (is_empty m.state.active)
    then (err job_busy, m)
    else (
      ok (length m.flags),
      record m {
        state = record (m.state) {
          active =
              (id, record { cancel_flag = length m.flags; info = info }) ∷ remove id m.state.active;
        };
        flags = m.flags ++ false ∷ [];
      },
    )

unfoldable pub cancel : List ℕ → JobManager → Bool × JobManager
unfolding lookup raise
cancel id m = elim (lookup id m.state.active) [
  | some e ↦ (true, record m { flags = raise e.cancel_flag m.flags })
  | none ↦ (false, m)
]

unfoldable pub owned_by : List ℕ → ActiveEntry → Bool
owned_by session e = eq_list e.info.owner session

-- The loop of `retire_session`: the flags, and the count.
unfoldable pub retire_entries : List ℕ → List (List ℕ × ActiveEntry) → List Bool → ℕ → List Bool × ℕ
retire_entries session [] flags n = (flags, n)
retire_entries session ((k, e) ∷ rest) flags n = elim (owned_by session e) [
  | true ↦ retire_entries session rest (raise e.cancel_flag flags) (n + 1)
  | false ↦ retire_entries session rest flags n
]

unfoldable pub retire_session : List ℕ → JobManager → ℕ × JobManager
unfolding retire_entries
retire_session session m =
    let (flags, n) = retire_entries session m.state.active m.flags 0 in
    (
      n,
      record m { state = record (m.state) { retired = session ∷ m.state.retired }; flags = flags },
    )

-- What `wait_session_retired` answers with the state in which its wait ends.
unfoldable pub session_retired : List ℕ → JobManager → Bool
unfolding owned_by
session_retired session m = not (any (λ p. owned_by session p.1) m.state.active)

unfoldable pub finish : List ℕ → JobManager → JobManager
unfolding remove
finish id m = record m { state = record (m.state) { active = remove id m.state.active } }

-- The loop of `begin_shutdown`: the flags, and the snapshot.
unfoldable pub cancel_entries :
    List (List ℕ × ActiveEntry) → List Bool → List Bool × List (List ℕ × JobInfo)
unfolding raise
cancel_entries [] flags = (flags, [])
cancel_entries ((k, e) ∷ rest) flags =
    let (flags', snapshot) = cancel_entries rest (raise e.cancel_flag flags) in
    (flags', (k, e.info) ∷ snapshot)

unfoldable pub begin_shutdown : JobManager → List (List ℕ × JobInfo) × JobManager
unfolding cancel_entries
begin_shutdown m =
    let (flags, snapshot) = cancel_entries m.state.active m.flags in
    (snapshot, record m { state = record (m.state) { closing = true }; flags = flags })

-- What `wait_retired` answers with the state in which its wait ends.
unfoldable pub all_retired : JobManager → Bool
all_retired m = is_empty m.state.active
