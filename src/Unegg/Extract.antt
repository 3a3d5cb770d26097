-- ===== src/Unegg/Extract.antt =====
-- backend/unegg/extract.rs: the extraction of the entries of an archive. The disk with all else that
-- changes outside is a state that the calls pass on; one staged file is open at a time. The flag of
-- cancellation is part of it, and is looked at before an entry and behind a read that failed; what
-- the writer makes of a flag that is set during a read is in Cancel. Calls of on_progress only report.
pub mod Cancel
pub mod Ends
pub mod Entries
pub mod Rounds
pub mod Steps
use zip_mania.Prelude.{
  ℕ, ◌+◌, ◌%◌, ◌^◌, Bool, true, false, not, ◌||◌, Option, none, some, List, [], ◌∷◌, ◌++◌, map,
  ◌==◌, if◌then◌else◌,
}
use zip_mania.Prelude.Digits.{to_digits}
use zip_mania.Errors.{
  Code, Result, ok, err, io_error, output_error, corrupt, unsupported, password_required,
  wrong_password,
}
use zip_mania.Formats.{OverwriteMode, overwrite, skip, rename}
use zip_mania.Formats.Unique.{unique_path}
use zip_mania.Paths.{sanitize_for}
use zip_mania.Paths.Under.{Components, GivenPath, resolve_under}
use zip_mania.Backend.Results.{
  MissingItem, ExtractResult, done, failed, finish, canceled_result, new_missing, detailed,
  size_mismatch, create_dir, read,
}
use zip_mania.Backend.Conflicts.{in_scope, relative_name}
use zip_mania.Unegg.Codec.Inflate.{Inflated, Outcome}
use zip_mania.Unegg.Items.{Item}
use zip_mania.Unegg.Items.Reading.{read_item_to}

-- What the system does. `fill` is the state once the sink of the staged file has received these
-- bytes, `detail` the text of an error.
pub record System (W : Type 0) : Type 0 where
  pub canceled : W → Bool
  pub canonicalize : W → GivenPath → Option Components
  pub exists : W → Components → Bool
  pub create_dir_all : GivenPath → W → Bool × W
  pub create_dir_at : Components → W → Bool × W
  pub stage : Components → W → Bool × W
  pub takes : W → List ℕ → List ℕ → Bool
  pub fill : List ℕ → W → W
  pub flush : W → Bool × W
  pub commit : Components → W → Bool × W
  pub abort : W → W
  pub detail : W → List ℕ

pub record Options : Type 0 where
  pub dest : GivenPath
  pub keep_paths : Bool
  pub overwrite_mode : OverwriteMode
  pub password : Option (List ℕ)
  pub selected : List (List ℕ)
  pub decisions : List ℕ → Option OverwriteMode

-- The variables of the loop. The counter of a release build wraps around.
pub record State (W : Type 0) : Type 0 where
  pub world : W
  pub done_bytes : ℕ
  pub missing : List MissingItem

-- How the loop is left early.
pub data Stopped : Type 0 where
  was_canceled : Stopped
  had_failed : Code → Stopped

pub data Step (W : Type 0) : Type 0 where
  next : State W → Step W
  stop : Stopped → Step W

unfoldable pub stop_result : Stopped → ExtractResult
stop_result was_canceled = canceled_result
stop_result (had_failed c) = failed c

abbrev pub mode_or : OverwriteMode → Option OverwriteMode → OverwriteMode
mode_or base none = base
mode_or base (some m) = m

abbrev pub unique_of : (Components → Bool) → Components → Components
unique_of exists [] = []
unique_of exists (name ∷ parent) = unique_path exists name parent

abbrev pub parent_of : Components → Components
parent_of [] = []
parent_of (name ∷ parent) = parent

-- How a failed read of an entry goes on: it is global, local to the entry, or else.
abbrev pub is_local : Code → Bool
is_local unsupported = true
is_local corrupt = true
is_local _ = false

module _ {W S : Type 0} (sys : System W) (inflate : S → List ℕ → Inflated S) (start : S) (fuel : ℕ)
    (for_windows : Bool) (current_dir : Components) (bytes : List ℕ) (opts : Options) where
  -- Where a file goes, none where it is left out.
  unfoldable pub place_of : Item → Components → W → Option Components
  place_of i target w =
      if sys.exists w target
      then (elim (mode_or opts.overwrite_mode (opts.decisions i.path)) [
        | skip ↦ none
        | rename ↦ some (unique_of (sys.exists w) target)
        | overwrite ↦ some target
      ])
      else some target

  unfoldable pub make_dir : Item → Components → State W → Step W
  make_dir i target st =
      let (made, w) = sys.create_dir_at target st.world in
      if made
      then next (record st { world = w })
      else next (record st {
        world = w;
        missing = st.missing ++ detailed i.path create_dir (sys.detail w) ∷ [];
      })

  -- A read that failed, in the state `w`.
  unfoldable pub give_up : Item → Code → W → State W → Step W
  give_up i c w st =
      let w' = sys.abort w in
      if sys.canceled w'
      then stop was_canceled
      else if is_local c
      then next (record st { world = w'; missing = st.missing ++ new_missing i.path read ∷ [] })
      else stop (had_failed c)

  -- A read that succeeded with `n` bytes, before the flush.
  unfoldable pub settle : Item → Components → ℕ → W → State W → Step W
  settle i target n w st =
      let (flushed, w') = sys.flush w in
      if not flushed
      then give_up i io_error w' st
      else if not (n == i.size)
      then next (record st {
        world = sys.abort w';
        done_bytes = (st.done_bytes + i.size) % 2 ^ 64;
        missing =
            st.missing
            ++ detailed i.path size_mismatch (to_digits n ++ 0x20 ∷ 0x2F ∷ 0x20 ∷ to_digits i.size)
              ∷ [];
      })
      else let (moved, w'') = sys.commit target w' in
        if moved
        then next (record st { world = w''; done_bytes = (st.done_bytes + i.size) % 2 ^ 64 })
        else stop (had_failed output_error)

  unfoldable pub read_into : Item → Components → W → State W → Option (Step W)
  read_into i target w st =
      elim (read_item_to inflate start fuel (sys.takes w) bytes i 0 opts.password) [
        | none ↦ none
        | some o ↦ elim o.0 [
          | err c ↦ some (give_up i c (sys.fill o.1 w) st)
          | ok n ↦ some (settle i target n (sys.fill o.1 w) st)
        ]
      ]

  unfoldable pub write_file : Item → Components → State W → Option (Step W)
  write_file i target st = elim (place_of i target st.world) [
    | none ↦ some (next st)
    | some place ↦
        let (made, w) = sys.create_dir_at (parent_of place) st.world in
        let (staged, w') = sys.stage place w in
        elim staged [ false ↦ some (stop (had_failed io_error)) | true ↦ read_into i place w' st ]
  ]

  -- The body of the loop.
  unfoldable pub extract_item : Item → State W → Option (Step W)
  extract_item i st = elim (sys.canceled st.world) [
    | true ↦ some (stop was_canceled)
    | false ↦ elim (sanitize_for (relative_name opts.keep_paths i.path) for_windows) [
      | err c ↦ some (stop (had_failed c))
      | ok rel ↦ elim (resolve_under (sys.canonicalize st.world) current_dir opts.dest rel) [
        | err c ↦ some (stop (had_failed c))
        | ok target ↦ elim i.is_dir [
          | true ↦ some (make_dir i target st)
          | false ↦ write_file i target st
        ]
      ]
    ]
  ]

  unfoldable pub extract_items : List Item → State W → Option (Step W)
  extract_items [] st = some (next st)
  extract_items (i ∷ is) st = elim (extract_item i st) [
    | none ↦ none
    | some s ↦ elim s [ stop r ↦ some (stop r) | next st' ↦ extract_items is st' ]
  ]

  unfoldable pub targets : List Item → List Item
  targets [] = []
  targets (i ∷ is) =
      let rest = targets is in if in_scope i.path opts.selected then i ∷ rest else rest

  abbrev pub end_of : Option (Step W) → Option ExtractResult
  end_of none = none
  end_of (some (stop r)) = some (stop_result r)
  end_of (some (next st)) = some (finish st.missing)

  abbrev pub start_of : W → State W
  start_of w = record { world = w; done_bytes = 0; missing = [] }

  unfoldable pub extract_all : List Item → W → Option ExtractResult
  extract_all items w =
      let (made, w') = sys.create_dir_all opts.dest w in
      elim made [
        | false ↦ some (failed io_error)
        | true ↦ end_of (extract_items (targets items) (start_of w'))
      ]
