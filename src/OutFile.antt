-- ===== src/OutFile.antt =====
-- crates/zipmania-archive/src/outfile.rs: the writer of volume sets. A volume is the bytes of its
-- temporary file. Whether the system opens, resizes and writes a file is a parameter, and so are the
-- bytes that a failed write leaves behind. A u64 and a usize have 64 bits.
pub mod Commit
pub mod Flat
pub mod Pieces
pub mod Written
use zip_mania.Prelude.{
  ℕ, zero, suc, ◌+◌, ◌-◌, ◌*◌, ◌/◌, ◌%◌, ◌^◌, min, Bool, true, false, Option, none, some, List, [],
  ◌∷◌, ◌++◌, ltb, ◌==◌, if◌then◌else◌, length, take, drop, replicate,
}
use zip_mania.Prelude.Int.{ℤ, ◌+ℤ◌}
use zip_mania.Volumes.{SeekFrom, from_start, from_current, from_end, as_i64, checked_place}
use zip_mania.Errors.{Result, ok, err, invalid_volume}

pub record VolumeSet : Type 0 where
  pub size : ℕ
  pub vols : List (List ℕ)
  pub pos : ℕ
  pub has_error : Bool

unfoldable pub new : ℕ → Result VolumeSet
new size =
    if size == 0
    then err invalid_volume
    else ok (record { size = size; vols = []; pos = 0; has_error = false })

-- `take_error`, which returns the text once.
unfoldable pub take_error : VolumeSet → Bool × VolumeSet
take_error v = (v.has_error, record v { has_error = false })

unfoldable pub volume_count : VolumeSet → ℕ
volume_count v = length v.vols

unfoldable pub is_empty : VolumeSet → Bool
is_empty v = elim v.vols [ [] ↦ true | w ∷ ws ↦ false ]

abbrev pub last_length : List (List ℕ) → ℕ
last_length [] = 0
last_length (v ∷ []) = length v
last_length (v ∷ w ∷ ws) = last_length (w ∷ ws)

-- The volumes before the last count with their full size.
unfoldable pub len : VolumeSet → ℕ
len v = if length v.vols == 0 then 0 else (length v.vols - 1) * v.size + last_length v.vols

-- `File::set_len`.
unfoldable pub resize : ℕ → List ℕ → List ℕ
resize n content = take n content ++ replicate (n - length content) 0

-- A seek and a write of all bytes; what lies between the end and the place is zeros.
unfoldable pub patch : ℕ → List ℕ → List ℕ → List ℕ
patch off bytes content =
    take off content
    ++ (replicate (off - length content) 0 ++ (bytes ++ drop (off + length bytes) content))

abbrev pub map_last : (List ℕ → List ℕ) → List (List ℕ) → List (List ℕ)
map_last f [] = []
map_last f (v ∷ []) = f v ∷ []
map_last f (v ∷ w ∷ ws) = v ∷ map_last f (w ∷ ws)

abbrev pub update : ℕ → (List ℕ → List ℕ) → List (List ℕ) → List (List ℕ)
update i f [] = []
update zero f (v ∷ vs) = f v ∷ vs
update (suc i) f (v ∷ vs) = v ∷ update i f vs

-- What the system grants: a new file for volume `n`, a new length of the file of index `i`, and a
-- write into it, which leaves `torn` behind where it fails.
pub record System : Type 0 where
  pub opens : ℕ → Bool
  pub resizes : ℕ → ℕ → Bool
  pub puts : ℕ → ℕ → List ℕ → Bool
  pub torn : ℕ → List ℕ → List ℕ

module _ (sys : System) (size : ℕ) where
  -- One round of `ensure`: a new volume, and the one before filled up; and whether it succeeded.
  unfoldable pub add_volume : List (List ℕ) → Bool × List (List ℕ)
  add_volume vols =
      if sys.opens (length vols + 1)
      then if length vols == 0
        then (true, [] ∷ [])
        else if sys.resizes (length vols - 1) size
        then (true, map_last (resize size) vols ++ [] ∷ [])
        else (false, vols)
      else (false, vols)

  -- The loop, with the rounds that are left.
  unfoldable pub ensure_from : ℕ → List (List ℕ) → Bool × List (List ℕ)
  ensure_from zero vols = (true, vols)
  ensure_from (suc rounds) vols =
      let (added, vols') = add_volume vols in
      elim added [ true ↦ ensure_from rounds vols' | false ↦ (false, vols') ]

  -- As many rounds as volumes are missing up to index `idx`.
  unfoldable pub ensure : ℕ → List (List ℕ) → Bool × List (List ℕ)
  ensure idx vols = ensure_from (idx + 1 - length vols) vols

-- `Write::write`: the count of the bytes written, none for an error.
unfoldable pub write : System → List ℕ → VolumeSet → Option ℕ × VolumeSet
write sys [] v = (some 0, v)
write sys (c ∷ cs) v =
    let idx = v.pos / v.size in
    let off = v.pos % v.size in
    let n = min (length (c ∷ cs)) (v.size - off) in
    let bytes = take n (c ∷ cs) in
    let (ready, vols) = ensure sys v.size idx v.vols in
    elim ready [
      | false ↦ (none, record v { vols = vols; has_error = true })
      | true ↦
          if sys.puts idx off bytes
          then (some n, record v { vols = update idx (patch off bytes) vols; pos = v.pos + n })
          else (none, record v { vols = update idx (sys.torn off) vols; has_error = true })
    ]

-- `usize` of the quotient, rounded up.
unfoldable pub count_for : ℕ → ℕ → ℕ
count_for size n = (n + (size - 1)) / size

-- `set_len`, and whether it succeeded.
unfoldable pub set_len : System → ℕ → VolumeSet → Bool × VolumeSet
set_len sys zero v = (true, record v { vols = [] })
set_len sys (suc m) v =
    let count = count_for v.size (suc m) in
    let last_len = suc m - (count - 1) * v.size in
    let (ready, vols) = ensure sys v.size (count - 1) v.vols in
    elim ready [
      | false ↦ (false, record v { vols = vols })
      | true ↦
          if sys.resizes (count - 1) last_len
          then (true, record v { vols = update (count - 1) (resize last_len) (take count vols) })
          else (false, record v { vols = take count vols })
    ]

-- `Seek::seek`: the new position, none for an error.
unfoldable pub seek_by : ℕ → ℤ → VolumeSet → Option ℕ × VolumeSet
seek_by base delta v = elim (checked_place (as_i64 base +ℤ delta)) [
  | none ↦ (none, v)
  | some p ↦ (some p, record v { pos = p })
]

unfoldable pub seek : SeekFrom → VolumeSet → Option ℕ × VolumeSet
unfolding seek_by
seek (from_start p) v = (some p, record v { pos = p })
seek (from_current d) v = seek_by v.pos d v
seek (from_end d) v = seek_by (len v) d v
