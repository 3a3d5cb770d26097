-- ===== src/Volumes.antt =====
-- crates/zipmania-archive/src/volumes.rs: the reader over the volumes of a split archive. A file is
-- its bytes, which nothing changes while the reader has it open. What the operating system grants
-- of a read is a parameter: of `want` bytes at `off` in volume `idx` a count, or none for an error.
pub mod Whole
pub mod Names
pub mod Opening
pub mod Drain
pub mod Seeking
use zip_mania.Prelude.{
  ℕ, zero, suc, ◌+◌, ◌-◌, ◌^◌, min, Bool, true, false, Option, none, some, List, [], ◌∷◌, ltb, ◌==◌,
  if◌then◌else◌, length, get_elem?, take, drop,
}
use zip_mania.Prelude.Int.{ℤ, pos, negsuc, ◌+ℤ◌}
use zip_mania.Errors.{Result, ok, err, io_error}

-- An open volume and the length that its metadata told.
pub record Volume : Type 0 where
  pub content : List ℕ
  pub len : ℕ

pub record VolumeReader : Type 0 where
  pub files : List Volume
  pub total : ℕ
  pub at : ℕ

unfoldable pub volume_count : VolumeReader → ℕ
volume_count r = length r.files

unfoldable pub is_empty : VolumeReader → Bool
is_empty r = r.total == 0

-- The loop of `locate`: `start` is where volume `i` begins.
unfoldable pub locate_from : List Volume → ℕ → ℕ → ℕ → Option (ℕ × ℕ)
locate_from [] start i p = none
locate_from (v ∷ vs) start i p =
    let rest = locate_from vs (start + v.len) (i + 1) p in
    if ltb p (start + v.len) then some (i, p - start) else rest

unfoldable pub locate : VolumeReader → ℕ → Option (ℕ × ℕ)
unfolding locate_from
locate r p = locate_from r.files 0 0 p

-- The read at a place that was located, of at most `size` bytes.
unfoldable pub read_at :
    (ℕ → ℕ → ℕ → Option ℕ) → ℕ → ℕ → ℕ → VolumeReader → Result (List ℕ × VolumeReader)
read_at granted size idx off r = elim (get_elem? r.files idx) [
  | none ↦ err io_error
  | some v ↦ elim (granted idx off (min size (v.len - off))) [
    | none ↦ err io_error
    | some n ↦ ok (take n (drop off v.content), record r { at = r.at + n })
  ]
]

-- `Read::read` with a buffer of `size` bytes: the bytes that it fills.
unfoldable pub read : (ℕ → ℕ → ℕ → Option ℕ) → ℕ → VolumeReader → Result (List ℕ × VolumeReader)
unfolding locate read_at
read granted size r = if size == 0 then ok ([], r) else elim (locate r r.at) [
  | none ↦ ok ([], r)
  | some (idx, off) ↦ read_at granted size idx off r
]

pub data SeekFrom : Type 0 where
  from_start : ℕ → SeekFrom
  from_current from_end : ℤ → SeekFrom

-- `x as i64` of a u64.
unfoldable pub as_i64 : ℕ → ℤ
as_i64 n = if ltb n (2 ^ 63) then pos n else negsuc (2 ^ 64 - 1 - n)

-- `checked_add` of two i64 and `filter(|v| *v >= 0)`.
unfoldable pub checked_place : ℤ → Option ℕ
checked_place (pos n) = if ltb n (2 ^ 63) then some n else none
checked_place (negsuc n) = none

unfoldable pub seek_by : ℕ → ℤ → VolumeReader → Result (ℕ × VolumeReader)
unfolding as_i64 checked_place
seek_by base delta r = elim (checked_place (as_i64 base +ℤ delta)) [
  | none ↦ err io_error
  | some p ↦ ok (p, record r { at = p })
]

unfoldable pub seek : SeekFrom → VolumeReader → Result (ℕ × VolumeReader)
unfolding seek_by
seek (from_start p) r = ok (p, record r { at = p })
seek (from_current d) r = seek_by r.at d r
seek (from_end d) r = seek_by r.total d r
