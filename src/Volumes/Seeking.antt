-- ===== src/Volumes/Seeking.antt =====
-- volumes.rs: where a relative seek goes.
use zip_mania.Prelude.{
  ℕ, suc, ◌+◌, ◌-◌, ◌^◌, ◌<◌, ◌≡◌, refl, ap, ◌∙◌, arith, Option, none, some, ltb, if◌then◌else◌,
}
use zip_mania.Prelude.Int.{ℤ, pos, negsuc, ◌+ℤ◌}
use zip_mania.Errors.{Result, ok, err, io_error}
use zip_mania.Volumes.{VolumeReader, as_i64, checked_place, seek_by, seek, from_current, from_end}

-- The place `delta` bytes from `base`, if it is one that an i64 holds and not before the start.
abbrev pub target : ℕ → ℤ → Option ℕ
target base (pos d) = if ltb (base + d) (2 ^ 63) then some (base + d) else none
target base (negsuc d) = if ltb d base then some (base - suc d) else none

-- The position after a seek to this place; the seek fails if there is none.
abbrev pub moved_to : Option ℕ → VolumeReader → Result (ℕ × VolumeReader)
moved_to none r = err io_error
moved_to (some p) r = ok (p, record r { at = p })

checked_place-target :
    (base : ℕ) (delta : ℤ)
    → base < 2 ^ 63
    → checked_place (as_i64 base +ℤ delta) ≡ target base delta
unfolding checked_place as_i64
checked_place-target base (pos d) h = ground arith
checked_place-target base (negsuc d) h = ground arith

by_place :
    (o : Option ℕ) (r : VolumeReader)
    → (elim o [ none ↦ err io_error | some p ↦ ok (p, record r { at = p }) ]) ≡ moved_to o r
by_place none r = refl
by_place (some p) r = refl

placed : {o o' : Option ℕ} (r : VolumeReader) → o ≡ o' → moved_to o r ≡ moved_to o' r
placed r h = ap (λ o. moved_to o r) h

opened :
    (base : ℕ) (delta : ℤ) (r : VolumeReader)
    → seek_by base delta r ≡ moved_to (checked_place (as_i64 base +ℤ delta)) r
unfolding seek_by
opened base delta r = by_place (checked_place (as_i64 base +ℤ delta)) r

seek_by-target :
    (base : ℕ) (delta : ℤ) (r : VolumeReader)
    → base < 2 ^ 63
    → seek_by base delta r ≡ moved_to (target base delta) r
seek_by-target base delta r h = opened base delta r ∙ placed r (checked_place-target base delta h)

-- While the position and the size are below 2 ^ 63, a seek relative to either goes to the sum, and
-- fails exactly where the sum is negative or reaches 2 ^ 63.
pub seek-target :
    (delta : ℤ) (r : VolumeReader)
    → r.at < 2 ^ 63
    → r.total < 2 ^ 63
    → (seek (from_current delta) r ≡ moved_to (target r.at delta) r)
      × (seek (from_end delta) r ≡ moved_to (target r.total delta) r)
unfolding seek
seek-target delta r h k = (seek_by-target r.at delta r h, seek_by-target r.total delta r k)
