-- ===== src/Tests/OutFile.antt =====
-- The writer of volume sets of outfile.rs at a small set.
use zip_mania.Prelude.{◌≡◌, refl, arith, true, false, some, [], ◌∷◌}
use zip_mania.OutFile.{VolumeSet, System, write, ensure, ensure_from, add_volume, resize, patch}
use zip_mania.OutFile.Pieces.{IsFull, last, more}
use zip_mania.OutFile.Written.{Patched, write-Patched}

abbrev willing : System
willing = record {
  opens = λ n. true;
  resizes = λ i n. true;
  puts = λ i off bytes. true;
  torn = λ off content. content;
}

-- Volumes of four bytes, five written, and the position two behind the end.
abbrev five : VolumeSet
five = record { size = 4; vols = (1 ∷ 2 ∷ 3 ∷ 4 ∷ []) ∷ (5 ∷ []) ∷ []; pos = 7; has_error = false }

abbrev eight : VolumeSet
eight = record {
  size = 4;
  vols = (1 ∷ 2 ∷ 3 ∷ 4 ∷ []) ∷ (5 ∷ 0 ∷ 0 ∷ 6 ∷ []) ∷ [];
  pos = 8;
  has_error = false;
}

five-IsFull : IsFull 4 five.vols
five-IsFull = more refl (last (omega arith))

written : write willing (6 ∷ 7 ∷ []) five ≡ (some 1, eight)
unfolding write ensure ensure_from add_volume resize patch
written = refl

write-Patched_example : Patched five (6 ∷ 7 ∷ []) 1 eight
write-Patched_example = write-Patched willing 6 (7 ∷ []) five (omega arith) five-IsFull written

-- The rest goes into a third volume.
abbrev nine : VolumeSet
nine = record {
  size = 4;
  vols = (1 ∷ 2 ∷ 3 ∷ 4 ∷ []) ∷ (5 ∷ 0 ∷ 0 ∷ 6 ∷ []) ∷ (7 ∷ []) ∷ [];
  pos = 9;
  has_error = false;
}

continued : write willing (7 ∷ []) eight ≡ (some 1, nine)
unfolding write ensure ensure_from add_volume resize patch
continued = refl
