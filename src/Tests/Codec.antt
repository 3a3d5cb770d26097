-- ===== src/Tests/Codec.antt =====
-- The decompression of codec.rs, with an engine that copies three bytes a call.
use zip_mania.Prelude.{
  ℕ, ◌+◌, ◌≤◌, ◌<◌, ◌≡◌, refl, arith, min, if◌then◌else◌, Option, none, some, List, [], ◌∷◌, length,
  take, ltb,
}
use zip_mania.Errors.{Code, ok, err, corrupt}
use zip_mania.Unegg.Codec.{deflate}
use zip_mania.Unegg.Codec.Inflate.{
  Inflated, Outcome, stream_end, going_on, decompress_to, decompress_method, inflate_to,
  inflate_loop, check_size, refusal, stalled, cap_of,
}
use zip_mania.Unegg.Codec.Inflate.Bounded.{IsDelivered, decompress_to-IsDelivered}
use zip_mania.Unegg.Codec.Inflate.Ends.{Consumes, decompress_to-ends}

abbrev pub copy : Unit {0} → List ℕ → Inflated (Unit {0})
copy st input = record {
  state = tt;
  consumed = min 3 (length input);
  written_bytes = take 3 input;
  status = if ltb (length input) 4 then stream_end else going_on;
}

abbrev take_all : List ℕ → List ℕ → Option Code
take_all received chunk = none

pub copy-Consumes : Consumes copy
copy-Consumes st input = omega arith

abbrev block : List ℕ
block = 1 ∷ 2 ∷ 3 ∷ 4 ∷ 5 ∷ []

copied : decompress_to copy take_all deflate tt 11 block 5 0 ≡ some (ok 5, block)
unfolding decompress_to decompress_method inflate_to inflate_loop check_size refusal stalled cap_of
copied = refl

-- A block that expands beyond the size that it claims is cut off.
too_long : decompress_to copy take_all deflate tt 11 block 4 0 ≡ some (err corrupt, 1 ∷ 2 ∷ 3 ∷ [])
unfolding decompress_to decompress_method inflate_to inflate_loop check_size refusal stalled cap_of
too_long = refl

decompress_to-IsDelivered_example : IsDelivered 4 0 (err corrupt, 1 ∷ 2 ∷ 3 ∷ []) × (1 ≤ 0 → 3 ≤ 0)
decompress_to-IsDelivered_example =
    decompress_to-IsDelivered copy take_all deflate tt 11 block 4 0 too_long

enough : length block + cap_of 5 0 < 11
unfolding cap_of
enough = omega arith

decompress_to-ends_example :
    (o : Outcome) × (decompress_to copy take_all deflate tt 11 block 5 0 ≡ some o)
decompress_to-ends_example =
    decompress_to-ends copy take_all copy-Consumes deflate tt 11 block 5 0 enough
