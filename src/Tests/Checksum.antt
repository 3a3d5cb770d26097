-- ===== src/Tests/Checksum.antt =====
-- The checksum of crc32.rs at concrete messages.
use zip_mania.Prelude.{ℕ, ap, get_or, ◌≡◌, ◌≢◌, refl, arith, List, [], ◌∷◌, ◌++◌, bit_xor, IsBytes}
use zip_mania.Crc32.{
  new, update, update_state, update_byte, make_table, table_from, table_rounds, table_round,
  finalize,
}
use zip_mania.Crc32.Bitwise.{serial, update-serial}
use zip_mania.Crc32.Detection.{burst_detected}

abbrev digits : List ℕ
digits = 0x31 ∷ 0x32 ∷ 0x33 ∷ 0x34 ∷ 0x35 ∷ 0x36 ∷ 0x37 ∷ 0x38 ∷ 0x39 ∷ []

-- The check value of the file's own test.
check_value : finalize (update new digits) ≡ 0xCBF4_3926
unfolding update update_state update_byte make_table table_from table_rounds table_round finalize
check_value = refl

abbrev abc : List ℕ
abc = 0x61 ∷ 0x62 ∷ 0x63 ∷ []

abc-IsBytes : IsBytes abc
abc-IsBytes = (omega arith, (omega arith, (omega arith, tt)))

update-serial_example : finalize (update new abc) ≡ bit_xor (serial 0xFFFF_FFFF abc) 0xFFFF_FFFF
update-serial_example = update-serial new abc abc-IsBytes

abbrev xyz : List ℕ
xyz = 0x78 ∷ 0x79 ∷ 0x7A ∷ []

xyz-IsBytes : IsBytes xyz
xyz-IsBytes = (omega arith, (omega arith, (omega arith, tt)))

burst_detected_example :
    finalize (update new (abc ++ (abc ++ abc))) ≢ finalize (update new (abc ++ (xyz ++ abc)))
burst_detected_example =
    burst_detected new abc abc xyz abc (omega arith) abc-IsBytes abc-IsBytes xyz-IsBytes abc-IsBytes
      refl (omega arith) (λ e. omega (arith, ap (λ (l : List ℕ). get_or l 0 0) e))
