-- ===== src/Crc32.antt =====
-- crates/zipmania-archive/src/crc32.rs: the table-driven CRC-32 of the integrity test. A u32 is a
-- number below 2 ^ 32; `c & 1` and `c & 0xFF` are remainders, `c >> k` is a quotient.
pub mod Bitwise
pub mod Detection
use zip_mania.Prelude.{
  ℕ, zero, suc, ◌+◌, ◌/◌, ◌%◌, bit_xor, Bool, List, [], ◌∷◌, ◌==◌, if◌then◌else◌, length, get_or,
}

abbrev pub polynomial : ℕ
polynomial = 0xEDB8_8320

-- One round of the inner loop of `make_table`.
unfoldable pub table_round : ℕ → ℕ
table_round c = if c % 2 == 0 then c / 2 else bit_xor polynomial (c / 2)

-- `while k < 8`, with `n` rounds left.
unfoldable pub table_rounds : ℕ → ℕ → ℕ
table_rounds zero c = c
table_rounds (suc n) c = table_rounds n (table_round c)

-- `while i < 256`, with `n` entries left.
unfoldable pub table_from : ℕ → ℕ → List ℕ
table_from zero i = []
table_from (suc n) i = table_rounds 8 i ∷ table_from n (i + 1)

unfoldable pub make_table : List ℕ
unfolding table_from table_rounds table_round
make_table = table_from 256 0

pub record Crc32 : Type 0 where
  pub state : ℕ

abbrev pub new : Crc32
new = record { state = 0xFFFF_FFFF }

-- The body of the loop of `Crc32::update`.
unfoldable pub update_byte : ℕ → ℕ → ℕ
update_byte c b = bit_xor (get_or make_table (bit_xor c b % 256) 0) (c / 256)

unfoldable pub update_state : ℕ → List ℕ → ℕ
update_state c [] = c
update_state c (b ∷ buf) = update_state (update_byte c b) buf

unfoldable pub update : Crc32 → List ℕ → Crc32
unfolding update_state update_byte make_table
update crc buf = record { state = update_state crc.state buf }

unfoldable pub finalize : Crc32 → ℕ
finalize crc = bit_xor crc.state 0xFFFF_FFFF

-- `CrcWriter::write`: the data is dropped, its checksum kept; the result is the count of bytes
-- taken. The lock is that of a writer with one owner and is always had.
unfoldable pub write : Crc32 → List ℕ → Crc32 × ℕ
unfolding update
write crc buf = (update crc buf, length buf)
