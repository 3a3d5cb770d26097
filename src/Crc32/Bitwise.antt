-- ===== src/Crc32/Bitwise.antt =====
-- The table against the bit-serial definition of the checksum.
use zip_mania.Prelude.{
  ℕ, zero, suc, ◌+◌, ◌*◌, ◌/◌, ◌%◌, ◌^◌, ◌<◌, bit_xor, ◌≡◌, refl, ap, sym, ◌∙◌, arith, List, [],
  ◌∷◌, ◌++◌, ◌==◌, if◌then◌else◌, get_or, IsBytes, Bool-cases, inl, inr,
}
use native.Mathlib.Nat.{pow-suc}
use zip_mania.Prelude.Bits.{
  bit_xor-half, bit_xor-parity, bit_xor_assoc, bit_xor_zero, bit_xor-div_pow, bit_xor_fields,
}
use zip_mania.Crc32.{
  polynomial, table_round, table_rounds, table_from, make_table, Crc32, update_byte, update_state,
  update, finalize,
}

-- The reference: shift the register by one bit, and subtract the polynomial if a one falls out.
abbrev pub shift_bit : ℕ → ℕ
shift_bit c = if c % 2 == 0 then c / 2 else bit_xor polynomial (c / 2)

abbrev pub shift_bits : ℕ → ℕ → ℕ
shift_bits zero c = c
shift_bits (suc n) c = shift_bits n (shift_bit c)

-- The checksum register after a message, bit by bit, with no table.
abbrev pub serial : ℕ → List ℕ → ℕ
serial c [] = c
serial c (b ∷ bs) = serial (shift_bits 8 (bit_xor c b)) bs

table_round-shift_bit : (c : ℕ) → table_round c ≡ shift_bit c
unfolding table_round
table_round-shift_bit c = refl

pub table_rounds-shift_bits : (n c : ℕ) → table_rounds n c ≡ shift_bits n c
unfolding table_rounds
table_rounds-shift_bits zero c = refl
table_rounds-shift_bits (suc n) c =
    table_rounds-shift_bits n (table_round c) ∙ ap (shift_bits n) (table_round-shift_bit c)

get_or-table_from : (n i j : ℕ) → j < n → get_or (table_from n i) j 0 ≡ table_rounds 8 (i + j)
unfolding table_from
get_or-table_from zero i j h = absurd (omega arith)
get_or-table_from (suc n) i zero h = ap (table_rounds 8) (omega arith)
get_or-table_from (suc n) i (suc j) h =
    get_or-table_from n (i + 1) j (omega arith) ∙ ap (table_rounds 8) (omega arith)

-- Every entry of the table is the index after eight shifts.
pub get_or-make_table : (j : ℕ) → j < 256 → get_or make_table j 0 ≡ shift_bits 8 j
unfolding make_table
get_or-make_table j h =
    get_or-table_from 256 0 j h ∙ ap (table_rounds 8) (omega arith) ∙ table_rounds-shift_bits 8 j

-- What is added above the lowest bit is only shifted.
shift_bit-bit_xor : (a b : ℕ) → shift_bit (bit_xor a (2 * b)) ≡ bit_xor (shift_bit a) b
shift_bit-bit_xor a b =
    let parity : bit_xor a (2 * b) % 2 ≡ a % 2 = omega (arith, bit_xor-parity a (2 * b)) in
    let cut : 2 * b / 2 ≡ b = omega arith in
    let half : bit_xor a (2 * b) / 2 ≡ bit_xor (a / 2) b = rw cut at (bit_xor-half a (2 * b)) in
    rw (parity, half)
      (elim (Bool-cases (a % 2 == 0)) [
        | inl e ↦ rw e
        | inr e ↦ rw e (sym (bit_xor_assoc polynomial (a / 2) b))
      ])

pub shift_bits-bit_xor :
    (n a b : ℕ) → shift_bits n (bit_xor a (2 ^ n * b)) ≡ bit_xor (shift_bits n a) b
shift_bits-bit_xor zero a b = ap (bit_xor a) (omega arith)
shift_bits-bit_xor (suc n) a b =
    let e : 2 ^ suc n * b ≡ 2 * (2 ^ n * b) = omega (arith, ap (λ (t : ℕ). t * b) (pow-suc 2 n)) in
    rw (e, shift_bit-bit_xor a (2 ^ n * b)) (shift_bits-bit_xor n (shift_bit a) b)

-- The low byte and the rest of a register are its parts under an exclusive or.
bit_xor_bytes : (c : ℕ) → bit_xor (c % 256) (2 ^ 8 * (c / 256)) ≡ c
bit_xor_bytes c = bit_xor_fields 8 (c % 256) (c / 256) (omega arith) ∙ omega arith

shift_bits-byte : (c : ℕ) → shift_bits 8 c ≡ bit_xor (shift_bits 8 (c % 256)) (c / 256)
shift_bits-byte c =
    ap (shift_bits 8) (sym (bit_xor_bytes c)) ∙ shift_bits-bit_xor 8 (c % 256) (c / 256)

-- One step through the table is eight steps of the register.
pub update_byte-shift_bits : (c b : ℕ) → b < 256 → update_byte c b ≡ shift_bits 8 (bit_xor c b)
unfolding update_byte
update_byte-shift_bits c b h =
    let high : bit_xor c b / 256 ≡ c / 256 =
      bit_xor-div_pow 8 c b
      ∙ ap (bit_xor (c / 256)) (let z : b / 256 ≡ 0 = omega arith in z)
      ∙ bit_xor_zero (c / 256) in
    let low : bit_xor c b % 256 < 256 = omega arith in
    rw (shift_bits-byte (bit_xor c b), high)
      (ap (λ t. bit_xor t (c / 256)) (get_or-make_table (bit_xor c b % 256) low))

pub update_state-serial : (c : ℕ) (buf : List ℕ) → IsBytes buf → update_state c buf ≡ serial c buf
unfolding update_state
update_state-serial c [] h = refl
update_state-serial c (b ∷ buf) (hb, h) =
    rw (update_byte-shift_bits c b hb) (update_state-serial (shift_bits 8 (bit_xor c b)) buf h)

-- The table-driven loop computes the bit-serial checksum of every byte string, from any state.
pub update-serial :
    (crc : Crc32) (buf : List ℕ)
    → IsBytes buf
    → finalize (update crc buf) ≡ bit_xor (serial crc.state buf) 0xFFFF_FFFF
unfolding update finalize
update-serial crc buf h = rw (update_state-serial crc.state buf h)

update_state-append :
    (c : ℕ) (xs ys : List ℕ) → update_state c (xs ++ ys) ≡ update_state (update_state c xs) ys
unfolding update_state
update_state-append c [] ys = refl
update_state-append c (x ∷ xs) ys = update_state-append (update_byte c x) xs ys

-- Writing in pieces is writing at once.
pub update-append :
    (crc : Crc32) (xs ys : List ℕ) → update crc (xs ++ ys) ≡ update (update crc xs) ys
unfolding update
update-append crc xs ys = ap (λ c. record { state = c }) (update_state-append crc.state xs ys)
