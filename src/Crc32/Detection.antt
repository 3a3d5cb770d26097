-- ===== src/Crc32/Detection.antt =====
-- What the checksum detects: a change within any four bytes in a row.
use zip_mania.Prelude.{
  ℕ, zero, suc, ◌+◌, ◌*◌, ◌/◌, ◌%◌, ◌^◌, ◌≤◌, ◌<◌, bit_xor, ◌≡◌, ◌≢◌, refl, ap, sym, ◌∙◌, arith,
  List, [], ◌∷◌, ◌++◌, ◌==◌, IsBytes, IsByte, length, from_le_bytes, from_le_bytes-injective, inl,
  inr, Bool-cases, All-append,
}
use zip_mania.Prelude.Bits.{
  bit_xor_assoc, bit_xor_comm, bit_xor_cancel, bit_xor_zero, bit_xor-lt, bit_xor-div_pow,
  bit_xor_fields,
}
use zip_mania.Crc32.{polynomial, Crc32, update, finalize}
use zip_mania.Crc32.Bitwise.{shift_bit, shift_bits, serial, shift_bits-bit_xor, update_state-serial}

pub bit_xor_left_injective : (k a b : ℕ) → bit_xor k a ≡ bit_xor k b → a ≡ b
bit_xor_left_injective k a b e =
    sym (bit_xor_cancel a k)
    ∙ ap (λ t. bit_xor t k) (bit_xor_comm a k ∙ e ∙ bit_xor_comm k b)
    ∙ bit_xor_cancel b k

-- A shift that drops a one sets the highest bit, by the polynomial.
polynomial_high : (x : ℕ) → x < 2 ^ 31 → 2 ^ 31 ≤ bit_xor polynomial x
polynomial_high x h =
    let cut : x / 2 ^ 31 ≡ 0 = omega arith in
    let high : bit_xor polynomial x / 2 ^ 31 ≡ 1 =
      bit_xor-div_pow 31 polynomial x ∙ ap (bit_xor 1) cut in
    omega arith

shift_bit-lt : (c : ℕ) → c < 2 ^ 32 → shift_bit c < 2 ^ 32
shift_bit-lt c h = elim (Bool-cases (c % 2 == 0)) [
  | inl e ↦ rw e (omega arith)
  | inr e ↦ rw e (bit_xor-lt 32 polynomial (c / 2) (omega arith) (omega arith))
]

shift_bit-injective : (a b : ℕ) → a < 2 ^ 32 → b < 2 ^ 32 → shift_bit a ≡ shift_bit b → a ≡ b
shift_bit-injective a b ha hb e = ground (
  arith,
  polynomial_high (a / 2) (omega arith),
  polynomial_high (b / 2) (omega arith),
  bit_xor_left_injective polynomial (a / 2) (b / 2),
)

shift_bits-lt : (n c : ℕ) → c < 2 ^ 32 → shift_bits n c < 2 ^ 32
shift_bits-lt zero c h = h
shift_bits-lt (suc n) c h = shift_bits-lt n (shift_bit c) (shift_bit-lt c h)

shift_bits-injective :
    (n a b : ℕ) → a < 2 ^ 32 → b < 2 ^ 32 → shift_bits n a ≡ shift_bits n b → a ≡ b
shift_bits-injective zero a b ha hb e = e
shift_bits-injective (suc n) a b ha hb e =
    shift_bit-injective a b ha hb
      (shift_bits-injective n (shift_bit a) (shift_bit b) (shift_bit-lt a ha) (shift_bit-lt b hb) e)

byte_fits : (b : ℕ) → IsByte b → b < 2 ^ 32
byte_fits b h = omega arith

serial-lt : (c : ℕ) (bs : List ℕ) → c < 2 ^ 32 → IsBytes bs → serial c bs < 2 ^ 32
serial-lt c [] h k = h
serial-lt c (b ∷ bs) h (hb, k) =
    serial-lt (shift_bits 8 (bit_xor c b)) bs
      (shift_bits-lt 8 _ (bit_xor-lt 32 c b h (byte_fits b hb))) k

-- The register stays a 32-bit word.
pub update-lt :
    (crc : Crc32) (buf : List ℕ)
    → crc.state < 2 ^ 32
    → IsBytes buf
    → (update crc buf).state < 2 ^ 32
unfolding update
update-lt crc buf h k = rw (update_state-serial crc.state buf k) (serial-lt crc.state buf h k)

serial-injective :
    (c d : ℕ) (bs : List ℕ)
    → c < 2 ^ 32
    → d < 2 ^ 32
    → IsBytes bs
    → serial c bs ≡ serial d bs
    → c ≡ d
serial-injective c d [] hc hd h e = e
serial-injective c d (b ∷ bs) hc hd (hb, h) e =
    let hc' = bit_xor-lt 32 c b hc (byte_fits b hb) in
    let hd' = bit_xor-lt 32 d b hd (byte_fits b hb) in
    let same = shift_bits-injective 8 (bit_xor c b) (bit_xor d b) hc' hd' (
      serial-injective (shift_bits 8 (bit_xor c b)) (shift_bits 8 (bit_xor d b)) bs
        (shift_bits-lt 8 (bit_xor c b) hc') (shift_bits-lt 8 (bit_xor d b) hd') h e) in
    bit_xor_left_injective b c d (bit_xor_comm b c ∙ same ∙ bit_xor_comm d b)

-- `n` rounds and then `m` rounds.
shift_bits-shift_bits : (n m k c : ℕ) → n + m ≡ k → shift_bits m (shift_bits n c) ≡ shift_bits k c
shift_bits-shift_bits zero m k c e = ap (λ j. shift_bits j c) (let e' : m ≡ k = omega arith in e')
shift_bits-shift_bits (suc n) m zero c e = absurd (omega arith)
shift_bits-shift_bits (suc n) m (suc k) c e =
    shift_bits-shift_bits n m k (shift_bit c) (omega arith)

-- A block of bytes enters the register as one little-endian number.
serial-from_le_bytes :
    (bs : List ℕ) (c : ℕ)
    → IsBytes bs
    → serial c bs ≡ shift_bits (8 * length bs) (bit_xor c (from_le_bytes bs))
serial-from_le_bytes [] c h = sym (bit_xor_zero c)
serial-from_le_bytes (b ∷ bs) c (hb, h) =
    serial-from_le_bytes bs (shift_bits 8 (bit_xor c b)) h
    ∙ ap (shift_bits (8 * length bs)) (sym (shift_bits-bit_xor 8 (bit_xor c b) (from_le_bytes bs)))
    ∙ shift_bits-shift_bits 8 (8 * length bs) (8 * suc (length bs)) _ (omega arith)
    ∙ ap (shift_bits (8 * suc (length bs)))
        (bit_xor_assoc c b _ ∙ ap (bit_xor c) (bit_xor_fields 8 b (from_le_bytes bs) hb))

serial-append : (xs ys : List ℕ) (c : ℕ) → serial c (xs ++ ys) ≡ serial (serial c xs) ys
serial-append [] ys c = refl
serial-append (x ∷ xs) ys c = serial-append xs ys (shift_bits 8 (bit_xor c x))

le_fits : (bs : List ℕ) → IsBytes bs → length bs ≤ 4 → from_le_bytes bs < 2 ^ 32
le_fits [] h k = omega arith
le_fits (a ∷ []) h k = omega arith
le_fits (a ∷ b ∷ []) h k = omega arith
le_fits (a ∷ b ∷ c ∷ []) h k = omega arith
le_fits (a ∷ b ∷ c ∷ d ∷ []) h k = omega arith
le_fits (a ∷ b ∷ c ∷ d ∷ e ∷ bs) h k = absurd (omega arith)

-- From one register, two blocks of at most four bytes lead to different registers.
block-injective :
    (c : ℕ) (xs ys : List ℕ)
    → c < 2 ^ 32
    → IsBytes xs
    → IsBytes ys
    → length xs ≡ length ys
    → length xs ≤ 4
    → serial c xs ≡ serial c ys
    → xs ≡ ys
block-injective c xs ys hc hx hy l fits e =
    let vx = le_fits xs hx fits in
    let vy = le_fits ys hy (omega arith) in
    let same =
      sym (serial-from_le_bytes xs c hx)
      ∙ e
      ∙ serial-from_le_bytes ys c hy
      ∙ ap (λ n. shift_bits (8 * n) (bit_xor c (from_le_bytes ys))) (sym l) in
    from_le_bytes-injective xs ys hx hy l (
      bit_xor_left_injective c (from_le_bytes xs) (from_le_bytes ys) (
        shift_bits-injective (8 * length xs) _ _ (bit_xor-lt 32 c _ hc vx) (bit_xor-lt 32 c _ hc vy)
          same))

-- Two byte strings that agree outside the window, and have one checksum, agree in it.
window_determined :
    (crc : Crc32) (before xs ys after : List ℕ)
    → crc.state < 2 ^ 32
    → IsBytes before
    → IsBytes xs
    → IsBytes ys
    → IsBytes after
    → length xs ≡ length ys
    → length xs ≤ 4
    → finalize (update crc (before ++ (xs ++ after)))
      ≡ finalize (update crc (before ++ (ys ++ after)))
    → xs ≡ ys
unfolding update finalize
window_determined crc before xs ys after hc hb hx hy ha l fits e =
    let c = serial crc.state before in
    let hc' = serial-lt crc.state before hc hb in
    let state = λ (zs : List ℕ) (hz : IsBytes zs).
      update_state-serial crc.state (before ++ (zs ++ after))
        (All-append IsByte before _ hb (All-append IsByte zs after hz ha))
      ∙ serial-append before (zs ++ after) crc.state
      ∙ serial-append zs after c in
    let ends =
      sym (state xs hx)
      ∙ bit_xor_left_injective 0xFFFF_FFFF _ _
          (bit_xor_comm 0xFFFF_FFFF _ ∙ e ∙ bit_xor_comm _ 0xFFFF_FFFF)
      ∙ state ys hy in
    block-injective c xs ys hc' hx hy l fits (
      serial-injective (serial c xs) (serial c ys) after (serial-lt c xs hc' hx)
        (serial-lt c ys hc' hy) ha ends)

-- The checksum detects every change within any four bytes in a row: two byte strings of one length
-- that differ only there have different checksums, from any 32-bit state of the register.
pub burst_detected :
    (crc : Crc32) (before xs ys after : List ℕ)
    → crc.state < 2 ^ 32
    → IsBytes before
    → IsBytes xs
    → IsBytes ys
    → IsBytes after
    → length xs ≡ length ys
    → length xs ≤ 4
    → xs ≢ ys
    → finalize (update crc (before ++ (xs ++ after)))
      ≢ finalize (update crc (before ++ (ys ++ after)))
burst_detected crc before xs ys after hc hb hx hy ha l fits differ e =
    differ (window_determined crc before xs ys after hc hb hx hy ha l fits e)
