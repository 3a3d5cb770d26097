-- ===== src/Prelude/Bits.antt =====
-- Laws of `bit_xor` at variables, from the digits that the native operation stands for.
use Prim.Native.Nat.{
  ℕ, zero, suc, ◌+◌, ◌*◌, ◌/◌, ◌%◌, ◌^◌, ◌≤◌, ◌<◌, differ, bit_xor, digits, bitwise,
  bit_xor-bitwise,
}
use mathlib.Core.Path.{◌≡◌, refl, sym, ap, ◌∙◌}
use native.Mathlib.Nat.{le_refl, pow-suc, div-div-eq-div-mul}
use native.Mathlib.Omega.{arith}

module _ (left : ℕ → ℕ) (op : ℕ → ℕ → ℕ) where
  digits_bound : (k l x y : ℕ) → x ≤ k → x ≤ l → digits left op k x y ≡ digits left op l x y
  digits_bound zero (suc l) (suc x) y g h = absurd (omega arith)
  digits_bound (suc k) zero (suc x) y g h = absurd (omega arith)
  digits_bound (suc k) (suc l) (suc x) y g h =
      let half = digits_bound k l (suc x / 2) (y / 2) (omega arith) (omega arith) in rw half
  digits_bound zero zero x y g h = refl
  digits_bound zero (suc l) zero y g h = refl
  digits_bound (suc k) zero zero y g h = refl
  digits_bound (suc k) (suc l) zero y g h = refl

  bitwise-suc :
      (x y : ℕ)
      → bitwise left op (suc x) y ≡ bitwise left op (suc x / 2) (y / 2) * 2 + op (suc x % 2) (y % 2)
  bitwise-suc x y =
      let half : suc x / 2 ≤ x = omega arith in
      omega (arith, digits_bound x (suc x / 2) (suc x / 2) (y / 2) half (le_refl _))

differ-eq-mod : (a b : ℕ) → a < 2 → b < 2 → differ a b ≡ (a + b) % 2
differ-eq-mod zero b h k = omega arith
differ-eq-mod (suc zero) zero h k = refl
differ-eq-mod (suc zero) (suc zero) h k = refl
differ-eq-mod (suc zero) (suc (suc b)) h k = absurd (omega arith)
differ-eq-mod (suc (suc a)) b h k = absurd (omega arith)

-- The digit equation: both numbers lose their lowest digit.
bit_xor_step : (a b : ℕ) → bit_xor a b ≡ bit_xor (a / 2) (b / 2) * 2 + (a % 2 + b % 2) % 2
bit_xor_step zero b = simp bit_xor-bitwise (omega arith)
bit_xor_step (suc a) b = simp bit_xor-bitwise (
    omega (
      arith,
      bitwise-suc (λ y. y) differ a b,
      differ-eq-mod (suc a % 2) (b % 2) (omega arith) (omega arith),
    ))

-- The lowest digit and the rest of an exclusive or.
pub bit_xor-half : (a b : ℕ) → bit_xor a b / 2 ≡ bit_xor (a / 2) (b / 2)
bit_xor-half a b = omega (arith, bit_xor_step a b)

pub bit_xor-parity : (a b : ℕ) → bit_xor a b % 2 ≡ (a + b) % 2
bit_xor-parity a b = omega (arith, bit_xor_step a b)

bit_xor_comm_below : (n a b : ℕ) → a ≤ n → b ≤ n → bit_xor a b ≡ bit_xor b a
bit_xor_comm_below zero zero zero p q = refl
bit_xor_comm_below zero (suc a) b p q = absurd (omega arith)
bit_xor_comm_below zero zero (suc b) p q = absurd (omega arith)
bit_xor_comm_below (suc n) a b p q = omega (
  arith,
  bit_xor_step a b,
  bit_xor_step b a,
  bit_xor_comm_below n (a / 2) (b / 2) (omega arith) (omega arith),
)

pub bit_xor_comm : (a b : ℕ) → bit_xor a b ≡ bit_xor b a
bit_xor_comm a b = bit_xor_comm_below (a + b) a b (omega arith) (omega arith)

bit_xor_assoc_below :
    (n a b c : ℕ) → a ≤ n → b ≤ n → c ≤ n → bit_xor (bit_xor a b) c ≡ bit_xor a (bit_xor b c)
bit_xor_assoc_below zero zero zero zero p q r = refl
bit_xor_assoc_below zero (suc a) b c p q r = absurd (omega arith)
bit_xor_assoc_below zero zero (suc b) c p q r = absurd (omega arith)
bit_xor_assoc_below zero zero zero (suc c) p q r = absurd (omega arith)
bit_xor_assoc_below (suc n) a b c p q r = omega (
  arith,
  bit_xor_step (bit_xor a b) c,
  bit_xor_step a (bit_xor b c),
  rw (← bit_xor-half a b, ← bit_xor-half b c) at
      (bit_xor_assoc_below n (a / 2) (b / 2) (c / 2) (omega arith) (omega arith) (omega arith)),
  bit_xor-parity a b,
  bit_xor-parity b c,
)

pub bit_xor_assoc : (a b c : ℕ) → bit_xor (bit_xor a b) c ≡ bit_xor a (bit_xor b c)
bit_xor_assoc a b c =
    bit_xor_assoc_below (a + b + c) a b c (omega arith) (omega arith) (omega arith)

pub bit_xor_zero : (a : ℕ) → bit_xor a 0 ≡ a
bit_xor_zero a = bit_xor_comm a 0 ∙ bit_xor-bitwise 0 a

pub zero-bit_xor : (a : ℕ) → bit_xor 0 a ≡ a
zero-bit_xor a = bit_xor-bitwise 0 a

bit_xor_self_below : (n a : ℕ) → a ≤ n → bit_xor a a ≡ 0
bit_xor_self_below zero zero p = refl
bit_xor_self_below zero (suc a) p = absurd (omega arith)
bit_xor_self_below (suc n) a p =
    omega (arith, bit_xor_step a a, bit_xor_self_below n (a / 2) (omega arith))

pub bit_xor_self : (a : ℕ) → bit_xor a a ≡ 0
bit_xor_self a = bit_xor_self_below a a (omega arith)

-- A mask applied twice is no mask.
pub bit_xor_cancel : (a b : ℕ) → bit_xor (bit_xor a b) b ≡ a
bit_xor_cancel a b = rw (bit_xor_assoc, bit_xor_self) (bit_xor_zero a)

pub bit_xor-lt : (k a b : ℕ) → a < 2 ^ k → b < 2 ^ k → bit_xor a b < 2 ^ k
bit_xor-lt zero zero zero p q = omega arith
bit_xor-lt zero (suc a) b p q = absurd (omega arith)
bit_xor-lt zero zero (suc b) p q = absurd (omega arith)
bit_xor-lt (suc k) a b p q =
    let p' : a / 2 < 2 ^ k = omega (arith, pow-suc 2 k) in
    let q' : b / 2 < 2 ^ k = omega (arith, pow-suc 2 k) in
    omega (arith, pow-suc 2 k, bit_xor_step a b, bit_xor-lt k (a / 2) (b / 2) p' q')

div_pow-suc : (k a : ℕ) → a / 2 ^ suc k ≡ a / 2 ^ k / 2
div_pow-suc k a = rw pow-suc (sym (div-div-eq-div-mul a (2 ^ k) 2))

-- Cutting off `k` low digits goes through an exclusive or.
pub bit_xor-div_pow : (k a b : ℕ) → bit_xor a b / 2 ^ k ≡ bit_xor (a / 2 ^ k) (b / 2 ^ k)
bit_xor-div_pow zero a b = let e : (n : ℕ) → n / 1 ≡ n = λ n. omega arith in rw (e, e, e)
bit_xor-div_pow (suc k) a b =
    rw (div_pow-suc k (bit_xor a b), div_pow-suc k a, div_pow-suc k b, bit_xor-div_pow k a b)
      (bit_xor-half (a / 2 ^ k) (b / 2 ^ k))

-- A low field and a high field are joined by an exclusive or as by a sum.
pub bit_xor_fields : (k r q : ℕ) → r < 2 ^ k → bit_xor r (2 ^ k * q) ≡ r + 2 ^ k * q
bit_xor_fields zero zero q h = zero-bit_xor (1 * q) ∙ omega arith
bit_xor_fields zero (suc r) q h = absurd (omega arith)
bit_xor_fields (suc k) r q h =
    let e : 2 ^ suc k * q ≡ 2 * (2 ^ k * q) = omega (arith, ap (λ (t : ℕ). t * q) (pow-suc 2 k)) in
    let low : r / 2 < 2 ^ k = omega (arith, pow-suc 2 k) in
    let cut : 2 * (2 ^ k * q) / 2 ≡ 2 ^ k * q = omega arith in
    rw e
      (omega (arith, rw cut at (bit_xor_step r (2 * (2 ^ k * q))), bit_xor_fields k (r / 2) q low))
