-- ===== src/Prelude/Digits.antt =====
-- Numbers in decimal: `{n}`, `{n:03}` and what such a text reads as.
use Prim.Native.Nat.{ℕ, zero, suc, ◌+◌, ◌-◌, ◌*◌, ◌/◌, ◌%◌, ◌≤◌, ◌<◌}
use mathlib.Core.Path.{◌≡◌, refl, sym, ap, ◌∙◌}
use mathlib.Core.Logic.{inl, inr}
use mathlib.Core.Bool.{true, false}
use mathlib.Core.List.{List, [], ◌∷◌, ◌++◌}
use native.Mathlib.Omega.{arith}
use zip_mania.Prelude.Tests.{ltb, ltb→lt, if◌then◌else◌, Bool-cases}
use zip_mania.Prelude.Lists.{length, length-append, replicate, All, All-append}

-- The digits of a number, the last one first computed; `fuel` bounds their count.
unfoldable pub digits_from : ℕ → ℕ → List ℕ
digits_from zero n = []
digits_from (suc fuel) n =
    let front = digits_from fuel (n / 10) in
    if ltb n 10 then (0x30 + n) ∷ [] else front ++ (0x30 + n % 10) ∷ []

unfoldable pub to_digits : ℕ → List ℕ
unfolding digits_from
to_digits n = digits_from (suc n) n

-- The number that a string of digits reads as.
abbrev pub value : ℕ → List ℕ → ℕ
value acc [] = acc
value acc (c ∷ cs) = value (acc * 10 + (c - 0x30)) cs

pub value-append : (xs ys : List ℕ) (acc : ℕ) → value acc (xs ++ ys) ≡ value (value acc xs) ys
value-append [] ys acc = refl
value-append (x ∷ xs) ys acc = value-append xs ys (acc * 10 + (x - 0x30))

shorter : (fuel n : ℕ) → n < suc fuel → ltb n 10 ≡ false → n / 10 < fuel
shorter fuel n h e = ground arith

pub value-digits_from : (fuel n : ℕ) → n < fuel → value 0 (digits_from fuel n) ≡ n
unfolding digits_from
value-digits_from zero n h = absurd (omega arith)
value-digits_from (suc fuel) n h = elim (Bool-cases (ltb n 10)) [
  | inl e ↦ rw e (omega arith)
  | inr e ↦
      let front : value 0 (digits_from fuel (n / 10)) ≡ n / 10 =
        value-digits_from fuel (n / 10) (shorter fuel n h e) in
      rw (e, value-append (digits_from fuel (n / 10)) ((0x30 + n % 10) ∷ []) 0, front) (omega arith)
]

pub to_digits-injective : (a b : ℕ) → to_digits a ≡ to_digits b → a ≡ b
unfolding to_digits
to_digits-injective a b h =
    sym (value-digits_from (suc a) a (omega arith))
    ∙ ap (value 0) h
    ∙ value-digits_from (suc b) b (omega arith)

abbrev pub IsDigit : ℕ → Type 0
IsDigit c = (0x30 ≤ c) × (c ≤ 0x39)

small-IsDigit : (n : ℕ) → ltb n 10 ≡ true → IsDigit (0x30 + n)
small-IsDigit n e = let h : n < 10 = ltb→lt n 10 e in (omega arith, omega arith)

digits_from-IsDigit : (fuel n : ℕ) → All IsDigit (digits_from fuel n)
unfolding digits_from
digits_from-IsDigit zero n = tt
digits_from-IsDigit (suc fuel) n = elim (Bool-cases (ltb n 10)) [
  | inl e ↦ rw e (small-IsDigit n e, tt)
  | inr e ↦ rw e (
      All-append IsDigit (digits_from fuel (n / 10)) ((0x30 + n % 10) ∷ [])
        (digits_from-IsDigit fuel (n / 10)) ((omega arith, omega arith), tt))
]

-- `{n:0width}`.
unfoldable pub pad_to : ℕ → ℕ → List ℕ
unfolding to_digits
pad_to width n = let digits = to_digits n in replicate (width - length digits) 0x30 ++ digits

-- `{n:03}`.
unfoldable pub pad3 : ℕ → List ℕ
unfolding to_digits
pad3 n = let digits = to_digits n in replicate (3 - length digits) 0x30 ++ digits

value-replicate : (k : ℕ) (cs : List ℕ) → value 0 (replicate k 0x30 ++ cs) ≡ value 0 cs
value-replicate zero cs = refl
value-replicate (suc k) cs = value-replicate k cs

pub value-pad3 : (n : ℕ) → value 0 (pad3 n) ≡ n
unfolding pad3 to_digits
value-pad3 n =
    value-replicate (3 - length (to_digits n)) (to_digits n)
    ∙ value-digits_from (suc n) n (omega arith)

All-replicate : (P : ℕ → Type 0) (k c : ℕ) → P c → All P (replicate k c)
All-replicate P zero c h = tt
All-replicate P (suc k) c h = (h, All-replicate P k c h)

pub pad3-IsDigit : (n : ℕ) → All IsDigit (pad3 n)
unfolding pad3 to_digits
pad3-IsDigit n =
    All-append IsDigit (replicate (3 - length (to_digits n)) 0x30) (to_digits n)
      (All-replicate IsDigit (3 - length (to_digits n)) 0x30 (omega arith, omega arith))
      (digits_from-IsDigit (suc n) n)

length-replicate : (k c : ℕ) → length (replicate k c) ≡ k
length-replicate zero c = omega arith
length-replicate (suc k) c = omega (arith, length-replicate k c)

pub length-pad3 : (n : ℕ) → 3 ≤ length (pad3 n)
unfolding pad3
length-pad3 n = omega (
  arith,
  length-append (replicate (3 - length (to_digits n)) 0x30) (to_digits n),
  length-replicate (3 - length (to_digits n)) 0x30,
)
