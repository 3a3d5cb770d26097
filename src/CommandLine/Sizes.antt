-- ===== src/CommandLine/Sizes.antt =====
-- cmdline.rs: `parse_size`, the size of a volume. Errors are texts for the user, and are told apart
-- here by their reason.
use zip_mania.Prelude.{
  ℕ, ◌+◌, ◌*◌, ◌^◌, ◌≤◌, ◌<◌, ◌≡◌, sym, arith, false, ◌&&◌, Option, none, some, Option-cases, List,
  [], ◌∷◌, map, leb, ltb, ltb→lt, ◌==◌, if◌then◌else◌, Bool-cases, inl, inr,
}
use zip_mania.Prelude.Digits.{value}
use zip_mania.Paths.Texts.{trim, trim_end_matches}

pub data SizeError : Type 0 where
  not_a_size too_large bad_unit is_zero : SizeError

pub data Parsed : Type 0 where
  size : ℕ → Parsed
  refused : SizeError → Parsed

unfoldable pub to_ascii_lower : ℕ → ℕ
to_ascii_lower c = if leb 0x41 c && leb c 0x5A then c + 0x20 else c

-- The digits in front, and what follows them.
unfoldable pub split_digits : List ℕ → List ℕ × List ℕ
split_digits [] = ([], [])
split_digits (c ∷ cs) =
    let (front, back) = split_digits cs in
    if leb 0x30 c && leb c 0x39 then (c ∷ front, back) else ([], c ∷ cs)

-- What a unit multiplies by, none if it is no unit.
unfoldable pub multiplier : List ℕ → Option ℕ
multiplier [] = some 1
multiplier (c ∷ []) =
    if c == 0x6B
    then some (2 ^ 10)
    else if c == 0x6D
    then some (2 ^ 20)
    else if c == 0x67
    then some (2 ^ 30)
    else none
multiplier _ = none

-- The product, checked.
unfoldable pub scaled : ℕ → ℕ → Parsed
scaled n mul =
    if ltb (n * mul) (2 ^ 64)
    then if n * mul == 0 then refused is_zero else size (n * mul)
    else refused too_large

unfoldable pub size_of : List ℕ → List ℕ → Parsed
size_of [] unit = refused not_a_size
size_of (d ∷ ds) unit =
    if ltb (value 0 (d ∷ ds)) (2 ^ 64)
    then elim (multiplier (trim_end_matches (λ c. c == 0x62) unit)) [
      | none ↦ refused bad_unit
      | some mul ↦ scaled (value 0 (d ∷ ds)) mul
    ]
    else refused too_large

unfoldable pub parse_size : List ℕ → Parsed
parse_size s =
    let (digits, unit) = split_digits (map to_ascii_lower (trim s)) in size_of digits unit

size-injective : {a b : ℕ} → size a ≡ size b → a ≡ b
size-injective h = cc

not_zero : (n : ℕ) → (n == 0) ≡ false → 1 ≤ n
not_zero n h = ground arith

scaled-size : (n mul : ℕ) {v : ℕ} → scaled n mul ≡ size v → (v ≡ n * mul) × (1 ≤ v) × (v < 2 ^ 64)
unfolding scaled
scaled-size n mul h = elim (Bool-cases (ltb (n * mul) (2 ^ 64))) [
  | inr e ↦ cc (rw e at h)
  | inl e ↦ elim (Bool-cases (n * mul == 0)) [
    | inl z ↦ cc (rw (e, z) at h)
    | inr z ↦
        let same = size-injective (rw (e, z) at h) in
        let some_bytes : 1 ≤ n * mul = not_zero (n * mul) z in
        (sym same, omega (arith, same), omega (arith, same, ltb→lt (n * mul) (2 ^ 64) e))
  ]
]

size_of-size :
    (digits unit : List ℕ) {v : ℕ}
    → size_of digits unit ≡ size v
    → (mul : ℕ) × (multiplier (trim_end_matches (λ c. c == 0x62) unit) ≡ some mul)
      × (v ≡ value 0 digits * mul)
      × (1 ≤ v)
      × (v < 2 ^ 64)
unfolding size_of
size_of-size [] unit h = cc
size_of-size (d ∷ ds) unit h = elim (Bool-cases (ltb (value 0 (d ∷ ds)) (2 ^ 64))) [
  | inr e ↦ cc (rw e at h)
  | inl e ↦ elim (Option-cases (multiplier (trim_end_matches (λ c. c == 0x62) unit))) [
    | inl m ↦ cc (rw (e, m) at h)
    | inr (mul, m) ↦
        let (same, one, fits) = scaled-size (value 0 (d ∷ ds)) mul (rw (e, m) at h) in
        (mul, m, same, one, fits)
  ]
]

pub parse_size-size :
    (s : List ℕ) {v : ℕ}
    → parse_size s ≡ size v
    → let (digits, unit) = split_digits (map to_ascii_lower (trim s)) in
      (mul : ℕ) × (multiplier (trim_end_matches (λ c. c == 0x62) unit) ≡ some mul)
      × (v ≡ value 0 digits * mul)
      × (1 ≤ v)
      × (v < 2 ^ 64)
unfolding parse_size
parse_size-size s h =
    let (digits, unit) = split_digits (map to_ascii_lower (trim s)) in size_of-size digits unit h
