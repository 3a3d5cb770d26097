-- ===== src/Backend/Results.antt =====
-- backend/mod.rs: the results of the jobs and their progress. The status is a name in the source.
use native.Mathlib.Nat.{div-lt_iff_lt-mul, mul-div-le}
use zip_mania.Prelude.{
  ℕ, ◌-◌, ◌*◌, ◌/◌, ◌^◌, ◌≤◌, ◌<◌, ◌≡◌, refl, sym, ◌∙◌, arith, min, Bool, true, false, Bool-cases,
  inl, inr, Option, none, some, List, [], ◌∷◌, ◌==◌, if◌then◌else◌, length, length-take, take,
}
use zip_mania.Errors.{Code}

pub data MissingReason : Type 0 where
  unsafe_path size_mismatch create_dir create_file write commit read link stat : MissingReason
  dir_read entry_read missing unnamed : MissingReason

pub record MissingItem : Type 0 where
  pub path : List ℕ
  pub reason : MissingReason
  pub detail : Option (List ℕ)

unfoldable pub new_missing : List ℕ → MissingReason → MissingItem
new_missing path reason = record { path = path; reason = reason; detail = none }

unfoldable pub detailed : List ℕ → MissingReason → List ℕ → MissingItem
detailed path reason detail = record { path = path; reason = reason; detail = some detail }

abbrev pub missing_cap : ℕ
missing_cap = 50

unfoldable pub cap_missing : List MissingItem → List MissingItem × ℕ
cap_missing items = (take missing_cap items, length items)

pub data Status : Type 0 where
  fine warning canceled : Status

pub data ExtractResult : Type 0 where
  done : Status → List MissingItem → ℕ → ExtractResult
  failed : Code → ExtractResult

abbrev is_none : List MissingItem → Bool
is_none [] = true
is_none (m ∷ ms) = false

unfoldable pub finish : List MissingItem → ExtractResult
unfolding cap_missing
finish items =
    let (few, total) = cap_missing items in done (if is_none items then fine else warning) few total

unfoldable pub canceled_result : ExtractResult
canceled_result = done canceled [] 0

-- `CreateResult` has the same cases and the same two functions.
pub data CreateResult : Type 0 where
  created : Status → List MissingItem → ℕ → CreateResult
  not_created : Code → CreateResult

unfoldable pub finish_create : List MissingItem → CreateResult
unfolding cap_missing
finish_create items =
    let (few, total) = cap_missing items in
    created (if is_none items then fine else warning) few total

unfoldable pub canceled_create : CreateResult
canceled_create = created canceled [] 0

pub record Progress : Type 0 where
  pub percent : ℕ
  pub current_file : Option (List ℕ)
  pub done_bytes : ℕ
  pub total : ℕ

-- `done.saturating_mul(100)`.
abbrev hundredfold : ℕ → ℕ
hundredfold bytes = min (bytes * 100) (2 ^ 64 - 1)

unfoldable pub percent_of : ℕ → ℕ → ℕ
percent_of bytes total = if total == 0 then 0 else min (hundredfold bytes / total) 100

unfoldable pub new_progress : ℕ → ℕ → Option (List ℕ) → Progress
unfolding percent_of
new_progress bytes total current_file = record {
  percent = percent_of bytes total;
  current_file = current_file;
  done_bytes = bytes;
  total = total;
}

unfoldable pub finished : ℕ → Progress
finished total = record { percent = 100; current_file = none; done_bytes = total; total = total }

-- What a job that ends by `finish` reports: it is fine exactly if nothing is missing; at most fifty
-- of the missing items are listed, and all are counted.
pub finish-Status :
    (items : List MissingItem)
    → (status : Status) × (few : List MissingItem) × (total : ℕ) × (finish items
        ≡ done status few total)
      × (finish_create items ≡ created status few total)
      × (status ≡ fine → items ≡ [])
      × (items ≡ [] → status ≡ fine)
      × (length few ≡ min missing_cap total)
      × (total ≡ length items)
unfolding finish finish_create cap_missing
finish-Status [] = (fine, [], 0, refl, refl, (λ e. refl), (λ e. refl), refl, refl)
finish-Status (m ∷ ms) = (
  warning,
  take missing_cap (m ∷ ms),
  length (m ∷ ms),
  refl,
  refl,
  (λ e. cc),
  (λ e. cc),
  length-take missing_cap (m ∷ ms),
  refl,
)

quotient_few : (bytes total : ℕ) → 1 ≤ total → bytes ≤ total → bytes * 100 / total ≤ 100
quotient_few bytes total one few =
    let below : bytes * 100 / total < 101 = (div-lt_iff_lt-mul one).1 (omega arith) in omega arith

at_most : (bytes total : ℕ) → percent_of bytes total ≤ 100
unfolding percent_of
at_most bytes total = elim (Bool-cases (total == 0)) [
  | inl e ↦ rw (e, percent_of) (omega arith)
  | inr e ↦ rw (e, percent_of) (omega arith)
]

exactly :
    (bytes total : ℕ)
    → 1 ≤ total
    → bytes ≤ total
    → bytes * 100 < 2 ^ 64
    → percent_of bytes total ≡ bytes * 100 / total
unfolding percent_of
exactly bytes total one few fits =
    let nonzero : total == 0 ≡ false = ground arith in
    let small : min (bytes * 100) (2 ^ 64 - 1) ≡ bytes * 100 = omega arith in
    rw (nonzero, percent_of, small) (omega (arith, quotient_few bytes total one few))

whole : (bytes total : ℕ) → bytes ≤ total → bytes * 100 / total ≡ 100 → bytes ≡ total
whole bytes total few full =
    let most : total * 100 ≤ bytes * 100 = rw full at (mul-div-le (bytes * 100) total) in
    omega arith

-- While a hundred times the bytes fits 64 bits and no more is done than there is in all, the percentage
-- is the share in hundredths, rounded down, and is 100 only at the end; it is never above 100.
pub percent_of-share :
    (bytes total : ℕ)
    → (percent_of bytes total ≤ 100)
      × (1 ≤ total
          → bytes ≤ total
          → bytes * 100 < 2 ^ 64
          → (percent_of bytes total ≡ bytes * 100 / total)
            × (percent_of bytes total ≡ 100 → bytes ≡ total))
unfolding percent_of
percent_of-share bytes total = (
  at_most bytes total,
  λ one few fits.
      let exact = exactly bytes total one few fits in
      (exact, λ full. whole bytes total few (sym exact ∙ full)),
)
