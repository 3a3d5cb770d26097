-- ===== src/Volumes/Names.antt =====
-- volumes.rs: the names of volumes and the opening of a set. A path is its file name here: both
-- functions keep the directory. What the disk holds is a parameter, a file of each name or none.
use zip_mania.Prelude.{
  ℕ, ◌^◌, ◌<◌, ◌≡◌, ◌≢◌, refl, arith, Bool, true, false, not, ◌||◌, ◌&&◌, Option, none, some, List,
  [], ◌∷◌, ◌++◌, ltb, leb, ◌==◌, ==_iff, ==_refl, le→ltb, lt→ltb, if◌then◌else◌, length, All, all,
  Bool-cases, inl, inr,
}
use zip_mania.Prelude.Digits.{value, pad3, value-pad3, pad3-IsDigit, length-pad3, IsDigit}

unfoldable pub volume_name : List ℕ → ℕ → List ℕ
volume_name target index = target ++ (0x2E ∷ pad3 index)

-- `rsplit_once`: what stands before and behind the last separator.
unfoldable pub rsplit_once : ℕ → List ℕ → Option (List ℕ × List ℕ)
rsplit_once sep [] = none
rsplit_once sep (c ∷ cs) = elim (rsplit_once sep cs) [
  | some (front, back) ↦ some (c ∷ front, back)
  | none ↦ if c == sep then some ([], cs) else none
]

abbrev is_ascii_digit : ℕ → Bool
is_ascii_digit c = leb 0x30 c && leb c 0x39

abbrev is_empty : List ℕ → Bool
is_empty [] = true
is_empty (c ∷ cs) = false

-- `num.parse::<u64>().ok()` of a text of digits.
unfoldable pub parse_u64 : List ℕ → Option ℕ
parse_u64 num = if ltb (value 0 num) (2 ^ 64) then some (value 0 num) else none

unfoldable pub base_of : List ℕ → List ℕ → Option (List ℕ)
unfolding parse_u64
base_of base num =
    if is_empty base || ltb (length num) 3 || not (all is_ascii_digit num)
    then none
    else elim (parse_u64 num) [ none ↦ none | some n ↦ if n == 1 then some base else none ]

unfoldable pub split_base : List ℕ → Option (List ℕ)
split_base name = elim (rsplit_once 0x2E name) [ none ↦ none | some (base, num) ↦ base_of base num ]

pub no_separator : (sep : ℕ) (cs : List ℕ) → All (λ c. c ≢ sep) cs → rsplit_once sep cs ≡ none
unfolding rsplit_once
no_separator sep [] h = refl
no_separator sep (c ∷ cs) h = elim (Bool-cases (c == sep)) [
  | inl e ↦ absurd (h.0 ((==_iff c sep).0 e))
  | inr e ↦ rw (no_separator sep cs h.1, e) refl
]

pub rsplit_once-append :
    (sep : ℕ) (front back : List ℕ)
    → All (λ c. c ≢ sep) back
    → rsplit_once sep (front ++ (sep ∷ back)) ≡ some (front, back)
unfolding rsplit_once
rsplit_once-append sep [] back h = rw (no_separator sep back h, ==_refl sep) refl
rsplit_once-append sep (c ∷ front) back h = rw (rsplit_once-append sep front back h) refl

digit_test : (c : ℕ) → IsDigit c → is_ascii_digit c ≡ true
digit_test c h = ground (arith, h.0, h.1)

all-digits : (cs : List ℕ) → All IsDigit cs → all is_ascii_digit cs ≡ true
all-digits [] h = refl
all-digits (c ∷ cs) h =
    let first : is_ascii_digit c ≡ true = digit_test c h.0 in rw (first, all-digits cs h.1) refl

digits_have_no_dot : (cs : List ℕ) → All IsDigit cs → All (λ c. c ≢ 0x2E) cs
digits_have_no_dot [] h = tt
digits_have_no_dot (c ∷ cs) h = ((λ e. omega (arith, h.0.0)), digits_have_no_dot cs h.1)

is_empty-not : (cs : List ℕ) → cs ≢ [] → is_empty cs ≡ false
is_empty-not [] h = absurd (h refl)
is_empty-not (c ∷ cs) h = refl

base_of-pad3 :
    (name : List ℕ) (index : ℕ)
    → name ≢ []
    → index < 2 ^ 64
    → base_of name (pad3 index) ≡ (if index == 1 then some name else none)
unfolding base_of parse_u64
base_of-pad3 name index h k =
    rw
      (
        is_empty-not name h,
        le→ltb (length (pad3 index)) 3 (length-pad3 index),
        all-digits (pad3 index) (pad3-IsDigit index),
        value-pad3 index,
        lt→ltb index (2 ^ 64) k,
      )
      refl

-- Of the volumes of a file, named by `volume_name`, exactly the first is recognised, and its name
-- leads back to the name of the file.
pub split_base-volume_name :
    (target : List ℕ) (index : ℕ)
    → target ≢ []
    → index < 2 ^ 64
    → split_base (volume_name target index) ≡ (if index == 1 then some target else none)
unfolding split_base volume_name
split_base-volume_name target index h k =
    rw
      (
        rsplit_once-append 0x2E target (pad3 index)
            (digits_have_no_dot (pad3 index) (pad3-IsDigit index)),
        base_of-pad3 target index h k,
        split_base,
      )
      refl
