-- ===== src/Paths/Texts.antt =====
-- The methods of `str` that paths.rs uses, on lists of code points.
use zip_mania.Prelude.{
  ℕ, ◌-◌, Bool, true, false, ◌||◌, ◌&&◌, List, [], ◌∷◌, map, leb, ◌==◌, if◌then◌else◌,
}

abbrev pub is_empty {ℓ} : {A : Type ℓ} → List A → Bool
is_empty [] = true
is_empty (x ∷ xs) = false

abbrev pub is_ascii_alphabetic : ℕ → Bool
is_ascii_alphabetic c = (leb 0x41 c && leb c 0x5A) || (leb 0x61 c && leb c 0x7A)

-- The code points of the property White_Space.
unfoldable pub is_whitespace : ℕ → Bool
is_whitespace c =
    (leb 0x09 c && leb c 0x0D)
    || c == 0x20
    || c == 0x85
    || c == 0xA0
    || c == 0x1680
    || (leb 0x2000 c && leb c 0x200A)
    || c == 0x2028
    || c == 0x2029
    || c == 0x202F
    || c == 0x205F
    || c == 0x3000

unfoldable pub trim_start_matches : (ℕ → Bool) → List ℕ → List ℕ
trim_start_matches p [] = []
trim_start_matches p (c ∷ cs) = let rest = trim_start_matches p cs in if p c then rest else c ∷ cs

unfoldable pub trim_end_matches : (ℕ → Bool) → List ℕ → List ℕ
trim_end_matches p [] = []
trim_end_matches p (c ∷ cs) =
    let rest = trim_end_matches p cs in if is_empty rest && p c then [] else c ∷ rest

unfoldable pub trim : List ℕ → List ℕ
unfolding trim_end_matches trim_start_matches is_whitespace
trim s = trim_end_matches is_whitespace (trim_start_matches is_whitespace s)

-- `split(sep)`: the first piece and the others; there is always a first one.
unfoldable pub pieces : ℕ → List ℕ → List ℕ × List (List ℕ)
pieces sep [] = ([], [])
pieces sep (c ∷ cs) =
    let (first, others) = pieces sep cs in
    if c == sep then ([], first ∷ others) else (c ∷ first, others)

unfoldable pub split : ℕ → List ℕ → List (List ℕ)
unfolding pieces
split sep s = let (first, others) = pieces sep s in first ∷ others

unfoldable pub split_first : ℕ → List ℕ → List ℕ
unfolding pieces
split_first sep s = (pieces sep s).0

unfoldable pub to_ascii_upper : ℕ → ℕ
to_ascii_upper c = if leb 0x61 c && leb c 0x7A then c - 0x20 else c

unfoldable pub to_ascii_uppercase : List ℕ → List ℕ
unfolding to_ascii_upper
to_ascii_uppercase s = map to_ascii_upper s
