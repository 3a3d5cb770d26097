-- ===== src/Paths.antt =====
-- crates/zipmania-archive/src/paths.rs: the name of an entry as a path below the output root. A
-- text is its list of code points; a relative `PathBuf` is the list of its components, since no
-- component that is pushed holds a separator.
pub mod Texts
pub mod Safe
pub mod Under
use zip_mania.Prelude.{
  ℕ, ◌-◌, ◌≤◌, ◌≡◌, Bool, true, false, not, ◌||◌, ◌&&◌, Option, none, some, List, [], ◌∷◌, map, ltb,
  leb, ◌==◌, if◌then◌else◌, any, eq_list, drop,
}
use zip_mania.Errors.{Result, ok, err, unsafe_path, ◌>>=◌, ◌>>◌, refuse_if}
use zip_mania.Paths.Texts.{
  split, split_first, trim, trim_end_matches, to_ascii_uppercase, is_ascii_alphabetic, is_empty,
}

abbrev pub slash : ℕ
slash = 0x2F

abbrev pub backslash : ℕ
backslash = 0x5C

abbrev pub colon : ℕ
colon = 0x3A

abbrev pub dot : ℕ
dot = 0x2E

abbrev pub underscore : ℕ
underscore = 0x5F

-- `CON PRN AUX NUL`, `COM1` to `COM9`, `LPT1` to `LPT9`.
abbrev pub win_reserved : List (List ℕ)
win_reserved =
    (0x43 ∷ 0x4F ∷ 0x4E ∷ [])
    ∷ (0x50 ∷ 0x52 ∷ 0x4E ∷ [])
    ∷ (0x41 ∷ 0x55 ∷ 0x58 ∷ [])
    ∷ (0x4E ∷ 0x55 ∷ 0x4C ∷ [])
    ∷ (0x43 ∷ 0x4F ∷ 0x4D ∷ 0x31 ∷ [])
    ∷ (0x43 ∷ 0x4F ∷ 0x4D ∷ 0x32 ∷ [])
    ∷ (0x43 ∷ 0x4F ∷ 0x4D ∷ 0x33 ∷ [])
    ∷ (0x43 ∷ 0x4F ∷ 0x4D ∷ 0x34 ∷ [])
    ∷ (0x43 ∷ 0x4F ∷ 0x4D ∷ 0x35 ∷ [])
    ∷ (0x43 ∷ 0x4F ∷ 0x4D ∷ 0x36 ∷ [])
    ∷ (0x43 ∷ 0x4F ∷ 0x4D ∷ 0x37 ∷ [])
    ∷ (0x43 ∷ 0x4F ∷ 0x4D ∷ 0x38 ∷ [])
    ∷ (0x43 ∷ 0x4F ∷ 0x4D ∷ 0x39 ∷ [])
    ∷ (0x4C ∷ 0x50 ∷ 0x54 ∷ 0x31 ∷ [])
    ∷ (0x4C ∷ 0x50 ∷ 0x54 ∷ 0x32 ∷ [])
    ∷ (0x4C ∷ 0x50 ∷ 0x54 ∷ 0x33 ∷ [])
    ∷ (0x4C ∷ 0x50 ∷ 0x54 ∷ 0x34 ∷ [])
    ∷ (0x4C ∷ 0x50 ∷ 0x54 ∷ 0x35 ∷ [])
    ∷ (0x4C ∷ 0x50 ∷ 0x54 ∷ 0x36 ∷ [])
    ∷ (0x4C ∷ 0x50 ∷ 0x54 ∷ 0x37 ∷ [])
    ∷ (0x4C ∷ 0x50 ∷ 0x54 ∷ 0x38 ∷ [])
    ∷ (0x4C ∷ 0x50 ∷ 0x54 ∷ 0x39 ∷ [])
    ∷ []

-- `name.replace('\\', "/")`.
unfoldable pub unify : ℕ → ℕ
unify c = if c == backslash then slash else c

-- The name without its drive.
unfoldable pub body_of : List ℕ → List ℕ
body_of [] = []
body_of (d ∷ []) = d ∷ []
body_of (d ∷ c ∷ []) = if is_ascii_alphabetic d && (c == colon) then [] else d ∷ c ∷ []
body_of (d ∷ c ∷ s ∷ rest) =
    if is_ascii_alphabetic d && (c == colon) && (s == slash) then s ∷ rest else d ∷ c ∷ s ∷ rest

-- `"<>:\"|?*".contains(c)`.
unfoldable pub is_forbidden : ℕ → Bool
is_forbidden c =
    c == 0x3C || c == 0x3E || c == 0x3A || c == 0x22 || c == 0x7C || c == 0x3F || c == 0x2A

unfoldable pub replace_forbidden : ℕ → ℕ
replace_forbidden c = if is_forbidden c then underscore else c

abbrev pub is_space_or_dot : ℕ → Bool
is_space_or_dot c = c == 0x20 || c == dot

-- Whether the part of a name before its first dot is a device.
unfoldable pub is_reserved : List ℕ → Bool
is_reserved part = any (eq_list (to_ascii_uppercase (split_first dot part))) win_reserved

-- What the rules of Windows make of a part; none if nothing is left.
unfoldable pub windows_part : List ℕ → Option (List ℕ)
windows_part part =
    let kept = trim_end_matches is_space_or_dot (map replace_forbidden part) in
    if is_empty kept then none else if is_reserved kept then some (underscore ∷ kept) else some kept

-- The body of the loop: a part that is skipped is none.
unfoldable pub sanitize_part : Bool → List ℕ → Result (Option (List ℕ))
sanitize_part for_windows raw =
    let part = trim raw in
    if is_empty part || eq_list part (dot ∷ [])
    then ok none
    else if eq_list part (dot ∷ dot ∷ [])
    then err unsafe_path
    else if any (λ c. ltb c 0x20) part
    then err unsafe_path
    else if for_windows
    then ok (windows_part part)
    else ok (some part)

abbrev pub push : Option (List ℕ) → List (List ℕ) → List (List ℕ)
push none parts = parts
push (some p) parts = p ∷ parts

-- The loop, from the first part on.
unfoldable pub sanitize_parts : Bool → List (List ℕ) → Result (List (List ℕ))
sanitize_parts for_windows [] = ok []
sanitize_parts for_windows (raw ∷ raws) = do
  part ← sanitize_part for_windows raw
  parts ← sanitize_parts for_windows raws
  ok (push part parts)

unfoldable pub sanitize_for : List ℕ → Bool → Result (List (List ℕ))
sanitize_for name for_windows = do
  refuse_if (any (λ c. c == 0) name) unsafe_path
  parts ← sanitize_parts for_windows (split slash (body_of (map unify name)))
  refuse_if (is_empty parts) unsafe_path
  ok parts
