-- ===== src/Unegg/Egg/Fields.antt =====
-- egg.rs: what the fields of a file say, the methods of `Extra` and of `EggFile`. The decoding of
-- names, from UTF-8 with replacements and from the old code page, and the civil time of a second are
-- parameters.
use zip_mania.Prelude.{
  ℕ, ◌+◌, ◌-◌, ◌/◌, ◌^◌, ◌%◌, Bool, true, false, not, Option, none, some, List, [], ◌∷◌, ◌++◌, leb,
  ltb, if◌then◌else◌, length, get_or, take, drop, from_le_bytes,
}
use zip_mania.Prelude.Digits.{to_digits}
use zip_mania.Unegg.Alz.{bit_set}
use zip_mania.Unegg.Times.{Civil, filetime_to_local_string, unix_to_local_string}
use zip_mania.Unegg.Egg.{
  Extra, EggFile, Block, find, contains_key, sig_filename, sig_windows, sig_posix, sig_encrypt,
}

-- `Extra::bit`, which counts from one.
unfoldable pub bit : ℕ → Extra → Bool
bit index e = bit_set (index - 1) e.gpb

-- `Option::map_or`.
abbrev map_or {ℓ κ} : {A : Type ℓ} {B : Type κ} → B → (A → B) → Option A → B
map_or d f none = d
map_or d f (some a) = f a

unfoldable pub name_is_utf8 : EggFile → Bool
name_is_utf8 f = map_or true (λ e. not (bit 4 e)) (find sig_filename f.extras)

unfoldable pub name_is_absolute : EggFile → Bool
name_is_absolute f = map_or false (λ e. bit 5 e) (find sig_filename f.extras)

-- Where the name starts: a locale of two bytes unless it is UTF-8, a parent of four if absolute.
unfoldable pub name_offset : EggFile → ℕ
name_offset f = (if name_is_absolute f then 6 else 2) - (if name_is_utf8 f then 2 else 0)

-- `<이름없음 #{id}>`.
unfoldable pub unnamed : ℕ → List ℕ
unnamed id = 0x3C ∷ 0xC774 ∷ 0xB984 ∷ 0xC5C6 ∷ 0xC74C ∷ 0x20 ∷ 0x23 ∷ to_digits id ++ 0x3E ∷ []

-- Bit 7 of the attributes of Windows, bit 18 of the mode of POSIX.
unfoldable pub posix_is_dir : Option Extra → Bool
posix_is_dir none = false
posix_is_dir (some e) =
    if leb 4 (length e.content) then bit_set 18 (from_le_bytes (take 4 e.content)) else false

unfoldable pub windows_is_dir : Option Extra → Bool → Bool
windows_is_dir none later = later
windows_is_dir (some e) later =
    if leb 9 (length e.content) then bit_set 7 (get_or e.content 8 0) else later

unfoldable pub is_dir : EggFile → Bool
unfolding windows_is_dir posix_is_dir
is_dir f = windows_is_dir (find sig_windows f.extras) (posix_is_dir (find sig_posix f.extras))

unfoldable pub is_encrypted : EggFile → Bool
is_encrypted f = contains_key sig_encrypt f.extras

abbrev first : List ℕ → Option ℕ
first [] = none
first (x ∷ xs) = some x

unfoldable pub encrypt_method : EggFile → Option ℕ
encrypt_method f = map_or none (λ e. first e.content) (find sig_encrypt f.extras)

-- The verification data and the byte that they must decrypt to.
unfoldable pub verify_of : Extra → Option (List ℕ × ℕ)
verify_of e =
    if ltb (length e.content) 17
    then none
    else some
        (take 12 (drop 1 e.content), from_le_bytes (take 4 (drop 13 e.content)) / 2 ^ 24 % 256)

unfoldable pub zip_verify : EggFile → Option (List ℕ × ℕ)
unfolding verify_of
zip_verify f = map_or none verify_of (find sig_encrypt f.extras)

-- The sum of u32 numbers of at most 65,536 blocks, so it fits a u64.
unfoldable pub sum_packed : List Block → ℕ
sum_packed [] = 0
sum_packed (b ∷ bs) = b.packed_size + sum_packed bs

unfoldable pub packed_size : EggFile → ℕ
unfolding sum_packed
packed_size f = sum_packed f.blocks

abbrev first_crc : List Block → Option ℕ
first_crc [] = none
first_crc (b ∷ bs) = some b.crc

unfoldable pub crc : EggFile → Option ℕ
crc f = first_crc f.blocks

module _ (from_utf8_lossy decode_legacy : List ℕ → List ℕ) where
  unfoldable pub name_of : EggFile → Extra → List ℕ
  name_of f e =
      let raw = drop (name_offset f) e.content in
      if name_is_utf8 f then from_utf8_lossy raw else decode_legacy raw

  unfoldable pub name : EggFile → List ℕ
  unfolding name_of
  name f = map_or (unnamed f.id) (name_of f) (find sig_filename f.extras)

module _ (civil : ℕ → Option Civil) where
  unfoldable pub posix_modified : Option Extra → List ℕ
  posix_modified none = []
  posix_modified (some e) =
      if leb 20 (length e.content)
      then unix_to_local_string civil (from_le_bytes (take 8 (drop 12 e.content)))
      else []

  unfoldable pub windows_modified : Option Extra → List ℕ → List ℕ
  windows_modified none later = later
  windows_modified (some e) later =
      if leb 8 (length e.content)
      then filetime_to_local_string civil (from_le_bytes (take 8 e.content))
      else later

  unfoldable pub modified : EggFile → List ℕ
  unfolding windows_modified posix_modified
  modified f =
      windows_modified (find sig_windows f.extras) (posix_modified (find sig_posix f.extras))
