-- ===== src/CommandLine/Options.antt =====
-- cmdline.rs: the commands, the split of an option into its key and its value, and what values say.
-- A text for the user is an error here, told apart by its reason.
use zip_mania.Prelude.{
  ℕ, ◌^◌, Bool, true, false, not, ◌&&◌, ◌||◌, Option, none, some, List, [], ◌∷◌, map, eq_list, leb,
  ltb, ◌==◌, if◌then◌else◌, all,
}
use zip_mania.Prelude.Digits.{value}
use zip_mania.Paths.Texts.{is_empty}
use zip_mania.Formats.{CompressFormat, seven_zip, zip, tar, zip_text, tar_text}
use zip_mania.Backend.Router.{seven_zip_text}
use zip_mania.CommandLine.Sizes
use zip_mania.CommandLine.Sizes.{Parsed, SizeError, to_ascii_lower, parse_size}

pub data Verb : Type 0 where
  add create extract extract_flat extract_each list test : Verb

pub data ArgError : Type 0 where
  not_a_level level_range bad_format not_a_count no_threads bad_target unknown_option usage :
      ArgError
  bad_size : SizeError → ArgError

pub data Outcome {ℓ} (A : Type ℓ) : Type ℓ where
  accepted : A → Outcome A
  rejected : ArgError → Outcome A

infixl 5 ◌>>=◌
abbrev pub ◌>>=◌ {ℓ κ} : {A : Type ℓ} {B : Type κ} → Outcome A → (A → Outcome B) → Outcome B
accepted a >>= f = f a
rejected e >>= f = rejected e

unfoldable pub parse_verb : List ℕ → Option Verb
parse_verb s =
    if eq_list s (0x61 ∷ [])
    then some add
    else if eq_list s (0x63 ∷ [])
    then some create
    else if eq_list s (0x78 ∷ [])
    then some extract
    else if eq_list s (0x65 ∷ [])
    then some extract_flat
    else if eq_list s (0x62 ∷ 0x78 ∷ [])
    then some extract_each
    else if eq_list s (0x6C ∷ [])
    then some list
    else if eq_list s (0x74 ∷ [])
    then some test
    else none

pub data Exists : Type 0 where
  overwrite_it rename_it skip_it : Exists

pub data Target : Type 0 where
  no_folder name_folder auto_folder : Target

pub record Cmd : Type 0 where
  pub verb : Verb
  pub archive : List ℕ
  pub items : List (List ℕ)
  pub format : Option CompressFormat
  pub level : Option ℕ
  pub volume : Option ℕ
  pub password : Option (List ℕ)
  pub threads : Option ℕ
  pub exists : Option Exists
  pub out_dir : Option (List ℕ)
  pub target : Target
  pub test_dst : Bool
  pub del_src : Bool
  pub date : Bool

-- What stands behind a prefix.
unfoldable pub strip_prefix : List ℕ → List ℕ → Option (List ℕ)
strip_prefix [] s = some s
strip_prefix (c ∷ cs) [] = none
strip_prefix (c ∷ cs) (d ∷ ds) = let rest = strip_prefix cs ds in if c == d then rest else none

abbrev pub starts_with : List ℕ → List ℕ → Bool
starts_with s prefix = elim (strip_prefix prefix s) [ none ↦ false | some rest ↦ true ]

-- A value behind its key, without a separator in front.
unfoldable pub drop_separator : List ℕ → List ℕ
drop_separator [] = []
drop_separator (c ∷ cs) = if c == 0x3A || c == 0x3D then cs else c ∷ cs

-- The keys that a value may follow at once.
abbrev pub short_keys : List (List ℕ)
short_keys =
    (0x6D ∷ 0x6D ∷ 0x74 ∷ [])
    ∷ (0x6D ∷ 0x78 ∷ [])
    ∷ (0x6F ∷ [])
    ∷ (0x70 ∷ [])
    ∷ (0x76 ∷ [])
    ∷ (0x74 ∷ [])
    ∷ []

unfoldable pub split_short : List (List ℕ) → List ℕ → Option (List ℕ × List ℕ)
split_short [] opt = none
split_short (k ∷ ks) opt =
    let later = split_short ks opt in
    elim (strip_prefix k opt) [
      | none ↦ later
      | some v ↦ let v' = drop_separator v in if is_empty v' then later else some (k, v')
    ]

-- At the first separator, if there is one.
unfoldable pub split_separator : List ℕ → Option (List ℕ × List ℕ)
split_separator [] = none
split_separator (c ∷ cs) =
    if c == 0x3A || c == 0x3D
    then some ([], cs)
    else elim (split_separator cs) [ none ↦ none | some p ↦ some (c ∷ p.0, p.1) ]

unfoldable pub split_long : List ℕ → List ℕ × Option (List ℕ)
split_long opt = elim (split_separator opt) [
  | none ↦ (map to_ascii_lower opt, none)
  | some p ↦ (map to_ascii_lower p.0, some p.1)
]

unfoldable pub split_opt : List ℕ → List ℕ × Option (List ℕ)
unfolding split_short split_long
split_opt opt =
    let lower = map to_ascii_lower opt in
    let long =
      starts_with lower (0x74 ∷ 0x61 ∷ 0x72 ∷ 0x67 ∷ 0x65 ∷ 0x74 ∷ [])
      || starts_with lower (0x74 ∷ 0x65 ∷ 0x73 ∷ 0x74 ∷ 0x64 ∷ 0x73 ∷ 0x74 ∷ []) in
    if long
    then split_long opt
    else elim (split_short short_keys opt) [ none ↦ split_long opt | some p ↦ (p.0, some p.1) ]

abbrev pub is_ascii_digit : ℕ → Bool
is_ascii_digit c = leb 0x30 c && leb c 0x39

abbrev pub unsigned : List ℕ → List ℕ
unsigned [] = []
unsigned (c ∷ cs) = if c == 0x2B then cs else c ∷ cs

-- `parse` of an unsigned number below `limit`: digits, at least one, with a plus sign or not.
unfoldable pub parse_below : ℕ → List ℕ → Option ℕ
parse_below limit v =
    let digits = unsigned v in
    if is_empty digits || not (all is_ascii_digit digits)
    then none
    else if ltb (value 0 digits) limit
    then some (value 0 digits)
    else none

unfoldable pub level_of : List ℕ → Outcome ℕ
level_of v = elim (parse_below 256 v) [
  | none ↦ rejected not_a_level
  | some n ↦ if ltb 9 n then rejected level_range else accepted n
]

unfoldable pub format_of : List ℕ → Outcome CompressFormat
format_of v =
    let lower = map to_ascii_lower v in
    if eq_list lower zip_text
    then accepted zip
    else if eq_list lower seven_zip_text
    then accepted seven_zip
    else if eq_list lower tar_text
    then accepted tar
    else rejected bad_format

unfoldable pub threads_of : List ℕ → Outcome ℕ
threads_of v = elim (parse_below (2 ^ 32) v) [
  | none ↦ rejected not_a_count
  | some n ↦ if n == 0 then rejected no_threads else accepted n
]

unfoldable pub target_of : List ℕ → Outcome Target
target_of v =
    let lower = map to_ascii_lower v in
    if eq_list lower (0x61 ∷ 0x75 ∷ 0x74 ∷ 0x6F ∷ [])
    then accepted auto_folder
    else if eq_list lower (0x6E ∷ 0x61 ∷ 0x6D ∷ 0x65 ∷ [])
    then accepted name_folder
    else if eq_list lower (0x6E ∷ 0x6F ∷ 0x6E ∷ 0x65 ∷ [])
    then accepted no_folder
    else rejected bad_target

unfoldable pub volume_of : List ℕ → Outcome ℕ
volume_of v = elim (parse_size v) [
  | Sizes.size n ↦ accepted n
  | Sizes.refused e ↦ rejected (bad_size e)
]
