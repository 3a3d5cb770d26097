-- ===== src/CommandLine/Args.antt =====
-- cmdline.rs: the arguments of a command, its options and its positional arguments in any order. An
-- argument is a list of code points.
pub mod Accepted
pub mod Positional
use zip_mania.Prelude.{
  ℕ, ◌+◌, ◌*◌, ◌^◌, Bool, true, false, not, ◌&&◌, ◌||◌, Option, none, some, List, [], ◌∷◌, ◌++◌,
  map, eq_list, leb, ltb, ◌==◌, if◌then◌else◌, all,
}
use zip_mania.Prelude.Digits.{value}
use zip_mania.Paths.Texts.{is_empty}
use zip_mania.Formats.{CompressFormat, seven_zip, zip, tar, zip_text, tar_text}
use zip_mania.Backend.Router.{seven_zip_text}
use zip_mania.CommandLine.Sizes
use zip_mania.CommandLine.Sizes.{Parsed, SizeError, to_ascii_lower, parse_size}
use zip_mania.CommandLine.Options.{
  Verb, add, create, extract, extract_flat, extract_each, list, test, parse_verb, ArgError,
  unknown_option, usage, Outcome, accepted, rejected, ◌>>=◌, Exists, overwrite_it, rename_it,
  skip_it, Target, no_folder, name_folder, auto_folder, Cmd, starts_with, split_opt, is_ascii_digit,
  level_of, format_of, threads_of, target_of, volume_of,
}

unfoldable pub is_help : List ℕ → Bool
is_help a =
    eq_list a (0x2D ∷ 0x68 ∷ [])
    || eq_list a (0x2D ∷ 0x3F ∷ [])
    || eq_list a (0x2D ∷ 0x2D ∷ 0x68 ∷ 0x65 ∷ 0x6C ∷ 0x70 ∷ [])
    || eq_list a (0x2F ∷ 0x3F ∷ [])
    || eq_list a (0x2F ∷ 0x68 ∷ [])

abbrev any_help : List (List ℕ) → Bool
any_help [] = false
any_help (a ∷ as') = is_help a || any_help as'

abbrev alone : List (List ℕ) → Bool
alone [] = true
alone (a ∷ as') = false

-- `wants_help`, of the arguments behind the name of the program.
unfoldable pub wants_help : List (List ℕ) → Bool
unfolding is_help
wants_help [] = false
wants_help (v ∷ rest) = elim (parse_verb v) [
  | some verb ↦ alone rest || any_help rest
  | none ↦ alone rest && is_help v
]

-- A number of threads or a format.
unfoldable pub threads_or_format : Cmd → List ℕ → Outcome Cmd
threads_or_format cmd v =
    if all is_ascii_digit v
    then threads_of v >>= (λ n. accepted (record cmd { threads = some n }))
    else format_of v >>= λ f. accepted (record cmd { format = some f })

-- Keys that take a value.
unfoldable pub with_value : Cmd → List ℕ → List ℕ → Outcome Cmd
with_value cmd key v =
    if eq_list key (0x6C ∷ []) || eq_list key (0x6D ∷ 0x78 ∷ [])
    then level_of v >>= (λ n. accepted (record cmd { level = some n }))
    else if eq_list key (0x66 ∷ 0x6D ∷ 0x74 ∷ [])
    then format_of v >>= (λ f. accepted (record cmd { format = some f }))
    else if eq_list key (0x76 ∷ [])
    then volume_of v >>= (λ n. accepted (record cmd { volume = some n }))
    else if eq_list key (0x70 ∷ [])
    then accepted (record cmd { password = some v })
    else if eq_list key (0x6D ∷ 0x6D ∷ 0x74 ∷ [])
    then threads_of v >>= (λ n. accepted (record cmd { threads = some n }))
    else if eq_list key (0x74 ∷ [])
    then threads_or_format cmd v
    else if eq_list key (0x6F ∷ [])
    then accepted (record cmd { out_dir = some v })
    else if eq_list key (0x74 ∷ 0x61 ∷ 0x72 ∷ 0x67 ∷ 0x65 ∷ 0x74 ∷ [])
    then target_of v >>= (λ f. accepted (record cmd { target = f }))
    else if eq_list key (0x72 ∷ []) || eq_list key (0x63 ∷ 0x70 ∷ [])
    then accepted cmd
    else if starts_with key (0x62 ∷ 0x62 ∷ []) || starts_with key (0x62 ∷ 0x73 ∷ [])
    then accepted cmd
    else rejected unknown_option

-- Keys that stand alone.
unfoldable pub without_value : Cmd → List ℕ → Outcome Cmd
without_value cmd key =
    if eq_list key (0x61 ∷ 0x6F ∷ 0x75 ∷ [])
    then accepted (record cmd { exists = some rename_it })
    else if eq_list key (0x61 ∷ 0x6F ∷ 0x61 ∷ []) || eq_list key (0x79 ∷ [])
    then accepted (record cmd { exists = some overwrite_it })
    else if eq_list key (0x61 ∷ 0x6F ∷ 0x73 ∷ [])
    then accepted (record cmd { exists = some skip_it })
    else if eq_list key (0x74 ∷ 0x65 ∷ 0x73 ∷ 0x74 ∷ 0x64 ∷ 0x73 ∷ 0x74 ∷ [])
    then accepted (record cmd { test_dst = true })
    else if eq_list key (0x64 ∷ 0x65 ∷ 0x6C ∷ 0x73 ∷ 0x72 ∷ 0x63 ∷ [])
        || eq_list key (0x73 ∷ 0x64 ∷ 0x65 ∷ 0x6C ∷ [])
    then accepted (record cmd { del_src = true })
    else if eq_list key (0x64 ∷ 0x61 ∷ 0x74 ∷ 0x65 ∷ [])
    then accepted (record cmd { date = true })
    else if eq_list key (0x72 ∷ []) || eq_list key (0x62 ∷ 0x64 ∷ [])
    then accepted cmd
    else if starts_with key (0x62 ∷ 0x62 ∷ []) || starts_with key (0x62 ∷ 0x73 ∷ [])
    then accepted cmd
    else rejected unknown_option

unfoldable pub apply_option : Cmd → List ℕ × Option (List ℕ) → Outcome Cmd
apply_option cmd (key, some v) = with_value cmd key v
apply_option cmd (key, none) = without_value cmd key

-- The option that an argument is, if it is one; `seen` tells whether a positional one came before.
unfoldable pub option_of : Bool → List ℕ → Option (List ℕ)
option_of seen [] = none
option_of seen (c ∷ cs) = if c == 0x2D && (not seen || not (is_empty cs)) then some cs else none

abbrev pub any_yet : List (List ℕ) → Bool
any_yet [] = false
any_yet (p ∷ ps) = true

-- The loop over the arguments, with the positional ones so far.
unfoldable pub parse_loop : List (List ℕ) → Cmd → List (List ℕ) → Outcome (Cmd × List (List ℕ))
parse_loop [] cmd positional = accepted (cmd, positional)
parse_loop (a ∷ args) cmd positional = elim (option_of (any_yet positional) a) [
  | none ↦ parse_loop args cmd (positional ++ a ∷ [])
  | some opt ↦ elim (apply_option cmd (split_opt opt)) [
    | rejected e ↦ rejected e
    | accepted cmd' ↦ parse_loop args cmd' positional
  ]
]

abbrev pub start_of : Verb → Cmd
start_of verb = record {
  verb = verb;
  archive = [];
  items = [];
  format = none;
  level = none;
  volume = none;
  password = none;
  threads = none;
  exists = none;
  out_dir = none;
  target = elim verb [
    | extract_each ↦ name_folder
    | add ↦ no_folder
    | create ↦ no_folder
    | extract ↦ no_folder
    | extract_flat ↦ no_folder
    | list ↦ no_folder
    | test ↦ no_folder
  ];
  test_dst = false;
  del_src = false;
  date = false;
}

-- `need` is 2.
unfoldable pub needs_input : Verb → Bool
needs_input add = true
needs_input create = true
needs_input _ = false

unfoldable pub settle : Verb → Cmd × List (List ℕ) → Outcome Cmd
settle verb (cmd, []) = rejected usage
settle verb (cmd, archive ∷ items) =
    if needs_input verb && not (any_yet items)
    then rejected usage
    else accepted (record cmd { archive = archive; items = items })

unfoldable pub parse_args : Verb → List (List ℕ) → Outcome Cmd
parse_args verb args = parse_loop args (start_of verb) [] >>= settle verb

abbrev verb_then : List (List ℕ) → Option Verb → Option (Outcome Cmd)
verb_then rest none = none
verb_then rest (some verb) = some (parse_args verb rest)

-- The arguments behind the name of the program: none where they are no command.
unfoldable pub parse : List (List ℕ) → Option (Outcome Cmd)
parse [] = none
parse (v ∷ rest) = verb_then rest (parse_verb v)
