-- ===== src/Tests/CommandLine.antt =====
-- The sizes and the arguments of cmdline.rs at concrete inputs.
use zip_mania.Prelude.{ℕ, ◌≡◌, refl, some, List, [], ◌∷◌, eq_list}
use zip_mania.Paths.Texts.{trim, trim_start_matches, trim_end_matches, is_whitespace}
use zip_mania.CommandLine.Options.{
  create, Cmd, accepted, parse_verb, strip_prefix, drop_separator, split_short, split_separator,
  split_long, split_opt, parse_below, level_of, threads_of, volume_of,
}
use zip_mania.CommandLine.Args.{
  needs_input, with_value, apply_option, option_of, parse_loop, start_of, settle, parse_args, parse,
}
use zip_mania.CommandLine.Args.Accepted.{IsFit, parse-IsFit}
use zip_mania.CommandLine.Args.Positional.{Positional}
use zip_mania.CommandLine.Sizes.{
  refused, is_zero, parse_size, size_of, scaled, multiplier, split_digits, to_ascii_lower,
}

-- ` 10KB`.
abbrev ten_kb : List ℕ
ten_kb = 0x20 ∷ 0x31 ∷ 0x30 ∷ 0x4B ∷ 0x42 ∷ []

zero_refused : parse_size (0x30 ∷ 0x67 ∷ []) ≡ refused is_zero
unfolding parse_size size_of scaled multiplier split_digits to_ascii_lower trim trim_start_matches
    trim_end_matches is_whitespace
zero_refused = refl

-- `c -mx9 -mmt=2 a.7z -v:1m b`.
abbrev arguments : List (List ℕ)
arguments =
    (0x2D ∷ 0x6D ∷ 0x78 ∷ 0x39 ∷ [])
    ∷ (0x2D ∷ 0x6D ∷ 0x6D ∷ 0x74 ∷ 0x3D ∷ 0x32 ∷ [])
    ∷ (0x61 ∷ 0x2E ∷ 0x37 ∷ 0x7A ∷ [])
    ∷ (0x2D ∷ 0x76 ∷ 0x3A ∷ 0x31 ∷ 0x6D ∷ [])
    ∷ (0x62 ∷ [])
    ∷ []

abbrev create_text : List ℕ
create_text = 0x63 ∷ []

abbrev creating : Cmd
creating = record (start_of create) {
  archive = 0x61 ∷ 0x2E ∷ 0x37 ∷ 0x7A ∷ [];
  items = (0x62 ∷ []) ∷ [];
  level = some 9;
  volume = some 1_048_576;
  threads = some 2;
}

arguments_parsed : parse (create_text ∷ arguments) ≡ some (accepted creating)
unfolding parse parse_args parse_loop settle needs_input option_of apply_option with_value split_opt
    split_short split_long split_separator strip_prefix drop_separator parse_verb level_of
    threads_of volume_of parse_below parse_size size_of scaled multiplier split_digits
    to_ascii_lower trim trim_end_matches trim_start_matches is_whitespace eq_list
arguments_parsed = refl

parse-IsFit_example : IsFit creating
parse-IsFit_example = parse-IsFit (create_text ∷ arguments) arguments_parsed
