-- ===== src/CommandLine/Args/Accepted.antt =====
-- cmdline.rs: what an accepted command holds.
use mathlib.Core.Path.{subst}
use zip_mania.Prelude.{
  ℕ, ◌^◌, ◌≤◌, ◌<◌, ◌≡◌, refl, sym, ◌∙◌, arith, Bool, true, false, not, ◌||◌, ◌&&◌, Bool-cases, ◌⊎◌,
  inl, inr, Option, none, some, Option-cases, some-injective, List, [], ◌∷◌, ◌++◌, ltb, not_less,
  ltb→lt, ◌==◌, if◌then◌else◌, eq_list, all,
}
use zip_mania.Prelude.Digits.{value}
use zip_mania.Paths.Texts.{is_empty}
use zip_mania.CommandLine.Sizes.{parse_size, parse_size-size}
use zip_mania.CommandLine.Sizes
use zip_mania.CommandLine.Options.{
  ArgError, level_range, no_threads, bad_size, unknown_option, usage, unsigned, parse_verb, Verb,
  Outcome, accepted, rejected, Cmd, parse_below, level_of, format_of, threads_of, target_of,
  volume_of, ◌>>=◌, split_opt, starts_with, is_ascii_digit,
}
use zip_mania.CommandLine.Args.{
  threads_or_format, with_value, without_value, apply_option, option_of, any_yet, needs_input,
  parse, parse_loop, start_of, settle, parse_args,
}

-- The numbers of a command are within their ranges.
pub record IsFit (cmd : Cmd) : Type 0 where
  pub level_fits : (n : ℕ) → cmd.level ≡ some n → n ≤ 9
  pub threads_fit : (n : ℕ) → cmd.threads ≡ some n → (1 ≤ n) × (n < 2 ^ 32)
  pub volume_fits : (n : ℕ) → cmd.volume ≡ some n → (1 ≤ n) × (n < 2 ^ 64)

-- What holds of the value, if there is one.
pub record Accepts {ℓ} {A : Type ℓ} (P : A → Type 0) (o : Outcome A) : Type ℓ where
  pub holds : (a : A) → o ≡ accepted a → P a

Accepts-if {ℓ} :
    {A : Type ℓ} {P : A → Type 0} (b : Bool) (p q : Outcome A)
    → Accepts P p
    → Accepts P q
    → Accepts P (if b then p else q)
Accepts-if true p q h k = h
Accepts-if false p q h k = k

pub accepted-injective {ℓ} : {A : Type ℓ} {x y : A} → accepted x ≡ accepted y → x ≡ y
accepted-injective e = cc

pub Outcome-cases {ℓ} :
    {A : Type ℓ} (o : Outcome A)
    → ((a : A) × (o ≡ accepted a)) ⊎ ((r : ArgError) × (o ≡ rejected r))
Outcome-cases (accepted a) = inl (a, refl)
Outcome-cases (rejected r) = inr (r, refl)

Accepts-now {ℓ} : {A : Type ℓ} {P : A → Type 0} (a : A) → P a → Accepts P (accepted a)
Accepts-now {P = P} a h = record { holds = λ b e. subst P (accepted-injective e) h }

Accepts-never {ℓ} : {A : Type ℓ} {P : A → Type 0} (r : ArgError) → Accepts P (rejected r)
Accepts-never r = record { holds = λ a e. cc }

Accepts-bind {ℓ κ} :
    {A : Type ℓ} {B : Type κ} {P : A → Type 0} {Q : B → Type 0} (o : Outcome A) (f : A → Outcome B)
    → Accepts P o
    → ((a : A) → P a → Accepts Q (f a))
    → Accepts Q (o >>= f)
Accepts-bind (accepted a) f h k = k a (h.holds a refl)
Accepts-bind (rejected r) f h k = Accepts-never r

-- Nothing is claimed of the value.
Accepts-any {ℓ} : {A : Type ℓ} (o : Outcome A) → Accepts (λ a. Unit {0}) o
Accepts-any o = record { holds = λ a e. tt }

not_zero : (n : ℕ) → n == 0 ≡ false → 1 ≤ n
not_zero n h = ground arith

parse_below-lt : (limit : ℕ) (v : List ℕ) {n : ℕ} → parse_below limit v ≡ some n → n < limit
unfolding parse_below
parse_below-lt limit v h =
    elim (Bool-cases (is_empty (unsigned v) || not (all is_ascii_digit (unsigned v)))) [
      | inl e ↦ cc (rw e at h)
      | inr e ↦ elim (Bool-cases (ltb (value 0 (unsigned v)) limit)) [
        | inl f ↦ subst (λ n. n < limit) (some-injective (rw (e, f) at h)) (ltb→lt _ limit f)
        | inr f ↦ cc (rw (e, f) at h)
      ]
    ]

level_of-range : (v : List ℕ) → Accepts (λ n. n ≤ 9) (level_of v)
unfolding level_of
level_of-range v = elim (Option-cases (parse_below 256 v)) [
  | inl e ↦ rw (e, level_of) (Accepts-never _)
  | inr (n, e) ↦ rw (e, level_of) (level_test n)
]
  where
    level_test :
        (n : ℕ) → Accepts (λ n. n ≤ 9) (if ltb 9 n then rejected level_range else accepted n)
    level_test n = elim (Bool-cases (ltb 9 n)) [
      | inl g ↦ rw g (Accepts-never level_range)
      | inr g ↦ rw g (Accepts-now n (not_less 9 n g))
    ]

threads_of-range : (v : List ℕ) → Accepts (λ n. (1 ≤ n) × (n < 2 ^ 32)) (threads_of v)
unfolding threads_of
threads_of-range v = elim (Option-cases (parse_below (2 ^ 32) v)) [
  | inl e ↦ rw (e, threads_of) (Accepts-never _)
  | inr (n, e) ↦ rw (e, threads_of) (threads_test n (parse_below-lt (2 ^ 32) v e))
]
  where
    threads_test :
        (n : ℕ)
        → n < 2 ^ 32
        → Accepts (λ n. (1 ≤ n) × (n < 2 ^ 32)) (if n == 0 then rejected no_threads else accepted n)
    threads_test n few = elim (Bool-cases (n == 0)) [
      | inl g ↦ rw g (Accepts-never no_threads)
      | inr g ↦ rw g (Accepts-now n (not_zero n g, few))
    ]

volume_of-range : (v : List ℕ) → Accepts (λ n. (1 ≤ n) × (n < 2 ^ 64)) (volume_of v)
unfolding volume_of
volume_of-range v = from_size (parse_size v) refl
  where
    from_size :
        (p : Sizes.Parsed)
        → parse_size v ≡ p
        → Accepts
            (λ n. (1 ≤ n) × (n < 2 ^ 64))
            (elim p [ Sizes.size n ↦ accepted n | Sizes.refused e ↦ rejected (bad_size e) ])
    from_size (Sizes.size n) h =
        let (mul, e, same, one, few) = parse_size-size v h in Accepts-now n (one, few)
    from_size (Sizes.refused r) h = Accepts-never (bad_size r)

-- An option keeps the numbers of a command within their ranges.
module _ (cmd : Cmd) (fit : IsFit cmd) where
  with_level : (n : ℕ) → n ≤ 9 → IsFit (record cmd { level = some n })
  with_level n h = record {
    level_fits = λ m e. subst (λ m. m ≤ 9) (some-injective e) h;
    threads_fit = fit.threads_fit;
    volume_fits = fit.volume_fits;
  }

  with_threads : (n : ℕ) → (1 ≤ n) × (n < 2 ^ 32) → IsFit (record cmd { threads = some n })
  with_threads n h = record {
    level_fits = fit.level_fits;
    threads_fit = λ m e. subst (λ m. (1 ≤ m) × (m < 2 ^ 32)) (some-injective e) h;
    volume_fits = fit.volume_fits;
  }

  with_volume : (n : ℕ) → (1 ≤ n) × (n < 2 ^ 64) → IsFit (record cmd { volume = some n })
  with_volume n h = record {
    level_fits = fit.level_fits;
    threads_fit = fit.threads_fit;
    volume_fits = λ m e. subst (λ m. (1 ≤ m) × (m < 2 ^ 64)) (some-injective e) h;
  }

  -- A change of the other fields.
  same_numbers :
      (cmd' : Cmd)
      → cmd'.level ≡ cmd.level
      → cmd'.threads ≡ cmd.threads
      → cmd'.volume ≡ cmd.volume
      → Accepts IsFit (accepted cmd')
  same_numbers cmd' l t v = Accepts-now cmd' (record {
    level_fits = λ n e. fit.level_fits n (sym l ∙ e);
    threads_fit = λ n e. fit.threads_fit n (sym t ∙ e);
    volume_fits = λ n e. fit.volume_fits n (sym v ∙ e);
  })

  with_threads_of :
      (v : List ℕ)
      → Accepts IsFit (threads_of v >>= λ n. accepted (record cmd { threads = some n }))
  with_threads_of v =
      Accepts-bind (threads_of v) _ (threads_of-range v) λ n h. Accepts-now _ (with_threads n h)

  with_format_of :
      (v : List ℕ) → Accepts IsFit (format_of v >>= λ f. accepted (record cmd { format = some f }))
  with_format_of v =
      Accepts-bind (format_of v) _ (Accepts-any (format_of v)) λ f h. same_numbers _ refl refl refl

  threads_or_format-IsFit : (v : List ℕ) → Accepts IsFit (threads_or_format cmd v)
  unfolding threads_or_format
  threads_or_format-IsFit v =
      Accepts-if (all is_ascii_digit v) _ _ (with_threads_of v) (with_format_of v)

  with_value-IsFit : (key v : List ℕ) → Accepts IsFit (with_value cmd key v)
  unfolding with_value
  with_value-IsFit key v =
      Accepts-if (eq_list key (0x6C ∷ []) || eq_list key (0x6D ∷ 0x78 ∷ [])) _ _
        (Accepts-bind (level_of v) _ (level_of-range v) λ n h. Accepts-now _ (with_level n h))
        (Accepts-if (eq_list key (0x66 ∷ 0x6D ∷ 0x74 ∷ [])) _ _ (with_format_of v) (
          Accepts-if (eq_list key (0x76 ∷ [])) _ _
            (Accepts-bind (volume_of v) _ (volume_of-range v)
              λ n h. Accepts-now _ (with_volume n h))
            (Accepts-if (eq_list key (0x70 ∷ [])) _ _ (same_numbers _ refl refl refl) (
              Accepts-if (eq_list key (0x6D ∷ 0x6D ∷ 0x74 ∷ [])) _ _ (with_threads_of v) (
                Accepts-if (eq_list key (0x74 ∷ [])) _ _ (threads_or_format-IsFit v) (
                  Accepts-if (eq_list key (0x6F ∷ [])) _ _ (same_numbers _ refl refl refl) (
                    Accepts-if (eq_list key (0x74 ∷ 0x61 ∷ 0x72 ∷ 0x67 ∷ 0x65 ∷ 0x74 ∷ [])) _ _
                      (Accepts-bind (target_of v) _ (Accepts-any (target_of v))
                        λ f h. same_numbers _ refl refl refl)
                      (Accepts-if (eq_list key (0x72 ∷ []) || eq_list key (0x63 ∷ 0x70 ∷ [])) _ _
                        (same_numbers _ refl refl refl)
                        (Accepts-if
                          (starts_with key (0x62 ∷ 0x62 ∷ []) || starts_with key (0x62 ∷ 0x73 ∷ []))
                          _ _ (same_numbers _ refl refl refl)
                          (Accepts-never unknown_option))))))))))

  without_value-IsFit : (key : List ℕ) → Accepts IsFit (without_value cmd key)
  unfolding without_value
  without_value-IsFit key =
      let kept : (cmd' : Cmd)
          → cmd'.level ≡ cmd.level
          → cmd'.threads ≡ cmd.threads
          → cmd'.volume ≡ cmd.volume
          → Accepts IsFit (accepted cmd') =
        same_numbers in
      Accepts-if (eq_list key (0x61 ∷ 0x6F ∷ 0x75 ∷ [])) _ _ (kept _ refl refl refl) (
        Accepts-if (eq_list key (0x61 ∷ 0x6F ∷ 0x61 ∷ []) || eq_list key (0x79 ∷ [])) _ _
          (kept _ refl refl refl)
          (Accepts-if (eq_list key (0x61 ∷ 0x6F ∷ 0x73 ∷ [])) _ _ (kept _ refl refl refl) (
            Accepts-if (eq_list key (0x74 ∷ 0x65 ∷ 0x73 ∷ 0x74 ∷ 0x64 ∷ 0x73 ∷ 0x74 ∷ [])) _ _
              (kept _ refl refl refl)
              (Accepts-if
                (eq_list key (0x64 ∷ 0x65 ∷ 0x6C ∷ 0x73 ∷ 0x72 ∷ 0x63 ∷ [])
                  || eq_list key (0x73 ∷ 0x64 ∷ 0x65 ∷ 0x6C ∷ []))
                _ _ (kept _ refl refl refl)
                (Accepts-if (eq_list key (0x64 ∷ 0x61 ∷ 0x74 ∷ 0x65 ∷ [])) _ _
                  (kept _ refl refl refl)
                  (Accepts-if (eq_list key (0x72 ∷ []) || eq_list key (0x62 ∷ 0x64 ∷ [])) _ _
                    (kept _ refl refl refl)
                    (Accepts-if
                      (starts_with key (0x62 ∷ 0x62 ∷ []) || starts_with key (0x62 ∷ 0x73 ∷ [])) _ _
                      (kept _ refl refl refl) (Accepts-never unknown_option))))))))

  apply_option-IsFit : (o : List ℕ × Option (List ℕ)) → Accepts IsFit (apply_option cmd o)
  unfolding apply_option
  apply_option-IsFit (key, some v) = with_value-IsFit key v
  apply_option-IsFit (key, none) = without_value-IsFit key

parse_loop-IsFit :
    (args : List (List ℕ)) (cmd : Cmd) (positional : List (List ℕ))
    → IsFit cmd
    → Accepts (λ (p : Cmd × List (List ℕ)). IsFit p.0) (parse_loop args cmd positional)
unfolding parse_loop
parse_loop-IsFit [] cmd positional fit = Accepts-now (cmd, positional) fit
parse_loop-IsFit (a ∷ args) cmd positional fit =
    elim (Option-cases (option_of (any_yet positional) a)) [
      | inl e ↦ rw (e, parse_loop) (parse_loop-IsFit args cmd (positional ++ a ∷ []) fit)
      | inr (opt, e) ↦ elim (Outcome-cases (apply_option cmd (split_opt opt))) [
        | inr (r, f) ↦ rw (e, f, parse_loop) (Accepts-never r)
        | inl (cmd', f) ↦
            rw (e, f, parse_loop)
              (parse_loop-IsFit args cmd' positional
                ((apply_option-IsFit cmd fit (split_opt opt)).holds cmd' f))
      ]
    ]

settle-IsFit : (verb : Verb) (p : Cmd × List (List ℕ)) → IsFit p.0 → Accepts IsFit (settle verb p)
unfolding settle
settle-IsFit verb (cmd, []) fit = Accepts-never usage
settle-IsFit verb (cmd, archive ∷ items) fit =
    Accepts-if (needs_input verb && not (any_yet items)) _ _ (Accepts-never usage)
      (same_numbers cmd fit _ refl refl refl)

parse_args-IsFit : (verb : Verb) (args : List (List ℕ)) → Accepts IsFit (parse_args verb args)
unfolding parse_args
parse_args-IsFit verb args =
    Accepts-bind (parse_loop args (start_of verb) []) (settle verb)
      (parse_loop-IsFit args (start_of verb) []
        (record { level_fits = λ n e. cc; threads_fit = λ n e. cc; volume_fits = λ n e. cc }))
      λ p fit. settle-IsFit verb p fit

-- A command that is accepted has a level of at most 9, at least one thread and fewer than 2 ^ 32, and
-- volumes of at least one byte and fewer than 2 ^ 64, where it has them.
pub parse-IsFit : (argv : List (List ℕ)) {cmd : Cmd} → parse argv ≡ some (accepted cmd) → IsFit cmd
unfolding parse
parse-IsFit [] h = cc
parse-IsFit (v ∷ rest) {cmd} h = elim (Option-cases (parse_verb v)) [
  | inl e ↦ cc (rw e at h)
  | inr (verb, e) ↦ (parse_args-IsFit verb rest).holds cmd (some-injective (rw e at h))
]
