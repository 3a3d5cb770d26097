-- ===== src/Volumes/Drain.antt =====
-- volumes.rs: a client that reads until nothing comes gets everything.
use zip_mania.Prelude.{
  ℕ, zero, suc, ◌+◌, ◌-◌, ◌≤◌, ◌<◌, min, ◌≡◌, refl, sym, ap, ◌∙◌, arith, Option, some, Option-cases,
  List, [], ◌∷◌, ◌++◌, length, take, drop, drop-drop, take-append-drop, get_elem?, ltb, ltb→lt,
  not_less, ◌==◌, Bool-cases, inl, inr,
}
use zip_mania.Errors.{Result, ok, err, io_error, ◌>>=◌}
use zip_mania.Volumes.{VolumeReader, locate_from, locate, read_at, read}
use zip_mania.Volumes.Whole.{
  IsValid, Grants, Progress, Located, locate_from-Located, read-Progress, whole,
}

-- The client: it reads into a buffer of `size` bytes until a read returns none. It is not the
-- library's loop, and gives up where it runs out of rounds.
abbrev pub drain : (ℕ → ℕ → ℕ → Option ℕ) → ℕ → ℕ → VolumeReader → Result (List ℕ)
drain granted size zero r = err io_error
drain granted size (suc rounds) r = read granted size r >>= λ (bs, r'). elim bs [
  | [] ↦ ok []
  | b ∷ bs' ↦ drain granted size rounds r' >>= λ more. ok ((b ∷ bs') ++ more)
]

-- No read fails.
abbrev pub Answers : (ℕ → ℕ → ℕ → Option ℕ) → Type 0
Answers granted = (idx off want : ℕ) → (n : ℕ) × (granted idx off want ≡ some n)

module _ {granted : ℕ → ℕ → ℕ → Option ℕ} (a : Answers granted) (size : ℕ) (r : VolumeReader) where
  read_at_answers :
      (idx off : ℕ)
      → Located r.files 0 0 r.at idx off
      → (q : List ℕ × VolumeReader) × (read_at granted size idx off r ≡ ok q)
  unfolding read_at
  read_at_answers idx off l =
      let found : get_elem? r.files idx ≡ some l.volume =
        ap (get_elem? r.files) (let e : idx ≡ l.index = omega (arith, l.index_right) in e)
        ∙ l.there in
      let (n, e) = a idx off (min size (l.volume.len - off)) in
      (
        (take n (drop off l.volume.content), record r { at = r.at + n }),
        rw (found, e, read_at) refl,
      )

  read_answers : IsValid r → (q : List ℕ × VolumeReader) × (read granted size r ≡ ok q)
  unfolding read locate
  read_answers v = elim (Bool-cases (size == 0)) [
    | inl z ↦ (([], r), rw z refl)
    | inr z ↦ elim (Option-cases (locate_from r.files 0 0 r.at)) [
      | inl e ↦ (([], r), rw (z, e) refl)
      | inr ((idx, off), e) ↦
          let (q, h) =
            read_at_answers idx off
              (locate_from-Located r.files 0 0 r.at v.measured (omega arith) e) in
          (q, rw (z, e) h)
    ]
  ]

drop_all : (n : ℕ) (xs : List ℕ) → length xs ≤ n → drop n xs ≡ []
drop_all zero [] h = refl
drop_all zero (x ∷ xs) h = absurd (omega arith)
drop_all (suc n) [] h = refl
drop_all (suc n) (x ∷ xs) h = drop_all n xs (omega arith)

-- The bytes of a read and what follows them are what was left.
next_and_rest :
    (xs bs : List ℕ) (p : ℕ)
    → bs ≡ take (length bs) (drop p xs)
    → bs ++ drop (p + length bs) xs ≡ drop p xs
next_and_rest xs bs p h =
    ap (λ l. l ++ drop (p + length bs) xs) h
    ∙ ap (λ l. take (length bs) (drop p xs) ++ l) (sym (drop-drop p (length bs) xs))
    ∙ take-append-drop (length bs) (drop p xs)

module _ {granted : ℕ → ℕ → ℕ → Option ℕ} (g : Grants granted) (a : Answers granted) (size : ℕ)
    (one : 1 ≤ size) where
  drain_step :
      (rounds : ℕ) (r r' : VolumeReader) (b : ℕ) (bs more : List ℕ)
      → read granted size r ≡ ok (b ∷ bs, r')
      → drain granted size rounds r' ≡ ok more
      → drain granted size (suc rounds) r ≡ ok ((b ∷ bs) ++ more)
  drain_step rounds r r' b bs more h k = rw (h, k) refl

  drain_end :
      (rounds : ℕ) (r r' : VolumeReader)
      → read granted size r ≡ ok ([], r')
      → drain granted size (suc rounds) r ≡ ok []
  drain_end rounds r r' h = rw h refl

  nothing_left : (r r' : VolumeReader) → Progress size r [] r' → drop r.at (whole r.files) ≡ []
  nothing_left r r' p = elim (Bool-cases (ltb r.at (length (whole r.files)))) [
    | inl e ↦ absurd (omega (arith, p.advances one (ltb→lt r.at (length (whole r.files)) e)))
    | inr e ↦ drop_all r.at (whole r.files) (not_less r.at (length (whole r.files)) e)
  ]

  -- One round, when the rounds that are left read the rest.
  drain_round :
      (rounds : ℕ) (r : VolumeReader)
      → ((k : ℕ)
          → length (whole r.files) - (r.at + k) < rounds
          → drain granted size rounds (record r { at = r.at + k })
            ≡ ok (drop (r.at + k) (whole r.files)))
      → length (whole r.files) - r.at < suc rounds
      → (bs : List ℕ) (r' : VolumeReader) → read granted size r ≡ ok (bs, r')
      → Progress size r bs r'
      → drain granted size (suc rounds) r ≡ ok (drop r.at (whole r.files))
  drain_round rounds r later h [] r' e p =
      drain_end rounds r r' e ∙ ap ok (sym (nothing_left r r' p))
  drain_round rounds r later h (b ∷ bs) r' e p =
      let k = length (b ∷ bs) in
      let fewer : length (whole r.files) - (r.at + k) < rounds = omega (arith, p.inside) in
      drain_step rounds r r' b bs (drop (r.at + k) (whole r.files)) e
        (ap (drain granted size rounds) p.moved ∙ later k fewer)
      ∙ ap ok (next_and_rest (whole r.files) (b ∷ bs) r.at p.next)

  -- If no read fails, and each grants at least one byte where one is asked for, then reading until
  -- nothing comes, in more rounds than bytes are left, returns the volumes as one file from the
  -- position on.
  pub drain-whole :
      (rounds : ℕ) (r : VolumeReader)
      → IsValid r
      → length (whole r.files) - r.at < rounds
      → drain granted size rounds r ≡ ok (drop r.at (whole r.files))
  drain-whole zero r v h = absurd (omega arith)
  drain-whole (suc rounds) r v h =
      let ((bs, r'), e) = read_answers a size r v in
      drain_round rounds r
        (λ k.
          drain-whole rounds (record r { at = r.at + k })
            (record { measured = v.measured; total_right = v.total_right }))
        h bs r' e (read-Progress g size r v e)
