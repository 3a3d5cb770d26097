-- ===== src/OutFile/Flat.antt =====
-- Writes into a file that is cut into pieces.
use zip_mania.Prelude.{
  ℕ, zero, suc, ◌+◌, ◌-◌, ◌≤◌, ◌≡◌, refl, sym, ap, ◌∙◌, arith, List, [], ◌∷◌, ◌++◌, append_assoc,
  length, length-append, take, drop, length-take, length-drop, max, replicate,
}
use zip_mania.OutFile.{patch}

module _ {ℓ} {A : Type ℓ} where
  -- A cut behind the first part of an append.
  take-append_over : (xs ys : List A) (n : ℕ) → take (length xs + n) (xs ++ ys) ≡ xs ++ take n ys
  take-append_over [] ys n = ap (λ k. take k ys) (let e : 0 + n ≡ n = omega arith in e)
  take-append_over (x ∷ xs) ys n =
      ap (λ k. take k (x ∷ xs ++ ys))
        (let e : suc (length xs) + n ≡ suc (length xs + n) = omega arith in e)
      ∙ ap (◌∷◌ x) (take-append_over xs ys n)

  drop-append_over : (xs ys : List A) (n : ℕ) → drop (length xs + n) (xs ++ ys) ≡ drop n ys
  drop-append_over [] ys n = ap (λ k. drop k ys) (let e : 0 + n ≡ n = omega arith in e)
  drop-append_over (x ∷ xs) ys n =
      ap (λ k. drop k (x ∷ xs ++ ys))
        (let e : suc (length xs) + n ≡ suc (length xs + n) = omega arith in e)
      ∙ drop-append_over xs ys n

  -- A cut within the first part.
  take-append_within : (n : ℕ) (xs ys : List A) → n ≤ length xs → take n (xs ++ ys) ≡ take n xs
  take-append_within zero xs ys h = refl
  take-append_within (suc n) [] ys h = absurd (omega arith)
  take-append_within (suc n) (x ∷ xs) ys h = ap (◌∷◌ x) (take-append_within n xs ys (omega arith))

  drop-append_within :
      (n : ℕ) (xs ys : List A) → n ≤ length xs → drop n (xs ++ ys) ≡ drop n xs ++ ys
  drop-append_within zero xs ys h = refl
  drop-append_within (suc n) [] ys h = absurd (omega arith)
  drop-append_within (suc n) (x ∷ xs) ys h = drop-append_within n xs ys (omega arith)

  pub take_all : (n : ℕ) (xs : List A) → length xs ≤ n → take n xs ≡ xs
  take_all zero [] h = refl
  take_all zero (x ∷ xs) h = absurd (omega arith)
  take_all (suc n) [] h = refl
  take_all (suc n) (x ∷ xs) h = ap (◌∷◌ x) (take_all n xs (omega arith))

  drop_all : (n : ℕ) (xs : List A) → length xs ≤ n → drop n xs ≡ []
  drop_all zero [] h = refl
  drop_all zero (x ∷ xs) h = absurd (omega arith)
  drop_all (suc n) [] h = refl
  drop_all (suc n) (x ∷ xs) h = drop_all n xs (omega arith)

  pub length-replicate : (n : ℕ) (x : A) → length (replicate n x) ≡ n
  length-replicate zero x = refl
  length-replicate (suc n) x = ap suc (length-replicate n x)

  pub replicate-append : (m n : ℕ) (x : A) → replicate m x ++ replicate n x ≡ replicate (m + n) x
  replicate-append zero n x = ap (λ k. replicate k x) (let e : n ≡ 0 + n = omega arith in e)
  replicate-append (suc m) n x =
      ap (◌∷◌ x) (replicate-append m n x)
      ∙ ap (λ k. replicate k x) (let e : suc (m + n) ≡ suc m + n = omega arith in e)

-- A write behind the first piece is a write into the second.
pub patch-over :
    (pre content bytes : List ℕ) (off : ℕ)
    → patch (length pre + off) bytes (pre ++ content) ≡ pre ++ patch off bytes content
unfolding patch
patch-over pre content bytes off =
    let gap : length pre + off - length (pre ++ content) ≡ off - length content =
      omega (arith, length-append pre content) in
    let place : length pre + off + length bytes ≡ length pre + (off + length bytes) = omega arith in
    rw
      (
        take-append_over pre content off,
        gap,
        place,
        drop-append_over pre content (off + length bytes),
      )
      (append_assoc pre (take off content) _)

-- A write that ends within the first piece leaves the second alone.
pub patch-within :
    (content post bytes : List ℕ) (off : ℕ)
    → off + length bytes ≤ length content
    → patch off bytes (content ++ post) ≡ patch off bytes content ++ post
unfolding patch
patch-within content post bytes off h =
    let none_missing : off - length (content ++ post) ≡ 0 =
      omega (arith, length-append content post) in
    let none_missing' : off - length content ≡ 0 = omega arith in
    rw
      (
        none_missing,
        none_missing',
        take-append_within off content post (omega arith),
        drop-append_within (off + length bytes) content post h,
      )
      (ap (λ r. take off content ++ r)
          (sym (append_assoc bytes (drop (off + length bytes) content) post))
        ∙ sym (append_assoc (take off content) (bytes ++ drop (off + length bytes) content) post))

-- Zeros that end before the place of a write make no difference.
pub patch-zeros :
    (content bytes : List ℕ) (off z : ℕ)
    → length content + z ≤ off
    → patch off bytes (content ++ replicate z 0) ≡ patch off bytes content
unfolding patch
patch-zeros content bytes off z h =
    let size : length (content ++ replicate z 0) ≡ length content + z =
      omega (arith, length-append content (replicate z 0), length-replicate {A = ℕ} z 0) in
    rw
      (
        take_all off (content ++ replicate z 0) (omega (arith, size)),
        drop_all (off + length bytes) (content ++ replicate z 0) (omega (arith, size)),
        take_all off content (omega arith),
        drop_all (off + length bytes) content (omega arith),
      )
      (append_assoc content (replicate z 0) _
        ∙ ap (λ r. content ++ r)
            (sym (
                append_assoc (replicate z 0) (replicate (off - length (content ++ replicate z 0)) 0)
                  (bytes ++ []))
              ∙ ap (λ r. r ++ (bytes ++ []))
                  (replicate-append z (off - length (content ++ replicate z 0)) 0
                    ∙ ap (λ k. replicate k 0) (omega (arith, size)))))

pub length-patch :
    (off : ℕ) (bytes content : List ℕ)
    → length (patch off bytes content) ≡ max (length content) (off + length bytes)
unfolding patch
length-patch off bytes content = omega (
  arith,
  length-append (take off content)
      (replicate (off - length content) 0 ++ (bytes ++ drop (off + length bytes) content)),
  length-append (replicate (off - length content) 0) (bytes ++ drop (off + length bytes) content),
  length-append bytes (drop (off + length bytes) content),
  length-take off content,
  length-drop (off + length bytes) content,
  length-replicate {A = ℕ} (off - length content) 0,
)
