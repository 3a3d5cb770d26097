-- ===== src/Unegg/Codec/Inflate/Bounded.antt =====
-- backend/unegg/codec.rs: whatever the compressed bytes are, the output is bounded and counted.
use mathlib.Core.Path.{subst}
use zip_mania.Prelude.{
  ℕ, zero, suc, ◌+◌, ◌≤◌, ◌≡◌, refl, sym, ◌∙◌, arith, false, not, ◌&&◌, Option, none, some,
  some-injective, Option-cases, List, [], ◌∷◌, ◌++◌, ltb, not_less, ◌==◌, length, length-append,
  length-take, take, drop, Bool-cases, ◌⊎◌, inl, inr,
}
use zip_mania.Errors.{Code, Result, ok, err, corrupt, unsupported, ok-injective}
use zip_mania.Unegg.Codec.{Method, store, deflate, bzip2, lzma, azo, alz_bzip2, unknown}
use zip_mania.Unegg.Codec.Inflate.{
  Inflated, Status, stream_end, going_on, failed, Outcome, cap_of, refusal, stalled, inflate_loop,
  check_size, inflate_to, store_to, decompress_method, decompress_to,
}

-- At most `cap` bytes have reached the sink, and a success counts them.
pub record IsBounded (cap : ℕ) (o : Outcome) : Type 0 where
  pub few : length o.1 ≤ cap
  pub counted : (n : ℕ) → o.0 ≡ ok n → n ≡ length o.1

pub Status-cases : (s : Status) → (s ≡ stream_end) ⊎ ((s ≡ failed) ⊎ (s ≡ going_on))
Status-cases stream_end = inl refl
Status-cases failed = inr (inl refl)
Status-cases going_on = inr (inr refl)

module _ {S : Type 0} (inflate : S → List ℕ → Inflated S)
    (out : List ℕ → List ℕ → Option Code) where
  pub refusal-within :
      (cap written : ℕ) (received chunk : List ℕ)
      → written ≤ cap
      → refusal inflate out cap written received chunk ≡ none
      → written + length chunk ≤ cap
  unfolding refusal
  refusal-within cap written received [] w h = omega arith
  refusal-within cap written received (b ∷ bs) w h =
      elim (Bool-cases (ltb cap (written + length (b ∷ bs)))) [
        | inl e ↦ cc (rw e at h)
        | inr e ↦ not_less cap (written + length (b ∷ bs)) e
      ]

  ended :
      {cap : ℕ} (res : Result ℕ) (n : ℕ) (received : List ℕ)
      → n ≡ length received
      → n ≤ cap
      → ((k : ℕ) → res ≡ ok k → k ≡ n)
      → IsBounded cap (res, received)
  ended res n received e w h = record { few = omega arith; counted = λ k q. h k q ∙ e }

  inflate_loop-IsBounded :
      (cap fuel : ℕ) (st : S) (input : List ℕ) (written : ℕ) (received : List ℕ) {o : Outcome}
      → written ≡ length received
      → written ≤ cap
      → inflate_loop inflate out cap fuel st input written received ≡ some o
      → IsBounded cap o
  unfolding inflate_loop
  inflate_loop-IsBounded cap zero st input written received e w h = cc
  inflate_loop-IsBounded cap (suc fuel) st input written received e w h =
      let r = inflate st input in
      let sum : written + length r.written_bytes ≡ length (received ++ r.written_bytes) =
        omega (arith, length-append received r.written_bytes) in
      elim (Option-cases (refusal inflate out cap written received r.written_bytes)) [
        | inr (c, f) ↦
            subst (IsBounded cap) (some-injective (rw (f, inflate_loop) at h))
              (ended (err c) written received e w (λ k q. cc))
        | inl f ↦
            let fits = refusal-within cap written received r.written_bytes w f in
            elim (Status-cases r.status) [
              | inl g ↦ subst (IsBounded cap) (some-injective (rw (f, g, inflate_loop) at h)) (
                  ended (ok (written + length r.written_bytes)) _ (received ++ r.written_bytes) sum
                    fits (λ k q. sym (ok-injective q)))
              | inr (inl g) ↦
                  subst (IsBounded cap) (some-injective (rw (f, g, inflate_loop) at h))
                    (ended (err corrupt) _ (received ++ r.written_bytes) sum fits (λ k q. cc))
              | inr (inr g) ↦ elim (Bool-cases (stalled inflate out r)) [
                | inl b ↦ subst (IsBounded cap) (some-injective (rw (f, g, b, inflate_loop) at h)) (
                    ended (ok (written + length r.written_bytes)) _ (received ++ r.written_bytes)
                      sum fits (λ k q. sym (ok-injective q)))
                | inr b ↦
                    inflate_loop-IsBounded cap fuel r.state (drop r.consumed input) _ _ sum fits
                      (rw (f, g, b, inflate_loop) at h)
              ]
            ]
      ]

-- What a decompression promises, whatever the input.
pub record IsDelivered (expected limit : ℕ) (o : Outcome) : Type 0 where
  pub few : length o.1 ≤ cap_of expected limit
  pub counted : (n : ℕ) → o.0 ≡ ok n → n ≡ length o.1
  pub as_expected : (n : ℕ) → o.0 ≡ ok n → 1 ≤ expected → n ≡ expected

cap_of-expected : (expected limit : ℕ) → expected ≤ cap_of expected limit
unfolding cap_of
cap_of-expected zero zero = omega arith
cap_of-expected zero (suc l) = omega arith
cap_of-expected (suc e) limit = omega arith

cap_of-within :
    (expected limit : ℕ)
    → ltb 0 limit && ltb limit expected ≡ false
    → 1 ≤ limit
    → cap_of expected limit ≤ limit
unfolding cap_of
cap_of-within zero zero h one = absurd (omega arith)
cap_of-within zero (suc l) h one = omega arith
cap_of-within (suc e) limit h one = ground arith

same_size :
    (expected written : ℕ)
    → ltb 0 expected && not (written == expected) ≡ false
    → 1 ≤ expected
    → written ≡ expected
same_size expected written h one = ground arith

module _ {S : Type 0} (inflate : S → List ℕ → Inflated S)
    (out : List ℕ → List ℕ → Option Code) where
  refused : (expected limit : ℕ) (c : Code) → IsDelivered expected limit (err c, [])
  refused expected limit c = record {
    few = omega arith;
    counted = λ n q. cc;
    as_expected = λ n q one. cc;
  }

  check_size-IsDelivered :
      (expected limit : ℕ) (o : Outcome)
      → IsBounded (cap_of expected limit) o
      → IsDelivered expected limit (check_size inflate out expected o)
  unfolding check_size
  check_size-IsDelivered expected limit (err c, received) b = record {
    few = b.few;
    counted = λ n q. cc;
    as_expected = λ n q one. cc;
  }
  check_size-IsDelivered expected limit (ok written, received) b =
      elim (Bool-cases (ltb 0 expected && not (written == expected))) [
        | inl e ↦ rw e (record { few = b.few; counted = λ n q. cc; as_expected = λ n q one. cc })
        | inr e ↦ rw e (record {
          few = b.few;
          counted = b.counted;
          as_expected = λ n q one. sym (ok-injective q) ∙ same_size expected written e one;
        })
      ]

  inflate_to-IsDelivered :
      (start : S) (fuel : ℕ) (input : List ℕ) (expected limit : ℕ) {o : Outcome}
      → inflate_to inflate out start fuel input expected limit ≡ some o
      → IsDelivered expected limit o
  unfolding inflate_to
  inflate_to-IsDelivered start fuel input expected limit h =
      elim (Option-cases (inflate_loop inflate out (cap_of expected limit) fuel start input 0 [])) [
        | inl e ↦ cc (rw (e, inflate_to) at h)
        | inr (o, e) ↦
            subst (IsDelivered expected limit) (some-injective (rw (e, inflate_to) at h)) (
              check_size-IsDelivered expected limit o (
                inflate_loop-IsBounded inflate out (cap_of expected limit) fuel start input 0 []
                  refl (omega arith) e))
      ]

  store_to-IsDelivered :
      (input : List ℕ) (expected limit : ℕ)
      → IsDelivered expected limit (store_to inflate out input expected)
  unfolding store_to
  store_to-IsDelivered input expected limit = elim (Bool-cases (ltb (length input) expected)) [
    | inl e ↦ rw e (refused expected limit corrupt)
    | inr e ↦ elim (Option-cases (out [] (take expected input))) [
      | inr (c, f) ↦ rw (e, f, store_to) (refused expected limit c)
      | inl f ↦
          let size : length (take expected input) ≡ expected =
            omega (arith, length-take expected input, not_less (length input) expected e) in
          rw (e, f, store_to)
            (record {
              few = omega (arith, size, cap_of-expected expected limit);
              counted = λ n q. sym (ok-injective q) ∙ sym size;
              as_expected = λ n q one. sym (ok-injective q);
            })
    ]
  ]

  decompress_method-IsDelivered :
      (method : Method) (start : S) (fuel : ℕ) (input : List ℕ) (expected limit : ℕ) {o : Outcome}
      → decompress_method inflate out method start fuel input expected limit ≡ some o
      → IsDelivered expected limit o
  unfolding decompress_method
  decompress_method-IsDelivered store start fuel input expected limit h =
      subst (IsDelivered expected limit) (some-injective h)
        (store_to-IsDelivered input expected limit)
  decompress_method-IsDelivered deflate start fuel input expected limit h =
      inflate_to-IsDelivered start fuel input expected limit h
  decompress_method-IsDelivered bzip2 start fuel input expected limit h =
      subst (IsDelivered expected limit) (some-injective h) (refused expected limit unsupported)
  decompress_method-IsDelivered lzma start fuel input expected limit h =
      subst (IsDelivered expected limit) (some-injective h) (refused expected limit unsupported)
  decompress_method-IsDelivered azo start fuel input expected limit h =
      subst (IsDelivered expected limit) (some-injective h) (refused expected limit unsupported)
  decompress_method-IsDelivered alz_bzip2 start fuel input expected limit h =
      subst (IsDelivered expected limit) (some-injective h) (refused expected limit unsupported)
  decompress_method-IsDelivered (unknown id) start fuel input expected limit h =
      subst (IsDelivered expected limit) (some-injective h) (refused expected limit unsupported)

  -- Whatever the block, the engine and the sink do: no more bytes reach the sink than the expected
  -- size, or the limit or 256 MiB where no size is given, and never more than a limit that is set; a
  -- success returns the number of bytes that reached it, which is the expected size if one is given.
  pub decompress_to-IsDelivered :
      (method : Method) (start : S) (fuel : ℕ) (input : List ℕ) (expected limit : ℕ) {o : Outcome}
      → decompress_to inflate out method start fuel input expected limit ≡ some o
      → IsDelivered expected limit o × (1 ≤ limit → length o.1 ≤ limit)
  unfolding decompress_to
  decompress_to-IsDelivered method start fuel input expected limit h =
      elim (Bool-cases (ltb 0 limit && ltb limit expected)) [
        | inl e ↦
            subst (λ o. IsDelivered expected limit o × (1 ≤ limit → length o.1 ≤ limit))
              (some-injective (rw (e, decompress_to) at h))
              (refused expected limit corrupt, λ one. omega arith)
        | inr e ↦
            let d =
              decompress_method-IsDelivered method start fuel input expected limit
                (rw (e, decompress_to) at h) in
            (d, λ one. omega (arith, d.few, cap_of-within expected limit e one))
      ]
