-- ===== src/Unegg/Codec/Inflate/Ends.antt =====
-- backend/unegg/codec.rs: the loop of `inflate_to` ends, on any input.
use zip_mania.Prelude.{
  ℕ, zero, suc, ◌+◌, ◌-◌, ◌≤◌, ◌<◌, ◌≡◌, refl, arith, false, ◌&&◌, Option, some, Option-cases, List,
  [], ◌∷◌, ◌++◌, ltb, ◌==◌, length, length-drop, drop, Bool-cases, inl, inr,
}
use zip_mania.Errors.{Code, ok, err, corrupt, unsupported}
use zip_mania.Unegg.Codec.{Method, store, deflate, bzip2, lzma, azo, alz_bzip2, unknown}
use zip_mania.Unegg.Codec.Inflate.{
  Inflated, Outcome, is_empty, cap_of, refusal, stalled, inflate_loop, check_size, inflate_to,
  store_to, decompress_method, decompress_to,
}
use zip_mania.Unegg.Codec.Inflate.Bounded.{Status-cases, refusal-within}

-- A call of the engine consumes no more than there is.
abbrev pub Consumes : {S : Type 0} → (S → List ℕ → Inflated S) → Type 0
Consumes {S} inflate = (st : S) (input : List ℕ) → (inflate st input).consumed ≤ length input

something : (k : ℕ) (bs : List ℕ) → k == 0 && is_empty bs ≡ false → 1 ≤ k + length bs
something zero [] h = cc
something zero (b ∷ bs) h = omega arith
something (suc k) bs h = omega arith

module _ {S : Type 0} (inflate : S → List ℕ → Inflated S) (out : List ℕ → List ℕ → Option Code)
    (c : Consumes inflate) where
  -- A round that does not stall consumes or writes something.
  advances :
      (r : Inflated S) → stalled inflate out r ≡ false → 1 ≤ r.consumed + length r.written_bytes
  unfolding stalled
  advances r h = something r.consumed r.written_bytes h

  inflate_loop-ends :
      (cap fuel : ℕ) (st : S) (input : List ℕ) (written : ℕ) (received : List ℕ)
      → written ≤ cap
      → length input + (cap - written) < fuel
      → (o : Outcome) × (inflate_loop inflate out cap fuel st input written received ≡ some o)
  unfolding inflate_loop
  inflate_loop-ends cap zero st input written received w h = absurd (omega arith)
  inflate_loop-ends cap (suc fuel) st input written received w h =
      let r = inflate st input in
      elim (Option-cases (refusal inflate out cap written received r.written_bytes)) [
        | inr (c', f) ↦ ((err c', received), rw (f, inflate_loop) refl)
        | inl f ↦
            let fits = refusal-within inflate out cap written received r.written_bytes w f in
            elim (Status-cases r.status) [
              | inl g ↦ (
                (ok (written + length r.written_bytes), received ++ r.written_bytes),
                rw (f, g, inflate_loop) refl,
              )
              | inr (inl g) ↦
                  ((err corrupt, received ++ r.written_bytes), rw (f, g, inflate_loop) refl)
              | inr (inr g) ↦ elim (Bool-cases (stalled inflate out r)) [
                | inl b ↦ (
                  (ok (written + length r.written_bytes), received ++ r.written_bytes),
                  rw (f, g, b, inflate_loop) refl,
                )
                | inr b ↦
                    let (o, q) =
                      inflate_loop-ends cap fuel r.state (drop r.consumed input)
                        (written + length r.written_bytes) (received ++ r.written_bytes) fits
                        (omega
                          (arith, advances r b, length-drop r.consumed input, c st input, fits)) in
                    (o, rw (f, g, b, inflate_loop) q)
              ]
            ]
      ]

  inflate_to-ends :
      (start : S) (fuel : ℕ) (input : List ℕ) (expected limit : ℕ)
      → length input + cap_of expected limit < fuel
      → (o : Outcome) × (inflate_to inflate out start fuel input expected limit ≡ some o)
  unfolding inflate_to
  inflate_to-ends start fuel input expected limit h =
      let (o, q) =
        inflate_loop-ends (cap_of expected limit) fuel start input 0 [] (omega arith)
          (omega arith) in
      (check_size inflate out expected o, rw (q, inflate_to) refl)

  decompress_method-ends :
      (method : Method) (start : S) (fuel : ℕ) (input : List ℕ) (expected limit : ℕ)
      → length input + cap_of expected limit < fuel
      → (o : Outcome) × (decompress_method inflate out method start fuel input expected limit
          ≡ some o)
  unfolding decompress_method
  decompress_method-ends store start fuel input expected limit h =
      (store_to inflate out input expected, refl)
  decompress_method-ends deflate start fuel input expected limit h =
      inflate_to-ends start fuel input expected limit h
  decompress_method-ends bzip2 start fuel input expected limit h = ((err unsupported, []), refl)
  decompress_method-ends lzma start fuel input expected limit h = ((err unsupported, []), refl)
  decompress_method-ends azo start fuel input expected limit h = ((err unsupported, []), refl)
  decompress_method-ends alz_bzip2 start fuel input expected limit h = ((err unsupported, []), refl)
  decompress_method-ends (unknown id) start fuel input expected limit h =
      ((err unsupported, []), refl)

  -- With more rounds than bytes of input and bytes that may come out, a decompression returns, by a
  -- success or an error, whatever the block, if no call of the engine consumes more than there is.
  pub decompress_to-ends :
      (method : Method) (start : S) (fuel : ℕ) (input : List ℕ) (expected limit : ℕ)
      → length input + cap_of expected limit < fuel
      → (o : Outcome) × (decompress_to inflate out method start fuel input expected limit ≡ some o)
  unfolding decompress_to
  decompress_to-ends method start fuel input expected limit h =
      elim (Bool-cases (ltb 0 limit && ltb limit expected)) [
        | inl e ↦ ((err corrupt, []), rw (e, decompress_to) refl)
        | inr e ↦
            let (o, q) = decompress_method-ends method start fuel input expected limit h in
            (o, rw (e, decompress_to) q)
      ]
