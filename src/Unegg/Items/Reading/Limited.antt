-- ===== src/Unegg/Items/Reading/Limited.antt =====
-- mod.rs: how much `read_item_to` lets reach the sink, whatever it returns.
use mathlib.Core.Path.{subst}
use zip_mania.Prelude.{
  ℕ, ◌+◌, ◌≤◌, ◌≡◌, refl, ap, arith, Bool, Bool-cases, Option, some, Option-cases, some-injective,
  inl, inr, List, [], ◌∷◌, length, length-append,
}
use zip_mania.Errors.{ok, err, ok-injective, Result-cases}
use zip_mania.Unegg.Crypto.{ZipCrypto}
use zip_mania.Unegg.Codec.Inflate.{Inflated, Outcome, decompress_to}
use zip_mania.Unegg.Codec.Inflate.Bounded.{IsDelivered, decompress_to-IsDelivered}
use zip_mania.Unegg.Items.{Item, BlockRef}
use zip_mania.Unegg.Items.Reading.{
  slice_of, decipher, budget_of, check_crc, receive, settle, read_block, read_blocks, read_item_to,
  cipher_of,
}

-- Within the limit, and a success counts what has reached the sink.
record IsLimited (limit : ℕ) (o : Outcome) : Type 0 where
  few : length o.1 ≤ limit
  counted : (n : ℕ) → o.0 ≡ ok n → n ≡ length o.1

budget_of-fits :
    (limit written : ℕ) {budget : ℕ}
    → 1 ≤ limit
    → budget_of limit written ≡ ok budget
    → (1 ≤ budget) × (written + budget ≡ limit)
unfolding budget_of
budget_of-fits limit written one h = ground arith

module _ {S : Type 0} (inflate : S → List ℕ → Inflated S) (start : S) (fuel : ℕ)
    (takes : List ℕ → List ℕ → Bool) (bytes : List ℕ) (item : Item) (limit : ℕ)
    (one : 1 ≤ limit) where
  settle-IsLimited :
      (b : BlockRef) (written budget : ℕ) (before : List ℕ) (o : Outcome)
      → written ≡ length before
      → written + budget ≡ limit
      → IsDelivered b.unpacked_size budget o
      → length o.1 ≤ budget
      → IsLimited limit (settle inflate start fuel takes bytes item limit b written before o)
  unfolding settle
  settle-IsLimited b written budget before (err c, received) w fits d few = record {
    few = omega (arith, length-append before received);
    counted = λ n q. cc;
  }
  settle-IsLimited b written budget before (ok m, received) w fits d few =
      elim (Bool-cases (check_crc b received)) [
        | inr e ↦
            rw (e, settle)
              (record { few = omega (arith, length-append before received); counted = λ n q. cc })
        | inl e ↦
            rw (e, settle)
              (record {
                few = omega (arith, length-append before received);
                counted = λ n q.
                    omega (arith, ok-injective q, d.counted m refl, length-append before received);
              })
      ]

  read_block-IsLimited :
      (b : BlockRef) (cipher : Option ZipCrypto) (written : ℕ) (before : List ℕ)
      {p : Outcome × Option ZipCrypto}
      → written ≡ length before
      → written ≤ limit
      → read_block inflate start fuel takes bytes item limit b cipher written before ≡ some p
      → IsLimited limit p.0
  unfolding read_block
  read_block-IsLimited b cipher written before w few h = elim (Result-cases (slice_of bytes b)) [
    | inr (c, e) ↦
        subst (λ (p : Outcome × Option ZipCrypto). IsLimited limit p.0)
          (some-injective (rw (e, read_block) at h))
          (record { few = omega (arith, w); counted = λ n q. cc })
    | inl (packed, e) ↦ elim (Result-cases (budget_of limit written)) [
      | inr (c, f) ↦
          subst (λ (p : Outcome × Option ZipCrypto). IsLimited limit p.0)
            (some-injective (rw (e, f, read_block) at h))
            (record { few = omega (arith, w); counted = λ n q. cc })
      | inl (budget, f) ↦
          let plain = (decipher cipher packed).0 in
          let (some_left, fits) = budget_of-fits limit written one f in
          elim (Option-cases (
            decompress_to inflate (receive inflate start fuel takes bytes item limit written before)
              b.method start fuel plain b.unpacked_size budget)) [
                | inl g ↦ cc (rw (e, f, g, read_block) at h)
                | inr (o, g) ↦
                    let (d, most) =
                      decompress_to-IsDelivered inflate
                        (receive inflate start fuel takes bytes item limit written before) b.method
                        start fuel plain b.unpacked_size budget g in
                    subst (λ (p : Outcome × Option ZipCrypto). IsLimited limit p.0)
                      (some-injective (rw (e, f, g, read_block) at h))
                      (settle-IsLimited b written budget before o w fits d (most some_left))
              ]
    ]
  ]

  read_blocks-few :
      (bs : List BlockRef) (cipher : Option ZipCrypto) (written : ℕ) (before : List ℕ) {o : Outcome}
      → written ≡ length before
      → written ≤ limit
      → read_blocks inflate start fuel takes bytes item limit bs cipher written before ≡ some o
      → length o.1 ≤ limit
  unfolding read_blocks
  read_blocks-few [] cipher written before w few h =
      omega (arith, w, ap (λ (p : Outcome). length p.1) (some-injective h))
  read_blocks-few (b ∷ bs) cipher written before w few h =
      elim (Option-cases
        (read_block inflate start fuel takes bytes item limit b cipher written before)) [
          | inl e ↦ cc (rw (e, read_blocks) at h)
          | inr (p, e) ↦
              let k = read_block-IsLimited b cipher written before w few e in
              elim (Result-cases p.0.0) [
                | inr (c, f) ↦
                    subst (λ (o : Outcome). length o.1 ≤ limit)
                      (some-injective (rw (e, f, read_blocks) at h)) k.few
                | inl (m, f) ↦
                    read_blocks-few bs p.1 m p.0.1 (k.counted m f)
                      (omega (arith, k.counted m f, k.few)) (rw (e, f, read_blocks) at h)
              ]
        ]

  -- Whatever the entry holds and whether the read succeeds, no more bytes than a limit that is set
  -- reach the sink.
  pub read_item_to-few :
      (password : Option (List ℕ)) {o : Outcome}
      → read_item_to inflate start fuel takes bytes item limit password ≡ some o
      → length o.1 ≤ limit
  unfolding read_item_to
  read_item_to-few password h = elim (Result-cases (cipher_of item.enc password)) [
    | inr (c, e) ↦
        subst (λ (o : Outcome). length o.1 ≤ limit) (some-injective (rw (e, read_item_to) at h))
          (omega arith)
    | inl (cipher, e) ↦
        read_blocks-few item.blocks cipher 0 [] refl (omega arith) (rw (e, read_item_to) at h)
  ]
