-- ===== src/Unegg/Items/Reading/Whole.antt =====
-- mod.rs: what has reached the sink when `read_item_to` returns.
use mathlib.Core.Path.{subst}
use zip_mania.Prelude.{
  ℕ, ◌+◌, ◌≤◌, ◌≡◌, refl, sym, ap, ◌∙◌, arith, Bool, true, false, Bool-cases, Option, some,
  Option-cases, some-injective, inl, inr, List, [], ◌∷◌, ◌++◌, append-nil, append_assoc, ◌==◌,
  ==_iff, length, length-append,
}
use zip_mania.Errors.{ok, err, ok-injective, Result-cases}
use zip_mania.Crc32
use zip_mania.Unegg.Crypto.{ZipCrypto}
use zip_mania.Unegg.Codec.Inflate.{Inflated, Outcome, decompress_to}
use zip_mania.Unegg.Codec.Inflate.Bounded.{IsDelivered, decompress_to-IsDelivered}
use zip_mania.Unegg.Items.{Item, BlockRef}
use zip_mania.Unegg.Items.Reading.{
  slice_of, decipher, budget_of, check_crc, receive, settle, read_block, read_blocks, read_item_to,
  cipher_of,
}

-- These bytes are those of the blocks, one behind another: each as long as its block says, if it
-- says so, and with the checksum that it gives, if it gives one.
pub data IsWhole : List BlockRef → List ℕ → Type 0 where
  nothing : IsWhole [] []
  next :
      {b : BlockRef} {bs : List BlockRef} {rest : List ℕ} (chunk : List ℕ)
      → (b.crc == 0 ≡ false → Crc32.finalize (Crc32.update Crc32.new chunk) ≡ b.crc)
      → (1 ≤ b.unpacked_size → length chunk ≡ b.unpacked_size)
      → IsWhole bs rest
      → IsWhole (b ∷ bs) (chunk ++ rest)

module _ {S : Type 0} (inflate : S → List ℕ → Inflated S) (start : S) (fuel : ℕ)
    (takes : List ℕ → List ℕ → Bool) (bytes : List ℕ) (item : Item) (limit : ℕ) where
  check_crc-eq :
      (b : BlockRef) (chunk : List ℕ)
      → check_crc b chunk ≡ true
      → b.crc == 0 ≡ false
      → Crc32.finalize (Crc32.update Crc32.new chunk) ≡ b.crc
  unfolding check_crc
  check_crc-eq b chunk h e = (==_iff _ _).0 (rw e at h)

  -- A block that succeeds adds a chunk that is its own.
  record Adds (b : BlockRef) (written : ℕ) (before : List ℕ) (n : ℕ) (after : List ℕ) : Type 0 where
    chunk : List ℕ
    appended : after ≡ before ++ chunk
    counted : n ≡ written + length chunk
    crc_same : b.crc == 0 ≡ false → Crc32.finalize (Crc32.update Crc32.new chunk) ≡ b.crc
    size_same : 1 ≤ b.unpacked_size → length chunk ≡ b.unpacked_size

  settle-Adds :
      (b : BlockRef) (written budget : ℕ) (before : List ℕ) (o : Outcome) {n : ℕ} {after : List ℕ}
      → IsDelivered b.unpacked_size budget o
      → settle inflate start fuel takes bytes item limit b written before o ≡ (ok n, after)
      → Adds b written before n after
  unfolding settle
  settle-Adds b written budget before (err c, received) d h = cc
  settle-Adds b written budget before (ok m, received) d h =
      elim (Bool-cases (check_crc b received)) [
        | inr e ↦ cc (rw e at h)
        | inl e ↦ record {
          chunk = received;
          appended = sym (ap (λ p. p.1) (rw e at h));
          counted =
              sym (ok-injective (ap (λ p. p.0) (rw e at h)))
              ∙ ap (λ k. written + k) (d.counted m refl);
          crc_same = check_crc-eq b received e;
          size_same = λ one. sym (d.counted m refl) ∙ d.as_expected m refl one;
        }
      ]

  read_block-Adds :
      (b : BlockRef) (cipher : Option ZipCrypto) (written : ℕ) (before : List ℕ) {n : ℕ}
      {after : List ℕ} {cipher' : Option ZipCrypto}
      → read_block inflate start fuel takes bytes item limit b cipher written before
        ≡ some ((ok n, after), cipher')
      → Adds b written before n after
  unfolding read_block
  read_block-Adds b cipher written before h = elim (Result-cases (slice_of bytes b)) [
    | inr (c, e) ↦ cc (rw (e, read_block) at h)
    | inl (packed, e) ↦ elim (Result-cases (budget_of limit written)) [
      | inr (c, f) ↦ cc (rw (e, f, read_block) at h)
      | inl (budget, f) ↦
          let plain = (decipher cipher packed).0 in
          elim (Option-cases (
            decompress_to inflate (receive inflate start fuel takes bytes item limit written before)
              b.method start fuel plain b.unpacked_size budget)) [
                | inl g ↦ cc (rw (e, f, g, read_block) at h)
                | inr (o, g) ↦
                    settle-Adds b written budget before o
                      (decompress_to-IsDelivered inflate
                        (receive inflate start fuel takes bytes item limit written before) b.method
                        start fuel plain b.unpacked_size budget g).0
                      (ap (λ p. p.0) (some-injective (rw (e, f, g, read_block) at h)))
              ]
    ]
  ]

  -- What the loop adds to what was there.
  record AddsAll (bs : List BlockRef) (written : ℕ) (before : List ℕ) (n : ℕ) (after : List ℕ)
      : Type 0 where
    added : List ℕ
    appended : after ≡ before ++ added
    counted : n ≡ written + length added
    whole : IsWhole bs added

  Adds-AddsAll :
      {b : BlockRef} {bs : List BlockRef} {written n m : ℕ} {before mid after : List ℕ}
      → Adds b written before n mid
      → AddsAll bs n mid m after
      → AddsAll (b ∷ bs) written before m after
  Adds-AddsAll {before} a k = record {
    added = a.chunk ++ k.added;
    appended =
        k.appended ∙ ap (λ xs. xs ++ k.added) a.appended ∙ append_assoc before a.chunk k.added;
    counted = omega (arith, a.counted, k.counted, length-append a.chunk k.added);
    whole = next a.chunk a.crc_same a.size_same k.whole;
  }

  read_blocks-AddsAll :
      (bs : List BlockRef) (cipher : Option ZipCrypto) (written : ℕ) (before : List ℕ) {n : ℕ}
      {after : List ℕ}
      → read_blocks inflate start fuel takes bytes item limit bs cipher written before
        ≡ some (ok n, after)
      → AddsAll bs written before n after
  unfolding read_blocks
  read_blocks-AddsAll [] cipher written before h = record {
    added = [];
    appended = sym (ap (λ p. p.1) (some-injective h)) ∙ sym (append-nil before);
    counted = omega (arith, ok-injective (ap (λ p. p.0) (some-injective h)));
    whole = nothing;
  }
  read_blocks-AddsAll (b ∷ bs) cipher written before h =
      elim (Option-cases
        (read_block inflate start fuel takes bytes item limit b cipher written before)) [
          | inl e ↦ cc (rw (e, read_blocks) at h)
          | inr (p, e) ↦ elim (Result-cases p.0.0) [
            | inr (c, f) ↦ cc (rw (e, f, read_blocks) at h)
            | inl (m, f) ↦
                Adds-AddsAll
                  (read_block-Adds b cipher written before (e ∙ ap (λ r. some ((r, p.0.1), p.1)) f))
                  (read_blocks-AddsAll bs p.1 m p.0.1 (rw (e, f, read_blocks) at h))
          ]
        ]

  -- A read that succeeds returns the number of bytes that reached the sink, and they are the blocks
  -- of the entry one behind another, each with its size and its checksum where they are given.
  pub read_item_to-IsWhole :
      (password : Option (List ℕ)) {n : ℕ} {delivered : List ℕ}
      → read_item_to inflate start fuel takes bytes item limit password ≡ some (ok n, delivered)
      → (n ≡ length delivered) × IsWhole item.blocks delivered
  unfolding read_item_to
  read_item_to-IsWhole password h = elim (Result-cases (cipher_of item.enc password)) [
    | inr (c, e) ↦ cc (rw (e, read_item_to) at h)
    | inl (cipher, e) ↦
        let k = read_blocks-AddsAll item.blocks cipher 0 [] (rw (e, read_item_to) at h) in
        (
          omega (arith, k.counted, ap length k.appended),
          subst (IsWhole item.blocks) (sym k.appended) k.whole,
        )
  ]
