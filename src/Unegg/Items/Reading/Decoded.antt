-- ===== src/Unegg/Items/Reading/Decoded.antt =====
-- mod.rs: what a read of a whole entry without a limit delivers to a sink that takes all.
use mathlib.Core.Path.{subst}
use zip_mania.Prelude.{
  ℕ, ◌+◌, ◌-◌, ◌^◌, ◌≤◌, ◌≡◌, refl, sym, ap, ◌∙◌, arith, Bool, true, false, Bool-cases, not_less,
  Option, none, some, Option-cases, some-injective, inl, inr, List, [], ◌∷◌, ◌++◌, append-nil,
  append_assoc, ltb, leb, ◌==◌, ==_iff, length, take, drop,
}
use zip_mania.Errors.{Code, ok, err, ok-injective, Result-cases}
use zip_mania.Crc32
use zip_mania.Unegg.Crypto.{ZipCrypto}
use zip_mania.Unegg.Codec.{data_header_size}
use zip_mania.Unegg.Codec.Inflate.{Inflated, Outcome, decompress_to}
use zip_mania.Unegg.Codec.Inflate.Bounded.{decompress_to-IsDelivered}
use zip_mania.Unegg.Items.{Item, BlockRef}
use zip_mania.Unegg.Items.Reading.{
  slice_of, decipher, budget_of, check_crc, receive, settle, read_block, read_blocks, read_item_to,
  cipher_of,
}

-- The packed bytes of a block in the archive, behind the header of the data.
pub record IsPacked (bytes : List ℕ) (b : BlockRef) (packed : List ℕ) : Type 0 where
  pub within :
      b.data_offset + data_header_size b.method + (b.packed_size - data_header_size b.method)
      ≤ length bytes
  pub there :
      packed
      ≡ take
          (b.packed_size - data_header_size b.method)
          (drop (b.data_offset + data_header_size b.method) bytes)

slice_of-IsPacked :
    (bytes : List ℕ) (b : BlockRef) {packed : List ℕ}
    → slice_of bytes b ≡ ok packed
    → IsPacked bytes b packed
unfolding slice_of
slice_of-IsPacked bytes b {packed} h =
    let begin = b.data_offset + data_header_size b.method in
    let stop = begin + (b.packed_size - data_header_size b.method) in
    elim (Bool-cases (leb (2 ^ 64) begin)) [
      | inl e ↦ cc (rw e at h)
      | inr e ↦ elim (Bool-cases (leb (2 ^ 64) stop)) [
        | inl f ↦ cc (rw (e, f) at h)
        | inr f ↦ elim (Bool-cases (ltb (length bytes) stop)) [
          | inl g ↦ cc (rw (e, f, g) at h)
          | inr g ↦ record {
            within = not_less (length bytes) stop g;
            there =
                sym (ok-injective (rw (e, f, g) at h))
                ∙ ap (λ n. take n (drop begin bytes)) (omega arith);
          }
        ]
      ]
    ]

abbrev forgiving : List ℕ → List ℕ → Option Code
forgiving received chunk = none

abbrev takes_any : List ℕ → List ℕ → Bool
takes_any received chunk = true

module _ {S : Type 0} (inflate : S → List ℕ → Inflated S) (start : S) (fuel : ℕ)
    (bytes : List ℕ) where
  -- These bytes are what the blocks decompress to, one behind another: the packed bytes of each are
  -- deciphered with the state that the block before left, and what they decompress to has the size and
  -- the checksum of the block, where they are given.
  pub data Decodes : List BlockRef → Option ZipCrypto → List ℕ → Type 0 where
    nothing : {cipher : Option ZipCrypto} → Decodes [] cipher []
    next :
        {b : BlockRef} {bs : List BlockRef} {cipher : Option ZipCrypto} {rest : List ℕ}
        (packed chunk : List ℕ)
        → IsPacked bytes b packed
        → decompress_to inflate forgiving b.method start fuel
            (decipher cipher packed).0
            b.unpacked_size
            0
          ≡ some (ok (length chunk), chunk)
        → (b.crc == 0 ≡ false → Crc32.finalize (Crc32.update Crc32.new chunk) ≡ b.crc)
        → (1 ≤ b.unpacked_size → length chunk ≡ b.unpacked_size)
        → Decodes bs (decipher cipher packed).1 rest
        → Decodes (b ∷ bs) cipher (chunk ++ rest)

  module _ (item : Item) where
    -- What a block adds to what was there.
    record Adds (b : BlockRef) (cipher : Option ZipCrypto) (before after : List ℕ)
        (cipher' : Option ZipCrypto) : Type 0 where
      packed : List ℕ
      chunk : List ℕ
      placed : IsPacked bytes b packed
      decoded :
          decompress_to inflate forgiving b.method start fuel
            (decipher cipher packed).0
            b.unpacked_size
            0
          ≡ some (ok (length chunk), chunk)
      crc_same : b.crc == 0 ≡ false → Crc32.finalize (Crc32.update Crc32.new chunk) ≡ b.crc
      size_same : 1 ≤ b.unpacked_size → length chunk ≡ b.unpacked_size
      appended : after ≡ before ++ chunk
      cipher_next : cipher' ≡ (decipher cipher packed).1

    check_crc-eq :
        (b : BlockRef) (chunk : List ℕ)
        → check_crc b chunk ≡ true
        → b.crc == 0 ≡ false
        → Crc32.finalize (Crc32.update Crc32.new chunk) ≡ b.crc
    unfolding check_crc
    check_crc-eq b chunk h e = (==_iff _ _).0 (rw e at h)

    settle-Adds :
        (b : BlockRef) (cipher : Option ZipCrypto) (packed : List ℕ) (written : ℕ) (before : List ℕ)
        (o : Outcome) {n : ℕ} {after : List ℕ}
        → IsPacked bytes b packed
        → decompress_to inflate forgiving b.method start fuel
            (decipher cipher packed).0
            b.unpacked_size
            0
          ≡ some o
        → settle inflate start fuel takes_any bytes item 0 b written before o ≡ (ok n, after)
        → Adds b cipher before after (decipher cipher packed).1
    unfolding settle
    settle-Adds b cipher packed written before (err c, received) p d h = cc
    settle-Adds b cipher packed written before (ok m, received) p d h =
        let got =
          (decompress_to-IsDelivered inflate forgiving b.method start fuel
            (decipher cipher packed).0 b.unpacked_size 0 d).0 in
        elim (Bool-cases (check_crc b received)) [
          | inr e ↦ cc (rw e at h)
          | inl e ↦ record {
            packed = packed;
            chunk = received;
            placed = p;
            decoded = d ∙ ap (λ k. some (ok k, received)) (got.counted m refl);
            crc_same = check_crc-eq b received e;
            size_same = λ one. sym (got.counted m refl) ∙ got.as_expected m refl one;
            appended = sym (ap (λ p. p.1) (rw e at h));
            cipher_next = refl;
          }
        ]

    read_block-Adds :
        (b : BlockRef) (cipher : Option ZipCrypto) (written : ℕ) (before : List ℕ) {n : ℕ}
        {after : List ℕ} {cipher' : Option ZipCrypto}
        → read_block inflate start fuel takes_any bytes item 0 b cipher written before
          ≡ some ((ok n, after), cipher')
        → Adds b cipher before after cipher'
    unfolding read_block budget_of receive
    read_block-Adds b cipher written before {after} h = elim (Result-cases (slice_of bytes b)) [
      | inr (c, e) ↦ cc (rw (e, read_block) at h)
      | inl (packed, e) ↦
          elim (Option-cases (
            decompress_to inflate forgiving b.method start fuel (decipher cipher packed).0
              b.unpacked_size 0)) [
                | inl g ↦ cc (rw (e, g, read_block) at h)
                | inr (o, g) ↦
                    let k = some-injective (rw (e, g, read_block) at h) in
                    subst (λ cipher'. Adds b cipher before after cipher') (ap (λ p. p.1) k)
                      (settle-Adds b cipher packed written before o (slice_of-IsPacked bytes b e) g
                        (ap (λ p. p.0) k))
              ]
    ]

    read_blocks-Decodes :
        (bs : List BlockRef) (cipher : Option ZipCrypto) (written : ℕ) (before : List ℕ) {n : ℕ}
        {after : List ℕ}
        → read_blocks inflate start fuel takes_any bytes item 0 bs cipher written before
          ≡ some (ok n, after)
        → (added : List ℕ) × (after ≡ before ++ added) × Decodes bs cipher added
    unfolding read_blocks
    read_blocks-Decodes [] cipher written before h =
        ([], sym (ap (λ p. p.1) (some-injective h)) ∙ sym (append-nil before), nothing)
    read_blocks-Decodes (b ∷ bs) cipher written before h =
        elim (Option-cases
          (read_block inflate start fuel takes_any bytes item 0 b cipher written before)) [
            | inl e ↦ cc (rw (e, read_blocks) at h)
            | inr (p, e) ↦ elim (Result-cases p.0.0) [
              | inr (c, f) ↦ cc (rw (e, f, read_blocks) at h)
              | inl (m, f) ↦
                  let a =
                    read_block-Adds b cipher written before
                      (e ∙ ap (λ r. some ((r, p.0.1), p.1)) f) in
                  let (added, same, rest) =
                    read_blocks-Decodes bs p.1 m p.0.1 (rw (e, f, read_blocks) at h) in
                  (
                    a.chunk ++ added,
                    same ∙ ap (λ xs. xs ++ added) a.appended ∙ append_assoc before a.chunk added,
                    next a.packed a.chunk a.placed a.decoded a.crc_same a.size_same
                        (subst (λ c. Decodes bs c added) a.cipher_next rest),
                  )
            ]
          ]

    -- What a read without a limit delivers to a sink that takes all is what the blocks of the entry
    -- decompress to, from the cipher that the password gives.
    pub read_item_to-Decodes :
        (password : Option (List ℕ)) {n : ℕ} {delivered : List ℕ}
        → read_item_to inflate start fuel takes_any bytes item 0 password ≡ some (ok n, delivered)
        → (cipher : Option ZipCrypto) × (cipher_of item.enc password ≡ ok cipher)
          × Decodes item.blocks cipher delivered
    unfolding read_item_to
    read_item_to-Decodes password h = elim (Result-cases (cipher_of item.enc password)) [
      | inr (c, e) ↦ cc (rw (e, read_item_to) at h)
      | inl (cipher, e) ↦
          let (added, same, all) =
            read_blocks-Decodes item.blocks cipher 0 [] (rw (e, read_item_to) at h) in
          (cipher, e, subst (λ xs. Decodes item.blocks cipher xs) (sym same) all)
    ]
