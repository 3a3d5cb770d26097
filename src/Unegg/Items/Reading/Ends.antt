-- ===== src/Unegg/Items/Reading/Ends.antt =====
-- mod.rs: `read_item_to` returns.
use mathlib.Core.Path.{subst}
use zip_mania.Prelude.{
  ℕ, zero, suc, ◌+◌, ◌-◌, ◌≤◌, ◌<◌, ◌≡◌, refl, ap, arith, Bool, Option, none, some, inl, inr, List,
  [], ◌∷◌, ◌^◌, All, ltb, leb, Bool-cases, length, length-take, length-drop, take, drop,
}
use zip_mania.Errors.{ok, err, ok-injective, Result-cases}
use zip_mania.Unegg.Crypto.{ZipCrypto, decrypt}
use zip_mania.Unegg.Codec.Inflate.{Inflated, Outcome, cap_of, max_memory_entry_bytes}
use zip_mania.Unegg.Codec.Inflate.Ends.{Consumes, decompress_to-ends}
use zip_mania.Unegg.Codec.{data_header_size}
use zip_mania.Unegg.Items.{Item, BlockRef}
use zip_mania.Unegg.Items.Reading.{
  slice_of, decipher, budget_of, receive, settle, read_block, read_blocks, read_item_to, cipher_of,
}

cap_of-most :
    (expected limit : ℕ) → cap_of expected limit ≤ expected + limit + max_memory_entry_bytes
unfolding cap_of
cap_of-most zero zero = omega arith
cap_of-most zero (suc l) = omega arith
cap_of-most (suc e) limit = omega arith

budget_of-most :
    (limit written : ℕ) {budget : ℕ} → budget_of limit written ≡ ok budget → budget ≤ limit
unfolding budget_of
budget_of-most limit written h = ground arith

length-piece : (n i : ℕ) (xs : List ℕ) → length (take n (drop i xs)) ≤ length xs
length-piece n i xs = omega (arith, length-take n (drop i xs), length-drop i xs)

slice_of-most :
    (bytes : List ℕ) (b : BlockRef) {packed : List ℕ}
    → slice_of bytes b ≡ ok packed
    → length packed ≤ length bytes
unfolding slice_of
slice_of-most bytes b h =
    let header = data_header_size b.method in
    let start = b.data_offset + header in
    let stop = start + (b.packed_size - header) in
    elim (Bool-cases (leb (2 ^ 64) start)) [
      | inl e ↦ cc (rw (e, slice_of) at h)
      | inr e ↦ elim (Bool-cases (leb (2 ^ 64) stop)) [
        | inl f ↦ cc (rw (e, f, slice_of) at h)
        | inr f ↦ elim (Bool-cases (ltb (length bytes) stop)) [
          | inl g ↦ cc (rw (e, f, g, slice_of) at h)
          | inr g ↦
              subst (λ p. length p ≤ length bytes) (ok-injective (rw (e, f, g, slice_of) at h))
                (length-piece (stop - start) start bytes)
        ]
      ]
    ]

length-decrypt : (cs : List ℕ) (z : ZipCrypto) → length (decrypt z cs).0 ≡ length cs
unfolding decrypt
length-decrypt [] z = refl
length-decrypt (c ∷ cs) z = ap suc (length-decrypt cs _)

decipher-most :
    (cipher : Option ZipCrypto) (packed : List ℕ)
    → length (decipher cipher packed).0 ≡ length packed
unfolding decipher
decipher-most none packed = refl
decipher-most (some z) packed = length-decrypt packed z

-- Rounds enough for a block of the archive, whatever is left of the limit.
unfoldable pub Enough : ℕ → List ℕ → ℕ → BlockRef → Type 0
Enough fuel bytes limit b = length bytes + (b.unpacked_size + limit + max_memory_entry_bytes) < fuel

module _ {S : Type 0} (inflate : S → List ℕ → Inflated S) (c : Consumes inflate) (start : S)
    (fuel : ℕ) (takes : List ℕ → List ℕ → Bool) (bytes : List ℕ) (item : Item) (limit : ℕ) where
  read_block-ends :
      (b : BlockRef) (cipher : Option ZipCrypto) (written : ℕ) (before : List ℕ)
      → Enough fuel bytes limit b
      → (p : Outcome × Option ZipCrypto) × (read_block inflate start fuel takes bytes item limit b
            cipher written before
          ≡ some p)
  unfolding read_block Enough
  read_block-ends b cipher written before h = elim (Result-cases (slice_of bytes b)) [
    | inr (code, e) ↦ (((err code, before), cipher), rw (e, read_block) refl)
    | inl (packed, e) ↦ elim (Result-cases (budget_of limit written)) [
      | inr (code, f) ↦
          (((err code, before), (decipher cipher packed).1), rw (e, f, read_block) refl)
      | inl (budget, f) ↦
          let plain = (decipher cipher packed).0 in
          let (o, q) =
            decompress_to-ends inflate
              (receive inflate start fuel takes bytes item limit written before) c b.method start
              fuel plain b.unpacked_size budget
              (omega (
                arith,
                slice_of-most bytes b e,
                decipher-most cipher packed,
                budget_of-most limit written f,
                cap_of-most b.unpacked_size budget,
              )) in
          (
            (
              settle inflate start fuel takes bytes item limit b written before o,
              (decipher cipher packed).1,
            ),
            rw (e, f, q, read_block) refl,
          )
    ]
  ]

  read_blocks-ends :
      (bs : List BlockRef) (cipher : Option ZipCrypto) (written : ℕ) (before : List ℕ)
      → All (Enough fuel bytes limit) bs
      → (o : Outcome) × (read_blocks inflate start fuel takes bytes item limit bs cipher written
            before
          ≡ some o)
  unfolding read_blocks
  read_blocks-ends [] cipher written before h = (_, refl)
  read_blocks-ends (b ∷ bs) cipher written before h =
      let (p, e) = read_block-ends b cipher written before h.0 in
      elim (Result-cases p.0.0) [
        | inr (code, f) ↦ (p.0, rw (e, f, read_blocks) refl)
        | inl (m, f) ↦
            let (o, q) = read_blocks-ends bs p.1 m p.0.1 h.1 in (o, rw (e, f, read_blocks) q)
      ]

  -- With rounds enough for each block, a read of an entry returns, by a success or an error, if no
  -- call of the engine consumes more than there is.
  pub read_item_to-ends :
      (password : Option (List ℕ))
      → All (Enough fuel bytes limit) item.blocks
      → (o : Outcome) × (read_item_to inflate start fuel takes bytes item limit password ≡ some o)
  unfolding read_item_to
  read_item_to-ends password h = elim (Result-cases (cipher_of item.enc password)) [
    | inr (code, e) ↦ ((err code, []), rw (e, read_item_to) refl)
    | inl (cipher, e) ↦
        let (o, q) = read_blocks-ends item.blocks cipher 0 [] h in (o, rw (e, read_item_to) q)
  ]
