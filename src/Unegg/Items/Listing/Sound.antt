-- ===== src/Unegg/Items/Listing/Sound.antt =====
-- mod.rs: what the calls of the backend promise.
use mathlib.Core.Path.{subst}
use zip_mania.Prelude.{
  ℕ, ◌≤◌, ◌≡◌, refl, sym, ap, ◌∙◌, arith, Bool, true, false, not, ◌&&◌, Bool-cases, eq_list,
  eq_list_iff, Option, some, Option-cases, some-injective, inl, inr, List, [], ◌∷◌, map, All,
  length,
}
use zip_mania.Errors.{Code, Result, ok, err, >>=-eq-ok, ok-injective, Result-cases}
use zip_mania.Paths.{unify}
use zip_mania.Unegg.Times.{Civil}
use zip_mania.Unegg.Codec.Inflate.{Inflated, Outcome, max_memory_entry_bytes}
use zip_mania.Unegg.Items.{Item, parse_items, find_file, find_item}
use zip_mania.Unegg.Crypto.{ZipCrypto}
use zip_mania.Unegg.Items.Reading.{cipher_of, read_item_to}
use zip_mania.Unegg.Items.Reading.Decoded.{Decodes, read_item_to-Decodes}
use zip_mania.Unegg.Items.Reading.Whole.{IsWhole, read_item_to-IsWhole}
use zip_mania.Unegg.Items.Reading.Limited.{read_item_to-few}
use zip_mania.Unegg.Items.Listing.{
  read_item, test_items, test, content_of, loaded_items, found_item, read_entry_to_memory,
  takes_all,
}

-- The first entry of the list that is a file of this path.
pub data IsFileOf (path : List ℕ) (i : Item) : List Item → Type 0 where
  found_here : {is : List Item} → i.is_dir ≡ false → i.path ≡ path → IsFileOf path i (i ∷ is)
  found_later :
      {j : Item} {is : List Item}
      → (not j.is_dir && eq_list j.path path) ≡ false
      → IsFileOf path i is
      → IsFileOf path i (j ∷ is)

find_file-IsFileOf :
    (want : List ℕ) (items : List Item) {i : Item}
    → find_file want items ≡ some i
    → IsFileOf want i items
unfolding find_file
find_file-IsFileOf want [] h = cc
find_file-IsFileOf want (j ∷ is) {i} h = elim (Bool-cases (not j.is_dir && eq_list j.path want)) [
  | inr e ↦ found_later e (find_file-IsFileOf want is (rw e at h))
  | inl e ↦
      subst (λ i. IsFileOf want i (j ∷ is)) (some-injective (rw e at h))
        (found_here (and_first j.is_dir _ e)
          ((eq_list_iff j.path want).0 (and_second (not j.is_dir) _ e)))
]
  where
    and_first : (a b : Bool) → (not a && b) ≡ true → a ≡ false
    and_first true b h = cc
    and_first false b h = refl

    and_second : (a b : Bool) → (a && b) ≡ true → b ≡ true
    and_second true b h = h
    and_second false b h = cc

module _ (from_utf8_lossy decode_legacy : List ℕ → List ℕ) (civil : ℕ → Option Civil) {S : Type 0}
    (inflate : S → List ℕ → Inflated S) (start : S) (fuel : ℕ) where
  -- A file whose blocks in these bytes decompress with the password, with their sizes and checksums.
  unfoldable pub IsReadable : List ℕ → Option (List ℕ) → Item → Type 0
  IsReadable bytes password i =
      (delivered : List ℕ) × (cipher : Option ZipCrypto) × (cipher_of i.enc password ≡ ok cipher)
      × Decodes inflate start fuel bytes i.blocks cipher delivered

  test_items-IsReadable :
      (bytes : List ℕ) (items : List Item) (password : Option (List ℕ))
      → test_items from_utf8_lossy decode_legacy civil inflate start fuel bytes items password
        ≡ some (ok tt)
      → All (λ i. i.is_dir ≡ false → IsReadable bytes password i) items
  unfolding test_items IsReadable
  test_items-IsReadable bytes [] password h = tt
  test_items-IsReadable bytes (i ∷ is) password h = elim (Bool-cases i.is_dir) [
    | inl e ↦ ((λ f. cc), test_items-IsReadable bytes is password (rw (e, test_items) at h))
    | inr e ↦ elim (Option-cases (read_item_to inflate start fuel takes_all bytes i 0 password)) [
      | inl g ↦ cc (rw (e, g, test_items) at h)
      | inr (o, g) ↦ elim (Result-cases o.0) [
        | inr (c, k) ↦ cc (rw (e, g, k, test_items) at h)
        | inl (n, k) ↦ (
          (λ f.
              let (cipher, opens, all) =
                read_item_to-Decodes inflate start fuel bytes i password
                  (g ∙ ap (λ r. some (r, o.1)) k) in
              (o.1, cipher, opens, all)),
          test_items-IsReadable bytes is password (rw (e, g, k, test_items) at h),
        )
      ]
    ]
  ]

  loaded_items-eq-ok :
      (loaded : Result (List ℕ)) {p : List ℕ × List Item}
      → loaded_items from_utf8_lossy decode_legacy civil inflate start fuel loaded ≡ ok p
      → (loaded ≡ ok p.0) × (parse_items from_utf8_lossy decode_legacy civil p.0 ≡ ok p.1)
  loaded_items-eq-ok (err c) h = cc
  loaded_items-eq-ok (ok bytes) {p} h =
      let (items, e, k) =
        >>=-eq-ok (parse_items from_utf8_lossy decode_legacy civil bytes)
          (λ items. ok (bytes, items)) h in
      subst
        (λ (p : List ℕ × List Item).
          (ok bytes ≡ ok p.0) × (parse_items from_utf8_lossy decode_legacy civil p.0 ≡ ok p.1))
        (ok-injective k) (refl, e)

  -- An archive that is tested with success was loaded and has a list of entries, and for each entry of
  -- it that is a file, the password gives a cipher, and the packed bytes of its blocks, at their places
  -- in the archive and deciphered, decompress to their sizes and checksums, where they are given.
  pub test-IsReadable :
      (loaded : Result (List ℕ)) (password : Option (List ℕ))
      → test from_utf8_lossy decode_legacy civil inflate start fuel loaded password ≡ some (ok tt)
      → (bytes : List ℕ) × (items : List Item) × (loaded ≡ ok bytes)
        × (parse_items from_utf8_lossy decode_legacy civil bytes ≡ ok items)
        × All (λ i. i.is_dir ≡ false → IsReadable bytes password i) items
  unfolding test
  test-IsReadable loaded password h =
      elim (Result-cases
        (loaded_items from_utf8_lossy decode_legacy civil inflate start fuel loaded)) [
          | inr (c, e) ↦ cc (rw (e, test) at h)
          | inl (p, e) ↦
              let (present, parsed) = loaded_items-eq-ok loaded e in
              (
                p.0,
                p.1,
                present,
                parsed,
                test_items-IsReadable p.0 p.1 password (rw (e, test) at h),
              )
        ]

  -- What `read_entry_to_memory` finds.
  pub record Read (loaded : Result (List ℕ)) (inner_path out : List ℕ) : Type 0 where
    pub bytes : List ℕ
    pub items : List Item
    pub item : Item
    pub there : loaded ≡ ok bytes
    pub parsed : parse_items from_utf8_lossy decode_legacy civil bytes ≡ ok items
    pub found : IsFileOf (map unify inner_path) item items
    pub whole : IsWhole item.blocks out
    pub few : length out ≤ max_memory_entry_bytes

  find_item-IsFileOf :
      (items : List Item) (inner_path : List ℕ) {i : Item}
      → find_item items inner_path ≡ ok i
      → IsFileOf (map unify inner_path) i items
  unfolding find_item
  find_item-IsFileOf items inner_path {i} h =
      elim (Option-cases (find_file (map unify inner_path) items)) [
        | inl e ↦ cc (rw (e, find_item) at h)
        | inr (j, e) ↦
            subst (λ i. IsFileOf (map unify inner_path) i items)
              (ok-injective (rw (e, find_item) at h))
              (find_file-IsFileOf (map unify inner_path) items e)
      ]

  read_item-whole :
      (bytes : List ℕ) (i : Item) (password : Option (List ℕ)) {out : List ℕ}
      → read_item from_utf8_lossy decode_legacy civil inflate start fuel bytes i password
        ≡ some (ok out)
      → IsWhole i.blocks out × (length out ≤ max_memory_entry_bytes)
  unfolding read_item
  read_item-whole bytes i password {out} h =
      elim (Option-cases
        (read_item_to inflate start fuel takes_all bytes i max_memory_entry_bytes password)) [
          | inl g ↦ cc (rw (g, read_item) at h)
          | inr (o, g) ↦ elim (Result-cases o.0) [
            | inr (c, k) ↦ cc (rw (g, content_of-err o k, read_item) at h)
            | inl (n, k) ↦
                subst (λ out. IsWhole i.blocks out × (length out ≤ max_memory_entry_bytes))
                  (ok-injective (some-injective (rw (g, content_of-ok o k, read_item) at h)))
                  (
                    (read_item_to-IsWhole inflate start fuel takes_all bytes i
                        max_memory_entry_bytes password (g ∙ ap (λ r. some (r, o.1)) k)).1,
                    read_item_to-few inflate start fuel takes_all bytes i max_memory_entry_bytes
                        (omega arith) password g,
                  )
          ]
        ]
    where
      content_of-err :
          (o : Outcome) {c : Code}
          → o.0 ≡ err c
          → content_of from_utf8_lossy decode_legacy civil inflate start fuel o ≡ err c
      content_of-err (err d, out) k = cc
      content_of-err (ok n, out) k = cc

      content_of-ok :
          (o : Outcome) {n : ℕ}
          → o.0 ≡ ok n
          → content_of from_utf8_lossy decode_legacy civil inflate start fuel o ≡ ok o.1
      content_of-ok (err d, out) k = cc
      content_of-ok (ok n, out) k = refl

  -- What is read into memory is whole and at most 256 MiB, and comes from the first file of the
  -- archive that has the path, taken with `/` for each separator.
  pub read_entry_to_memory-Read :
      (loaded : Result (List ℕ)) (inner_path : List ℕ) (password : Option (List ℕ)) {out : List ℕ}
      → read_entry_to_memory from_utf8_lossy decode_legacy civil inflate start fuel loaded
          inner_path password
        ≡ some (ok out)
      → Read loaded inner_path out
  unfolding read_entry_to_memory found_item
  read_entry_to_memory-Read loaded inner_path password {out} h =
      elim (Result-cases
        (found_item from_utf8_lossy decode_legacy civil inflate start fuel loaded inner_path)) [
          | inr (c, e) ↦ cc (rw (e, read_entry_to_memory) at h)
          | inl (q, e) ↦
              let (p, e1, e2) =
                >>=-eq-ok
                  (loaded_items from_utf8_lossy decode_legacy civil inflate start fuel loaded) _
                  e in
              let (i, e3, e4) = >>=-eq-ok (find_item p.1 inner_path) (λ i. ok (p.0, i)) e2 in
              let (present, parsed) = loaded_items-eq-ok loaded e1 in
              let (whole, few) =
                read_item-whole q.0 q.1 password (rw (e, read_entry_to_memory) at h) in
              record {
                bytes = p.0;
                items = p.1;
                item = i;
                there = present;
                parsed = parsed;
                found = find_item-IsFileOf p.1 inner_path e3;
                whole =
                    subst (λ (i : Item). IsWhole i.blocks out)
                      (sym (ap (λ (q : List ℕ × Item). q.1) (ok-injective e4))) whole;
                few = few;
              }
        ]
