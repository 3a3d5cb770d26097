-- ===== src/OutFile/Pieces.antt =====
-- outfile.rs: the volumes of a set as one file that is cut into pieces.
use native.Mathlib.Nat.{suc-mul}
use zip_mania.Prelude.{
  ℕ, zero, suc, ◌+◌, ◌-◌, ◌*◌, ◌≤◌, ◌<◌, ◌≡◌, refl, sym, ap, ◌∙◌, arith, false, List, [], ◌∷◌, ◌++◌,
  append-nil, append_assoc, ◌==◌, length, length-append, length-take, take, replicate,
  if◌then◌else◌,
}
use zip_mania.OutFile.{VolumeSet, resize, patch, map_last, update, last_length, len}
use zip_mania.OutFile.Flat.{patch-over, patch-within, length-patch, length-replicate, take_all}

-- The volumes as one file.
unfoldable pub flat : List (List ℕ) → List ℕ
flat [] = []
flat (v ∷ vs) = v ++ flat vs

-- Every volume but the last is full, and the last is not longer than a full one.
pub data IsFull (size : ℕ) : List (List ℕ) → Type 0 where
  empty : IsFull size []
  last : {v : List ℕ} → length v ≤ size → IsFull size (v ∷ [])
  more :
      {v w : List ℕ} {ws : List (List ℕ)}
      → length v ≡ size
      → IsFull size (w ∷ ws)
      → IsFull size (v ∷ w ∷ ws)

pub suc_times : (i n : ℕ) → suc i * n ≡ n + i * n
suc_times i n = let e = suc-mul i n in omega (arith, e)

module _ (size : ℕ) where
  pub more_any :
      (v : List ℕ) (vs : List (List ℕ)) → length v ≡ size → IsFull size vs → IsFull size (v ∷ vs)
  more_any v [] h k = last (omega arith)
  more_any v (w ∷ ws) h k = more h k

  pub update-IsFull :
      (vs : List (List ℕ)) (i off : ℕ) (bytes : List ℕ)
      → IsFull size vs
      → i < length vs
      → off + length bytes ≤ size
      → IsFull size (update i (patch off bytes) vs)
        × (flat (update i (patch off bytes) vs) ≡ patch (i * size + off) bytes (flat vs))
  unfolding flat
  update-IsFull [] i off bytes f h fits = absurd (omega arith)
  update-IsFull (v ∷ []) zero off bytes (last short) h fits = (
    last (omega (arith, length-patch off bytes v)),
    append-nil (patch off bytes v)
        ∙ ap (λ k. patch k bytes v) (let e : off ≡ 0 * size + off = omega arith in e)
        ∙ ap (patch (0 * size + off) bytes) (sym (append-nil v)),
  )
  update-IsFull (v ∷ []) (suc i) off bytes f h fits = absurd (omega arith)
  update-IsFull (v ∷ w ∷ ws) zero off bytes (more full k) h fits = (
    more (omega (arith, length-patch off bytes v)) k,
    sym (patch-within v (flat (w ∷ ws)) bytes off (omega arith))
        ∙ ap (λ k. patch k bytes (v ++ flat (w ∷ ws)))
            (let e : off ≡ 0 * size + off = omega arith in e),
  )
  update-IsFull (v ∷ w ∷ ws) (suc i) off bytes (more full k) h fits =
      let (f, same) = update-IsFull (w ∷ ws) i off bytes k (omega arith) fits in
      let place : length v + (i * size + off) ≡ suc i * size + off =
        omega (arith, suc_times i size, full) in
      (
        more_any v (update i (patch off bytes) (w ∷ ws)) full f,
        ap (λ r. v ++ r) same
            ∙ sym (patch-over v (flat (w ∷ ws)) bytes (i * size + off))
            ∙ ap (λ p. patch p bytes (v ++ flat (w ∷ ws))) place,
      )

  pub length-resize : (content : List ℕ) → length (resize size content) ≡ size
  unfolding resize
  length-resize content = omega (
    arith,
    length-append (take size content) (replicate (size - length content) 0),
    length-take size content,
    length-replicate {A = ℕ} (size - length content) 0,
  )

  -- What filling up the last volume does.
  pub record Filled (vs filled : List (List ℕ)) : Type 0 where
    pub zeros : ℕ
    pub flat_filled : flat filled ≡ flat vs ++ replicate zeros 0
    pub length_filled : length (flat filled) ≡ length vs * size
    pub longer : IsFull size (filled ++ [] ∷ [])
    pub same_count : length filled ≡ length vs
    pub flat_longer : flat (filled ++ [] ∷ []) ≡ flat filled

  pub fill : (vs : List (List ℕ)) → IsFull size vs → Filled vs (map_last (resize size) vs)
  unfolding flat resize
  fill [] f = record {
    zeros = 0;
    flat_filled = refl;
    length_filled = omega arith;
    longer = last (omega arith);
    same_count = refl;
    flat_longer = refl;
  }
  fill (v ∷ []) (last short) = record {
    zeros = size - length v;
    flat_filled =
        append-nil (resize size v)
        ∙ ap (λ r. r ++ replicate (size - length v) 0) (take_all size v short ∙ sym (append-nil v));
    length_filled = omega (arith, length-resize v, ap length (append-nil (resize size v)));
    longer = more (length-resize v) (last (omega arith));
    same_count = refl;
    flat_longer = refl;
  }
  fill (v ∷ w ∷ ws) (more full k) =
      let f = fill (w ∷ ws) k in
      record {
        zeros = f.zeros;
        flat_filled =
            ap (λ r. v ++ r) f.flat_filled
            ∙ sym (append_assoc v (flat (w ∷ ws)) (replicate f.zeros 0));
        length_filled = omega (
          arith,
          f.length_filled,
          full,
          suc_times (length (w ∷ ws)) size,
          length-append v (flat (map_last (resize size) (w ∷ ws))),
        );
        longer = more_any v _ full f.longer;
        same_count = ap suc f.same_count;
        flat_longer = ap (λ r. v ++ r) f.flat_longer;
      }

  count_flat :
      (v : List ℕ) (vs : List (List ℕ))
      → IsFull size (v ∷ vs)
      → length (flat (v ∷ vs)) ≡ length vs * size + last_length (v ∷ vs)
  unfolding flat
  count_flat v [] f = omega (arith, length-append v [])
  count_flat v (w ∷ ws) (more full k) =
      omega (
        arith,
        count_flat w ws k,
        full,
        length-append v (flat (w ∷ ws)),
        suc_times (length ws) size,
      )

count_len :
    (size : ℕ) (vs : List (List ℕ))
    → IsFull size vs
    → (if length vs == 0 then 0 else (length vs - 1) * size + last_length vs) ≡ length (flat vs)
unfolding flat
count_len size [] f = refl
count_len size (v ∷ vs) f =
    let before : suc (length vs) - 1 ≡ length vs = omega arith in
    let some_volume : suc (length vs) == 0 ≡ false = ground arith in
    rw (some_volume, before) (sym (count_flat size v vs f))

-- `len` is the length of the one file.
pub len-flat : (v : VolumeSet) → IsFull v.size v.vols → len v ≡ length (flat v.vols)
unfolding len
len-flat v f = count_len v.size v.vols f
