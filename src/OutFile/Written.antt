-- ===== src/OutFile/Written.antt =====
-- outfile.rs: a write into a set of volumes is a write into one file.
use mathlib.Core.Path.{subst}
use native.Mathlib.Nat.{div-add-mod', mod-lt}
use zip_mania.Prelude.{
  ℕ, zero, suc, ◌+◌, ◌-◌, ◌*◌, ◌/◌, ◌%◌, ◌≤◌, ◌<◌, ◌≡◌, refl, sym, ap, ◌∙◌, arith, min, Bool, true,
  Bool-cases, inl, inr, Option, some, some-injective, List, [], ◌∷◌, ◌++◌, append-nil, append_assoc,
  length, length-append, length-take, take, replicate,
}
use zip_mania.OutFile.{
  VolumeSet, System, resize, patch, map_last, update, add_volume, ensure_from, ensure, write,
}
use zip_mania.OutFile.Pieces.{flat, IsFull, update-IsFull, Filled, fill}
use zip_mania.OutFile.Flat.{patch-zeros, length-replicate, replicate-append}

module _ (size : ℕ) where
  module _ (sys : System) where
    -- What `ensure` does where it succeeds: empty volumes behind, and the one before filled up.
    record Ready (rounds : ℕ) (vs vs' : List (List ℕ)) : Type 0 where
      zeros : ℕ
      flat_ready : flat vs' ≡ flat vs ++ replicate zeros 0
      full : IsFull size vs'
      count : length vs' ≡ rounds + length vs
      untouched : rounds ≡ 0 → zeros ≡ 0
      before : 1 ≤ rounds → length (flat vs') ≡ (length vs' - 1) * size

    added :
        (vs : List (List ℕ)) {vs' : List (List ℕ)}
        → add_volume sys size vs ≡ (true, vs')
        → vs' ≡ map_last (resize size) vs ++ [] ∷ []
    unfolding add_volume
    added [] h = ground arith
    added (v ∷ vs) h = ground arith

    Filled-before :
        (rounds : ℕ) {vs vs' : List (List ℕ)}
        → Filled size vs (map_last (resize size) vs)
        → Ready rounds (map_last (resize size) vs ++ [] ∷ []) vs'
        → length (flat vs') ≡ (length vs' - 1) * size
    Filled-before (suc rounds) f k = k.before (omega arith)
    Filled-before zero {vs} {vs'} f k =
        let one_more : length vs ≡ length vs' - 1 =
          omega
            (arith, k.count, f.same_count, length-append (map_last (resize size) vs) ([] ∷ [])) in
        let as_long : length (flat vs') ≡ length vs * size =
          ap length (k.flat_ready ∙ ap (λ r. r ++ replicate k.zeros 0) f.flat_longer)
          ∙ length-append (flat (map_last (resize size) vs)) (replicate k.zeros 0)
          ∙ omega (arith, f.length_filled, length-replicate {A = ℕ} k.zeros 0, k.untouched refl) in
        as_long ∙ ap (λ c. c * size) one_more

    add-Ready :
        {rounds : ℕ} {vs vs' : List (List ℕ)}
        → Filled size vs (map_last (resize size) vs)
        → Ready rounds (map_last (resize size) vs ++ [] ∷ []) vs'
        → Ready (suc rounds) vs vs'
    add-Ready {rounds} {vs} {vs'} f k = record {
      zeros = f.zeros + k.zeros;
      flat_ready =
          k.flat_ready
          ∙ ap (λ r. r ++ replicate k.zeros 0) (f.flat_longer ∙ f.flat_filled)
          ∙ append_assoc (flat vs) (replicate f.zeros 0) (replicate k.zeros 0)
          ∙ ap (λ r. flat vs ++ r) (replicate-append f.zeros k.zeros 0);
      full = k.full;
      count =
          omega (arith, k.count, f.same_count, length-append (map_last (resize size) vs) ([] ∷ []));
      untouched = λ e. absurd (omega arith);
      before = λ one. Filled-before rounds f k;
    }

    ensure_from-Ready :
        (rounds : ℕ) (vs : List (List ℕ)) {vs' : List (List ℕ)}
        → IsFull size vs
        → ensure_from sys size rounds vs ≡ (true, vs')
        → Ready rounds vs vs'
    unfolding ensure_from
    ensure_from-Ready zero vs f h =
        subst (Ready 0 vs) (ap (λ (p : Bool × List (List ℕ)). p.1) h) (record {
          zeros = 0;
          flat_ready = sym (append-nil (flat vs));
          full = f;
          count = omega arith;
          untouched = λ e. refl;
          before = λ one. absurd (omega arith);
        })
    ensure_from-Ready (suc rounds) vs {vs'} f h = elim (Bool-cases (add_volume sys size vs).0) [
      | inr e ↦ cc (rw (e, ensure_from) at h)
      | inl e ↦
          let same = added vs {vs' = (add_volume sys size vs).1} (pair_eq e) in
          let filled = fill size vs f in
          add-Ready filled (
            ensure_from-Ready rounds (map_last (resize size) vs ++ [] ∷ []) filled.longer
              (ap (ensure_from sys size rounds) (sym same) ∙ rw (e, ensure_from) at h))
    ]
      where
        pair_eq : {p : Bool × List (List ℕ)} → p.0 ≡ true → p ≡ (true, p.1)
        pair_eq {p} e = ap (λ b. (b, p.1)) e

    ensure-Ready :
        (idx : ℕ) (vs : List (List ℕ))
        → IsFull size vs
        → (ensure sys size idx vs).0 ≡ true
        → Ready (idx + 1 - length vs) vs (ensure sys size idx vs).1
    unfolding ensure
    ensure-Ready idx vs f e =
        ensure_from-Ready (idx + 1 - length vs) vs f (ap (λ b. (b, (ensure sys size idx vs).1)) e)

    -- A write at a place in the volume of index `idx`, once that volume is there.
    Ready-patch :
        (vs : List (List ℕ)) {vs' : List (List ℕ)} (idx off : ℕ) (bytes : List ℕ)
        → Ready (idx + 1 - length vs) vs vs'
        → off + length bytes ≤ size
        → IsFull size (update idx (patch off bytes) vs')
          × (flat (update idx (patch off bytes) vs') ≡ patch (idx * size + off) bytes (flat vs))
    Ready-patch vs {vs'} idx off bytes k fits =
        let (f, same) = update-IsFull size vs' idx off bytes k.full (omega (arith, k.count)) fits in
        (
          f,
          same
              ∙ ap (patch (idx * size + off) bytes) k.flat_ready
              ∙ forget (idx + 1 - length vs) refl,
        )
      where
        forget :
            (rounds : ℕ)
            → rounds ≡ idx + 1 - length vs
            → patch (idx * size + off) bytes (flat vs ++ replicate k.zeros 0)
              ≡ patch (idx * size + off) bytes (flat vs)
        forget zero e =
            ap (λ z. patch (idx * size + off) bytes (flat vs ++ replicate z 0))
              (k.untouched (sym e))
            ∙ ap (patch (idx * size + off) bytes) (append-nil (flat vs))
        forget (suc rounds) e =
            let place : length vs' - 1 ≡ idx = omega (arith, k.count, e) in
            let as_long : length (flat vs') ≡ idx * size =
              k.before (omega (arith, e)) ∙ ap (λ c. c * size) place in
            patch-zeros (flat vs) bytes (idx * size + off) k.zeros (
              omega (
                arith,
                as_long,
                ap length k.flat_ready,
                length-append (flat vs) (replicate k.zeros 0),
                length-replicate {A = ℕ} k.zeros 0,
              ))

-- What a successful write of a buffer that is not empty does.
pub record Patched (v : VolumeSet) (buf : List ℕ) (n : ℕ) (v' : VolumeSet) : Type 0 where
  pub some_bytes : 1 ≤ n
  pub at_most : n ≤ length buf
  pub one_file : flat v'.vols ≡ patch v.pos (take n buf) (flat v.vols)
  pub still_full : IsFull v.size v'.vols
  pub moved : v'.pos ≡ v.pos + n
  pub same_size : v'.size ≡ v.size

patched :
    (sys : System) (c : ℕ) (cs : List ℕ) (v : VolumeSet)
    → 1 ≤ v.size
    → IsFull v.size v.vols
    → (ensure sys v.size (v.pos / v.size) v.vols).0 ≡ true
    → let off = v.pos % v.size in
      let n = min (length (c ∷ cs)) (v.size - off) in
      Patched v (c ∷ cs) n (record v {
        vols =
            update
              (v.pos / v.size)
              (patch off (take n (c ∷ cs)))
              (ensure sys v.size (v.pos / v.size) v.vols).1;
        pos = v.pos + n;
      })
patched sys c cs v one f e =
    let idx = v.pos / v.size in
    let off = v.pos % v.size in
    let n = min (length (c ∷ cs)) (v.size - off) in
    let bytes = take n (c ∷ cs) in
    let inside : off < v.size = mod-lt v.pos one in
    let count : length bytes ≡ n = omega (arith, length-take n (c ∷ cs)) in
    let (full, same) =
      Ready-patch v.size sys v.vols idx off bytes (ensure-Ready v.size sys idx v.vols f e)
        (omega (arith, count, inside)) in
    record {
      some_bytes = omega (arith, inside);
      at_most = omega arith;
      one_file = same ∙ ap (λ p. patch p bytes (flat v.vols)) (div-add-mod' v.pos v.size);
      still_full = full;
      moved = refl;
      same_size = refl;
    }

-- On a set that is cut properly, a write of a buffer that is not empty, if it succeeds, writes at
-- least one byte, and the volumes taken as one file are changed as one file would be by a write of
-- these bytes at the position; they stay cut properly, and the position is behind the bytes.
pub write-Patched :
    (sys : System) (c : ℕ) (cs : List ℕ) (v : VolumeSet) {n : ℕ} {v' : VolumeSet}
    → 1 ≤ v.size
    → IsFull v.size v.vols
    → write sys (c ∷ cs) v ≡ (some n, v')
    → Patched v (c ∷ cs) n v'
unfolding write
write-Patched sys c cs v {n} {v'} one f h =
    let idx = v.pos / v.size in
    let off = v.pos % v.size in
    let m = min (length (c ∷ cs)) (v.size - off) in
    let bytes = take m (c ∷ cs) in
    let inside : off < v.size = mod-lt v.pos one in
    let vols = (ensure sys v.size idx v.vols).1 in
    elim (Bool-cases (ensure sys v.size idx v.vols).0) [
      | inr e ↦ cc (rw (e, write) at h)
      | inl e ↦ elim (Bool-cases (sys.puts idx off bytes)) [
        | inr p ↦ cc (rw (e, p, write) at h)
        | inl p ↦
            let same : (
              some m,
              record v { vols = update idx (patch off bytes) vols; pos = v.pos + m },
            )
                ≡ (some n, v') =
              rw (e, p, write) at h in
            subst (λ (r : Option ℕ × VolumeSet). Patched v (c ∷ cs) n r.1) same
              (subst
                (λ n.
                  Patched v (c ∷ cs) n
                    (record v { vols = update idx (patch off bytes) vols; pos = v.pos + m }))
                (some-injective (ap (λ (r : Option ℕ × VolumeSet). r.0) same))
                (patched sys c cs v one f e))
      ]
    ]
