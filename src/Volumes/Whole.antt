-- ===== src/Volumes/Whole.antt =====
-- volumes.rs: the volumes read as one file, the concatenation of theirs.
use mathlib.Core.Path.{subst}
use zip_mania.Prelude.{
  ℕ, zero, suc, ◌+◌, ◌-◌, ◌≤◌, ◌<◌, min, max, ◌≡◌, refl, sym, ap, ◌∙◌, arith, Option, none, some,
  Option-cases, some-injective, List, [], ◌∷◌, ◌++◌, ltb, ltb→lt, ◌==◌, length, length-append,
  length-drop, length-take, not_less, ==_iff, ◌⊎◌, drop-drop, drop_left, get_elem?, take, drop, All,
  Bool-cases, inl, inr,
}
use zip_mania.Errors.{ok, ok-injective}
use zip_mania.Volumes.{Volume, VolumeReader, locate_from, locate, read_at, read}

-- What the volumes hold together.
abbrev pub whole : List Volume → List ℕ
whole [] = []
whole (v ∷ vs) = v.content ++ whole vs

-- The metadata tell the lengths.
abbrev pub Measured : Volume → Type 0
Measured v = v.len ≡ length v.content

pub record IsValid (r : VolumeReader) : Type 0 where
  pub measured : All Measured r.files
  pub total_right : r.total ≡ length (whole r.files)

-- A read of something grants at least one byte and at most what was asked for.
pub record Grants (granted : ℕ → ℕ → ℕ → Option ℕ) : Type 0 where
  pub within : (idx off want : ℕ) {n : ℕ} → granted idx off want ≡ some n → n ≤ want
  pub some_given : (idx off want : ℕ) {n : ℕ} → granted idx off want ≡ some n → 1 ≤ want → 1 ≤ n

-- Where `locate_from` finds place `p`: the volume, and the bytes from there on.
pub record Located (vs : List Volume) (start i p idx off : ℕ) : Type 0 where
  pub index : ℕ
  pub volume : Volume
  pub after : List ℕ
  pub index_right : idx ≡ i + index
  pub there : get_elem? vs index ≡ some volume
  pub inside : off < length volume.content
  pub is_measured : Measured volume
  pub splits : drop (p - start) (whole vs) ≡ drop off volume.content ++ after

drop_into : (n : ℕ) (xs ys : List ℕ) → n ≤ length xs → drop n (xs ++ ys) ≡ drop n xs ++ ys
drop_into zero xs ys h = refl
drop_into (suc n) [] ys h = absurd (omega arith)
drop_into (suc n) (x ∷ xs) ys h = drop_into n xs ys (omega arith)

drop_past : (n : ℕ) (xs ys : List ℕ) → drop (length xs + n) (xs ++ ys) ≡ drop n ys
drop_past n xs ys = sym (drop-drop (length xs) n (xs ++ ys)) ∙ ap (drop n) (drop_left xs ys)

pub locate_from-Located :
    (vs : List Volume) (start i p : ℕ) {idx off : ℕ}
    → All Measured vs
    → start ≤ p
    → locate_from vs start i p ≡ some (idx, off)
    → Located vs start i p idx off
unfolding locate_from
locate_from-Located [] start i p m s h = cc
locate_from-Located (v ∷ vs) start i p {idx} {off} m s h =
    elim (Bool-cases (ltb p (start + v.len))) [
      | inl e ↦
          let same = some-injective (rw e at h) in
          let here : off ≡ p - start = sym (ap (λ q. q.1) same) in
          let inside : off < length v.content = omega (arith, ltb→lt p (start + v.len) e, m.0) in
          record {
            index = 0;
            volume = v;
            after = whole vs;
            index_right = omega (arith, ap (λ q. q.0) same);
            there = refl;
            inside = inside;
            is_measured = m.0;
            splits =
                ap (λ k. drop k (v.content ++ whole vs)) (sym here)
                ∙ drop_into off v.content (whole vs) (omega arith);
          }
      | inr e ↦
          let past : start + v.len ≤ p = not_less p (start + v.len) e in
          let l = locate_from-Located vs (start + v.len) (i + 1) p m.1 past (rw e at h) in
          let far : p - start ≡ length v.content + (p - (start + v.len)) = omega (arith, m.0) in
          record {
            index = suc l.index;
            volume = l.volume;
            after = l.after;
            index_right = omega (arith, l.index_right);
            there = l.there;
            inside = l.inside;
            is_measured = l.is_measured;
            splits =
                ap (λ k. drop k (v.content ++ whole vs)) far
                ∙ drop_past (p - (start + v.len)) v.content (whole vs)
                ∙ l.splits;
          }
    ]

locate_from-none :
    (vs : List Volume) (start i p : ℕ)
    → All Measured vs
    → start ≤ p
    → locate_from vs start i p ≡ none
    → start + length (whole vs) ≤ p
unfolding locate_from
locate_from-none [] start i p m s h = omega arith
locate_from-none (v ∷ vs) start i p m s h = elim (Bool-cases (ltb p (start + v.len))) [
  | inl e ↦ cc (rw e at h)
  | inr e ↦
      let past : start + v.len ≤ p = not_less p (start + v.len) e in
      let l = locate_from-none vs (start + v.len) (i + 1) p m.1 past (rw e at h) in
      omega (arith, l, m.0, length-append v.content (whole vs))
]

take_into : (n : ℕ) (xs ys : List ℕ) → n ≤ length xs → take n (xs ++ ys) ≡ take n xs
take_into zero xs ys h = refl
take_into (suc n) [] ys h = absurd (omega arith)
take_into (suc n) (x ∷ xs) ys h = ap (◌∷◌ x) (take_into n xs ys (omega arith))

-- What a successful read of at most `size` bytes has done: the bytes are the next ones of the whole,
-- the position stands behind them, and there is at least one if one was asked for and is left.
pub record Progress (size : ℕ) (r : VolumeReader) (bs : List ℕ) (r' : VolumeReader) : Type 0 where
  pub next : bs ≡ take (length bs) (drop r.at (whole r.files))
  pub moved : r' ≡ record r { at = r.at + length bs }
  pub bounded : length bs ≤ size
  pub inside : r.at + length bs ≤ max r.at (length (whole r.files))
  pub advances : 1 ≤ size → r.at < length (whole r.files) → 1 ≤ length bs

module _ {granted : ℕ → ℕ → ℕ → Option ℕ} (g : Grants granted) (size : ℕ) (r : VolumeReader) where
  granted-Progress :
      (idx off n : ℕ)
      → 1 ≤ size
      → (l : Located r.files 0 0 r.at idx off)
      → granted idx off (min size (l.volume.len - off)) ≡ some n
      → Progress size r (take n (drop off l.volume.content)) (record r { at = r.at + n })
  granted-Progress idx off n one l e =
      let bs = take n (drop off l.volume.content) in
      let few = g.within idx off (min size (l.volume.len - off)) e in
      let rest = length-drop off l.volume.content in
      let count : length bs ≡ n =
        omega (arith, length-take n (drop off l.volume.content), rest, few, l.is_measured) in
      let left : length (whole r.files) - r.at
          ≡ length (drop off l.volume.content) + length l.after =
        omega (
          arith,
          ap length l.splits,
          length-drop (r.at - 0) (whole r.files),
          length-append (drop off l.volume.content) l.after,
        ) in
      record {
        next =
            sym (
              take_into n (drop off l.volume.content) l.after
                (omega (arith, few, rest, l.is_measured)))
            ∙ ap (take n) (sym l.splits)
            ∙ ap (λ k. take n (drop k (whole r.files))) (let e : r.at - 0 ≡ r.at = omega arith in e)
            ∙ ap (λ k. take k (drop r.at (whole r.files))) (sym count);
        moved = ap (λ k. record r { at = r.at + k }) (sym count);
        bounded = omega (arith, count, few);
        inside = omega (arith, count, few, left, rest, l.is_measured, l.inside);
        advances = λ _ _. omega (
          arith,
          count,
          l.inside,
          l.is_measured,
          g.some_given idx off (min size (l.volume.len - off)) e
              (omega (arith, l.inside, l.is_measured)),
        );
      }

  nothing-Progress : (size ≡ 0) ⊎ (length (whole r.files) ≤ r.at) → Progress size r [] r
  nothing-Progress h = record {
    next = refl;
    moved = ap (λ k. record r { at = k }) (let e : r.at ≡ r.at + 0 = omega arith in e);
    bounded = omega arith;
    inside = omega arith;
    advances = λ a b. elim h [ inl e ↦ absurd (omega arith) | inr e ↦ absurd (omega arith) ];
  }

  read_at-Progress :
      (idx off : ℕ) {bs : List ℕ} {r' : VolumeReader}
      → 1 ≤ size
      → Located r.files 0 0 r.at idx off
      → read_at granted size idx off r ≡ ok (bs, r')
      → Progress size r bs r'
  unfolding read_at
  read_at-Progress idx off one l h =
      let found : get_elem? r.files idx ≡ some l.volume =
        ap (get_elem? r.files) (let e : idx ≡ l.index = omega (arith, l.index_right) in e)
        ∙ l.there in
      elim (Option-cases (granted idx off (min size (l.volume.len - off)))) [
        | inl e ↦ cc (rw (found, e, read_at) at h)
        | inr (n, e) ↦
            subst (λ q. Progress size r q.0 q.1) (ok-injective (rw (found, e, read_at) at h))
              (granted-Progress idx off n one l e)
      ]

  -- A successful read of a valid reader returns the next bytes of the volumes taken as one file,
  -- across every boundary, moves the position behind them, and returns at least one byte if one was
  -- asked for and is left.
  pub read-Progress :
      {bs : List ℕ} {r' : VolumeReader}
      → IsValid r
      → read granted size r ≡ ok (bs, r')
      → Progress size r bs r'
  unfolding read locate
  read-Progress v h = elim (Bool-cases (size == 0)) [
    | inl z ↦
        subst (λ q. Progress size r q.0 q.1) (ok-injective (rw z at h))
          (nothing-Progress (inl ((==_iff size 0).0 z)))
    | inr z ↦ elim (Option-cases (locate_from r.files 0 0 r.at)) [
      | inl e ↦
          subst (λ q. Progress size r q.0 q.1) (ok-injective (rw (z, e) at h))
            (nothing-Progress
              (inr (omega (arith, locate_from-none r.files 0 0 r.at v.measured (omega arith) e))))
      | inr ((idx, off), e) ↦
          read_at-Progress idx off (ground (arith, z))
            (locate_from-Located r.files 0 0 r.at v.measured (omega arith) e) (rw (z, e) at h)
    ]
  ]
