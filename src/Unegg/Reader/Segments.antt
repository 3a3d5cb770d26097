-- ===== src/Unegg/Reader/Segments.antt =====
-- Reading back what is written at the cursor.
use zip_mania.Prelude.{
  ℕ, ◌+◌, ◌-◌, ◌≤◌, ◌<◌, ◌^◌, ◌≡◌, refl, sym, ap, ◌∙◌, arith, some, false, List, ◌%◌, ◌++◌,
  append_assoc, length, length-append, length-drop, drop, take_left, drop_left, drop-drop,
  to_le_bytes, from_le_bytes, from_le_bytes-to_le_bytes, byte_range, ltb, le→ltb,
}
use zip_mania.Errors.{Result, ok}
use zip_mania.Unegg.Reader.{Reader, bytes, skip, u8, u16, u32, u64, peek_u32, var_uint}

abbrev pub cursor : List ℕ → ℕ → Reader
cursor d i = record { data_bytes = d; pos = i }

-- A result, at a place that is given by another sum.
pub same_place {ℓ} :
    {A : Type ℓ} (a : A) (d : List ℕ) {i j : ℕ}
    → i ≡ j
    → ◌≡◌ {A = Result (A × Reader)} (ok (a, cursor d i)) (ok (a, cursor d j))
same_place a d h = ap (λ k. ok (a, cursor d k)) h

-- The bytes `s` stand in `d` from place `i` on.
pub record Segment (d : List ℕ) (i : ℕ) (s : List ℕ) : Type 0 where
  pub rest : List ℕ
  pub splits : drop i d ≡ s ++ rest

module _ {d : List ℕ} {i : ℕ} where
  pub Segment-left : (xs ys : List ℕ) → Segment d i (xs ++ ys) → Segment d i xs
  Segment-left xs ys h = record {
    rest = ys ++ h.rest;
    splits = h.splits ∙ append_assoc xs ys h.rest;
  }

  -- The first two of three pieces.
  pub Segment-front : (xs ys zs : List ℕ) → Segment d i (xs ++ (ys ++ zs)) → Segment d i (xs ++ ys)
  Segment-front xs ys zs h = record { rest = zs ++ h.rest; splits = h.splits ∙ simp append_assoc }

  pub Segment-right : (xs ys : List ℕ) → Segment d i (xs ++ ys) → Segment d (i + length xs) ys
  Segment-right xs ys h = record {
    rest = h.rest;
    splits =
        sym (drop-drop i (length xs) d)
        ∙ ap (drop (length xs)) (h.splits ∙ append_assoc xs ys h.rest)
        ∙ drop_left xs (ys ++ h.rest);
  }

  pub Segment-next :
      (xs ys : List ℕ) {n : ℕ} → Segment d i (xs ++ ys) → length xs ≡ n → Segment d (i + n) ys
  Segment-next xs ys h e = rw (← e) (Segment-right xs ys h)

  pub Segment-fits : (s : List ℕ) → Segment d i s → length s ≤ length d - i
  Segment-fits s h = omega (arith, length-drop i d, ap length h.splits, length-append s h.rest)

module _ (d : List ℕ) (i : ℕ) where
  pub bytes-Segment :
      (s : List ℕ) {n : ℕ}
      → Segment d i s
      → length s ≡ n
      → bytes n (cursor d i) ≡ ok (s, cursor d (i + n))
  unfolding bytes
  bytes-Segment s h e =
      rw (← e, le→ltb (length d - i) (length s) (Segment-fits s h), h.splits, take_left s h.rest)

  pub skip-Segment :
      (s : List ℕ) {n : ℕ}
      → Segment d i s
      → length s ≡ n
      → skip n (cursor d i) ≡ ok (tt, cursor d (i + n))
  unfolding skip
  skip-Segment s h e = rw (← e, le→ltb (length d - i) (length s) (Segment-fits s h))

  pub u8-Segment :
      (v : ℕ)
      → v < 2 ^ 8
      → Segment d i (to_le_bytes 1 v)
      → u8 (cursor d i) ≡ ok (v, cursor d (i + 1))
  unfolding u8
  u8-Segment v h s =
      let e : v % 256 ≡ v = omega arith in
      rw (bytes-Segment (to_le_bytes 1 v) s refl) (ap (λ t. ok (t, cursor d (i + 1))) e)

  pub u16-Segment :
      (v : ℕ)
      → v < 2 ^ 16
      → Segment d i (to_le_bytes 2 v)
      → u16 (cursor d i) ≡ ok (v, cursor d (i + 2))
  unfolding u16
  u16-Segment v h s =
      let e : from_le_bytes (to_le_bytes 2 v) ≡ v = from_le_bytes-to_le_bytes 2 v h in
      rw (bytes-Segment (to_le_bytes 2 v) s refl) (ap (λ t. ok (t, cursor d (i + 2))) e)

  pub u32-Segment :
      (v : ℕ)
      → v < 2 ^ 32
      → Segment d i (to_le_bytes 4 v)
      → u32 (cursor d i) ≡ ok (v, cursor d (i + 4))
  unfolding u32
  u32-Segment v h s =
      let e : from_le_bytes (to_le_bytes 4 v) ≡ v = from_le_bytes-to_le_bytes 4 v h in
      rw (bytes-Segment (to_le_bytes 4 v) s refl) (ap (λ t. ok (t, cursor d (i + 4))) e)

  pub u64-Segment :
      (v : ℕ)
      → v < 2 ^ 64
      → Segment d i (to_le_bytes 8 v)
      → u64 (cursor d i) ≡ ok (v, cursor d (i + 8))
  unfolding u64
  u64-Segment v h s =
      let e : from_le_bytes (to_le_bytes 8 v) ≡ v = from_le_bytes-to_le_bytes 8 v h in
      rw (bytes-Segment (to_le_bytes 8 v) s refl) (ap (λ t. ok (t, cursor d (i + 8))) e)

  pub peek_u32-Segment :
      (v : ℕ) → v < 2 ^ 32 → Segment d i (to_le_bytes 4 v) → peek_u32 (cursor d i) ≡ some v
  unfolding peek_u32
  peek_u32-Segment v h s =
      let long : ltb (length d - i) 4 ≡ false =
        le→ltb (length d - i) 4 (Segment-fits (to_le_bytes 4 v) s) in
      rw (long, s.splits) (ap some (from_le_bytes-to_le_bytes 4 v h))

-- The widths that `var_uint` takes.
pub data Width : Type 0 where
  one two four eight : Width

abbrev pub bytes_of : Width → ℕ
bytes_of one = 1
bytes_of two = 2
bytes_of four = 4
bytes_of eight = 8

pub var_uint-Segment :
    (w : Width) (d : List ℕ) (i v : ℕ)
    → v < byte_range (bytes_of w)
    → Segment d i (to_le_bytes (bytes_of w) v)
    → var_uint (bytes_of w) (cursor d i) ≡ ok (v, cursor d (i + bytes_of w))
unfolding var_uint
var_uint-Segment one d i v h s = u8-Segment d i v h s
var_uint-Segment two d i v h s = u16-Segment d i v h s
var_uint-Segment four d i v h s = u32-Segment d i v h s
var_uint-Segment eight d i v h s = u64-Segment d i v h s
