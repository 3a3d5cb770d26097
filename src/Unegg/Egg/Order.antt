-- ===== src/Unegg/Egg/Order.antt =====
-- egg.rs: blocks that lie one behind another in a volume.
use mathlib.Core.Path.{subst, ap₂}
use zip_mania.Prelude.{ℕ, ◌+◌, ◌≤◌, ◌≡◌, refl, ap, ◌∙◌, arith, List, [], ◌∷◌, ◌++◌, length}
use zip_mania.Unegg.Reader.{Reader}
use zip_mania.Unegg.Reader.Bounds.{Moves, Within}
use zip_mania.Unegg.Egg.{Block}

-- From `lo` to `hi` the volume of `total` bytes holds these blocks, each behind the one before, with
-- its header of 22 bytes at least and its data within the volume.
pub data InOrder (total : ℕ) : ℕ → List Block → ℕ → Type 0 where
  stop : {lo hi : ℕ} → lo ≤ hi → hi ≤ total → InOrder total lo [] hi
  block :
      {lo hi : ℕ} {b : Block} {bs : List Block}
      → lo + 22 ≤ b.data_offset
      → b.data_offset + b.packed_size ≤ total
      → InOrder total (b.data_offset + b.packed_size) bs hi
      → InOrder total lo (b ∷ bs) hi

module _ {total : ℕ} where
  pub InOrder-from :
      {lo mid hi : ℕ} {bs : List Block}
      → lo ≤ mid
      → InOrder total mid bs hi
      → InOrder total lo bs hi
  InOrder-from h (stop p q) = stop (omega arith) q
  InOrder-from h (block p q o) = block (omega arith) q o

  pub InOrder-of :
      {n lo mid hi : ℕ} {bs : List Block}
      → n ≡ total
      → mid ≡ lo
      → InOrder n mid bs hi
      → InOrder total lo bs hi
  InOrder-of {hi} {bs} e e' o =
      subst (λ (p : ℕ × ℕ). InOrder p.0 p.1 bs hi) (ap₂ (λ n m. (n, m)) e e') o

  pub InOrder-within :
      {lo hi : ℕ} {bs : List Block} → InOrder total lo bs hi → (lo ≤ hi) × (hi ≤ total)
  InOrder-within (stop p q) = (p, q)
  InOrder-within (block p q o) = let (a, b) = InOrder-within o in (omega arith, b)

  pub InOrder-append :
      {lo mid hi : ℕ} {xs ys : List Block}
      → InOrder total lo xs mid
      → InOrder total mid ys hi
      → InOrder total lo (xs ++ ys) hi
  InOrder-append (stop p q) k = InOrder-from p k
  InOrder-append (block p q o) k = block p q (InOrder-append o k)

-- What a step behind `r` with these blocks gives.
pub record Found (r : Reader) (bs : List Block) (s : Reader) : Type 0 where
  pub same : s.data_bytes ≡ r.data_bytes
  pub order : InOrder (length r.data_bytes) r.pos bs s.pos

pub Found-Within : {r s : Reader} {bs : List Block} → Found r bs s → Within s
Found-Within h = omega (arith, ap length h.same, InOrder-within h.order)

pub Found-trans :
    {r s t : Reader} {xs ys : List Block} → Found r xs s → Found s ys t → Found r (xs ++ ys) t
Found-trans h k = record {
  same = k.same ∙ h.same;
  order = InOrder-append h.order (InOrder-of (ap length h.same) refl k.order);
}

pub Moves-Found : {r s : Reader} {n : ℕ} → Moves r n s → Found r [] s
Moves-Found m = record {
  same = m.same_data;
  order = stop (omega (arith, m.moved)) (omega (arith, m.moved, m.fits));
}
