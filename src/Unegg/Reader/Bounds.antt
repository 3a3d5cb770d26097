-- ===== src/Unegg/Reader/Bounds.antt =====
-- No read passes the end of the data, whatever the data hold.
use zip_mania.Prelude.{
  Bool, true, false, if◌then◌else◌, ℕ, ◌+◌, ◌≤◌, ◌≡◌, refl, ◌∙◌, ap, arith, none, some, zero, suc,
  [], ◌∷◌, List, length, take, drop, IsBytes, IsByte, All,
}
use mathlib.Core.Path.{subst}
use zip_mania.Errors.{Result, ok, err, Code, corrupt, ok-injective}
use zip_mania.Unegg.Reader.{
  position, Parse, ◌>>=◌, >>=-eq-ok, pure, Reader, bytes, skip, u8, u16, u32, u64, peek_u32,
  var_uint,
}

pub record IsValid (r : Reader) : Type 0 where
  pub within : r.pos ≤ length r.data_bytes
  pub is_bytes : IsBytes r.data_bytes

-- What a successful read of `n` bytes means: it moves the cursor by `n` and stays within.
pub record Moves (r : Reader) (n : ℕ) (r' : Reader) : Type 0 where
  pub same_data : r'.data_bytes ≡ r.data_bytes
  pub moved : r'.pos ≡ r.pos + n
  pub fits : r.pos + n ≤ length r.data_bytes

pub bytes-Moves :
    (n : ℕ) (r : Reader) {s : List ℕ} {r' : Reader}
    → r.pos ≤ length r.data_bytes
    → bytes n r ≡ ok (s, r')
    → Moves r n r'
unfolding bytes
bytes-Moves n r v h = ground arith

-- The slice that a read returns is the one at the cursor.
pub bytes-slice :
    (n : ℕ) (r : Reader) {s : List ℕ} {r' : Reader}
    → bytes n r ≡ ok (s, r')
    → s ≡ take n (drop r.pos r.data_bytes)
unfolding bytes
bytes-slice n r h = ground arith

pub skip-Moves :
    (n : ℕ) (r : Reader) {u : Unit {0}} {r' : Reader}
    → r.pos ≤ length r.data_bytes
    → skip n r ≡ ok (u, r')
    → Moves r n r'
unfolding skip
skip-Moves n r v h = ground arith

pub u8-Moves :
    (r : Reader) {v : ℕ} {r' : Reader}
    → r.pos ≤ length r.data_bytes
    → u8 r ≡ ok (v, r')
    → Moves r 1 r'
unfolding u8 bytes
u8-Moves r v h = ground arith

pub u16-Moves :
    (r : Reader) {v : ℕ} {r' : Reader}
    → r.pos ≤ length r.data_bytes
    → u16 r ≡ ok (v, r')
    → Moves r 2 r'
unfolding u16 bytes
u16-Moves r v h = ground arith

pub u32-Moves :
    (r : Reader) {v : ℕ} {r' : Reader}
    → r.pos ≤ length r.data_bytes
    → u32 r ≡ ok (v, r')
    → Moves r 4 r'
unfolding u32 bytes
u32-Moves r v h = ground arith

pub u64-Moves :
    (r : Reader) {v : ℕ} {r' : Reader}
    → r.pos ≤ length r.data_bytes
    → u64 r ≡ ok (v, r')
    → Moves r 8 r'
unfolding u64 bytes
u64-Moves r v h = ground arith

pub var_uint-Moves :
    (w : ℕ) (r : Reader) {v : ℕ} {r' : Reader}
    → r.pos ≤ length r.data_bytes
    → var_uint w r ≡ ok (v, r')
    → Moves r w r'
unfolding var_uint u8 u16 u32 u64 bytes
var_uint-Moves w r v h = ground arith

-- `peek_u32` foretells `u32`: it shows the value that the read returns, and nothing where it fails.
pub peek_u32-u32 :
    (r : Reader)
    → u32 r
      ≡ (elim (peek_u32 r) [ none ↦ err corrupt | some v ↦ ok (v, record r { pos = r.pos + 4 }) ])
unfolding u32 bytes peek_u32
peek_u32-u32 r = ground arith

module _ (P : ℕ → Type 0) where
  pub All-take : (n : ℕ) (xs : List ℕ) → All P xs → All P (take n xs)
  All-take zero xs h = tt
  All-take (suc n) [] h = tt
  All-take (suc n) (x ∷ xs) h = (h.0, All-take n xs h.1)

  pub All-drop : (n : ℕ) (xs : List ℕ) → All P xs → All P (drop n xs)
  All-drop zero xs h = h
  All-drop (suc n) [] h = tt
  All-drop (suc n) (x ∷ xs) h = All-drop n xs h.1

slice-IsBytes : (n i : ℕ) (xs : List ℕ) → IsBytes xs → IsBytes (take n (drop i xs))
slice-IsBytes n i xs h = All-take IsByte n (drop i xs) (All-drop IsByte i xs h)

-- `n` bytes further on, and still within.
pub Moves-trans : {r s t : Reader} {m n : ℕ} → Moves r m s → Moves s n t → Moves r (m + n) t
Moves-trans h k = record {
  same_data = k.same_data ∙ h.same_data;
  moved = omega (arith, h.moved, k.moved);
  fits = omega (arith, h.moved, k.fits, ap length h.same_data);
}

pub Moves-within : {r s : Reader} {n : ℕ} → Moves r n s → s.pos ≤ length s.data_bytes
Moves-within h = omega (arith, h.moved, h.fits, ap length h.same_data)

pub Moves-zero : (r : Reader) → r.pos ≤ length r.data_bytes → Moves r 0 r
Moves-zero r h = record { same_data = refl; moved = omega arith; fits = omega arith }

-- What holds of the value and the cursor of a read, if it succeeds.
pub record Ensures {ℓ} {A : Type ℓ} (x : Result (A × Reader)) (Q : A → Reader → Type 0)
    : Type ℓ where
  pub holds : (a : A) (s : Reader) → x ≡ ok (a, s) → Q a s

pub Ensures-bind {ℓ κ} :
    {A : Type ℓ} {B : Type κ} {Q : A → Reader → Type 0} {R : B → Reader → Type 0} (m : Parse A)
    (f : A → Parse B) (r : Reader)
    → Ensures (m r) Q
    → ((a : A) (s : Reader) → Q a s → Ensures (f a s) R)
    → Ensures ((m >>= f) r) R
Ensures-bind m f r h k = record {
  holds = λ b t e. let (a, s, e1, e2) = >>=-eq-ok m f r e in (k a s (h.holds a s e1)).holds b t e2;
}

pub Ensures-pure {ℓ} :
    {A : Type ℓ} {Q : A → Reader → Type 0} (a : A) (r : Reader) → Q a r → Ensures (pure a r) Q
Ensures-pure {Q} a r h = record { holds = λ b s e. subst (λ p. Q p.0 p.1) (ok-injective e) h }

pub Ensures-err {ℓ} : {A : Type ℓ} {Q : A → Reader → Type 0} (c : Code) → Ensures {A = A} (err c) Q
Ensures-err c = record { holds = λ a s e. cc }

pub Ensures-if {ℓ} :
    {A : Type ℓ} {Q : A → Reader → Type 0} (b : Bool) (p q : Parse A) (r : Reader)
    → (b ≡ true → Ensures (p r) Q)
    → (b ≡ false → Ensures (q r) Q)
    → Ensures ((if b then p else q) r) Q
Ensures-if true p q r h k = h refl
Ensures-if false p q r h k = k refl

abbrev pub Within : Reader → Type 0
Within r = r.pos ≤ length r.data_bytes

module _ (r : Reader) (v : Within r) where
  pub u8-Ensures : Ensures (u8 r) (λ a s. Moves r 1 s)
  u8-Ensures = record { holds = λ a s e. u8-Moves r v e }

  pub u16-Ensures : Ensures (u16 r) (λ a s. Moves r 2 s)
  u16-Ensures = record { holds = λ a s e. u16-Moves r v e }

  pub u32-Ensures : Ensures (u32 r) (λ a s. Moves r 4 s)
  u32-Ensures = record { holds = λ a s e. u32-Moves r v e }

  pub u64-Ensures : Ensures (u64 r) (λ a s. Moves r 8 s)
  u64-Ensures = record { holds = λ a s e. u64-Moves r v e }

  pub bytes-Ensures : (n : ℕ) → Ensures (bytes n r) (λ a s. Moves r n s)
  bytes-Ensures n = record { holds = λ a s e. bytes-Moves n r v e }

  pub skip-Ensures : (n : ℕ) → Ensures (skip n r) (λ a s. Moves r n s)
  skip-Ensures n = record { holds = λ a s e. skip-Moves n r v e }

  pub var_uint-Ensures : (w : ℕ) → Ensures (var_uint w r) (λ a s. Moves r w s)
  var_uint-Ensures w = record { holds = λ a s e. var_uint-Moves w r v e }

-- A read that moves the cursor by some number of bytes.
abbrev pub Steps : Reader → Reader → Type 0
Steps r s = (n : ℕ) × Moves r n s

pub position-Ensures :
    (r : Reader) → Within r → Ensures (position r) (λ a s. (a ≡ r.pos) × Moves r 0 s)
position-Ensures r v = Ensures-pure r.pos r (refl, Moves-zero r v)

pub Ensures-Moves :
    {r : Reader} {n : ℕ} {x : Result (ℕ × Reader)}
    → Ensures x (λ a s. Moves r n s)
    → Ensures x (λ a s. Steps r s)
Ensures-Moves {n} h = record { holds = λ a s e. (n, h.holds a s e) }
