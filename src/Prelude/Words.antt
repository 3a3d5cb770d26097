-- ===== src/Prelude/Words.antt =====
-- Little-endian integers as byte strings: `from_le_bytes` of the standard library.
use Prim.Native.Nat.{ℕ, zero, suc, ◌+◌, ◌*◌, ◌/◌, ◌%◌, ◌<◌}
use mathlib.Core.Path.{◌≡◌, refl, ap, ap₂}
use mathlib.Core.List.{List, [], ◌∷◌}
use native.Mathlib.Omega.{arith}
use zip_mania.Prelude.Lists.{length, All}

abbrev pub IsByte : ℕ → Type 0
IsByte b = b < 256

abbrev pub IsBytes : List ℕ → Type 0
IsBytes = All IsByte

abbrev pub from_le_bytes : List ℕ → ℕ
from_le_bytes [] = 0
from_le_bytes (b ∷ bs) = b + 256 * from_le_bytes bs

-- The `n` bytes of a number, lowest first.
abbrev pub to_le_bytes : ℕ → ℕ → List ℕ
to_le_bytes zero v = []
to_le_bytes (suc n) v = v % 256 ∷ to_le_bytes n (v / 256)

-- The first number that `n` bytes cannot hold.
abbrev pub byte_range : ℕ → ℕ
byte_range zero = 1
byte_range (suc n) = 256 * byte_range n

pub from_le_bytes-lt : (bs : List ℕ) → IsBytes bs → from_le_bytes bs < byte_range (length bs)
from_le_bytes-lt [] h = omega arith
from_le_bytes-lt (b ∷ bs) (hb, h) = omega (arith, from_le_bytes-lt bs h)

pub from_le_bytes-to_le_bytes : (n v : ℕ) → v < byte_range n → from_le_bytes (to_le_bytes n v) ≡ v
from_le_bytes-to_le_bytes zero v h = omega arith
from_le_bytes-to_le_bytes (suc n) v h =
    let low : v / 256 < byte_range n = omega arith in
    omega (arith, from_le_bytes-to_le_bytes n (v / 256) low)

pub length-to_le_bytes : (n v : ℕ) → length (to_le_bytes n v) ≡ n
length-to_le_bytes zero v = refl
length-to_le_bytes (suc n) v = ap suc (length-to_le_bytes n (v / 256))

pub to_le_bytes-IsBytes : (n v : ℕ) → IsBytes (to_le_bytes n v)
to_le_bytes-IsBytes zero v = tt
to_le_bytes-IsBytes (suc n) v = (omega arith, to_le_bytes-IsBytes n (v / 256))

-- Byte strings of one length are told apart by their values.
pub from_le_bytes-injective :
    (xs ys : List ℕ)
    → IsBytes xs
    → IsBytes ys
    → length xs ≡ length ys
    → from_le_bytes xs ≡ from_le_bytes ys
    → xs ≡ ys
from_le_bytes-injective [] [] hx hy l e = refl
from_le_bytes-injective [] (y ∷ ys) hx hy l e = absurd (omega arith)
from_le_bytes-injective (x ∷ xs) [] hx hy l e = absurd (omega arith)
from_le_bytes-injective (x ∷ xs) (y ∷ ys) (bx, hx) (by', hy) l e =
    ap₂ ◌∷◌ (omega arith) (from_le_bytes-injective xs ys hx hy (omega arith) (omega arith))
