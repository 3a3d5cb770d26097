-- ===== src/Unegg/Reader.antt =====
-- backend/unegg/reader.rs: the cursor that all of the EGG and ALZ parser reads through. A failed
-- read leaves the whole parse by `?`, so an error carries no cursor. A usize has 64 bits.
pub mod Bounds
pub mod Segments
use zip_mania.Prelude.{
  ◌≡◌, ℕ, ◌+◌, ◌-◌, ◌^◌, min, Option, none, some, List, [], ltb, leb, ◌==◌, if◌then◌else◌, length,
  take, drop, get_or, from_le_bytes,
}
use zip_mania.Errors.{Result, ok, err, corrupt}
use zip_mania.Errors

pub record Reader : Type 0 where
  pub data_bytes : List ℕ
  pub pos : ℕ

abbrev pub Parse {ℓ} : Type ℓ → Type ℓ
Parse A = Reader → Result (A × Reader)

infixl 5 ◌>>=◌ ◌>>◌
abbrev pub ◌>>=◌ {ℓ κ} : {A : Type ℓ} {B : Type κ} → Parse A → (A → Parse B) → Parse B
◌>>=◌ m f r = Errors.◌>>=◌ (m r) (λ p. f p.0 p.1)

abbrev pub ◌>>◌ {ℓ κ} : {A : Type ℓ} {B : Type κ} → Parse A → Parse B → Parse B
m >> n = m >>= λ _. n

abbrev pub pure {ℓ} : {A : Type ℓ} → A → Parse A
pure a r = ok (a, r)

-- `return Err(..)`.
abbrev pub fail {ℓ} : {A : Type ℓ} → Errors.Code → Parse A
fail c r = err c

-- A successful chain of reads, taken apart.
pub >>=-eq-ok {ℓ κ} :
    {A : Type ℓ} {B : Type κ} (m : Parse A) (f : A → Parse B) (r : Reader) {b : B} {r'' : Reader}
    → (m >>= f) r ≡ ok (b, r'')
    → (a : A) × (r' : Reader) × (m r ≡ ok (a, r')) × (f a r' ≡ ok (b, r''))
>>=-eq-ok m f r h = let (p, e, k) = Errors.>>=-eq-ok (m r) (λ p. f p.0 p.1) h in (p.0, p.1, e, k)

abbrev pub new : List ℕ → Reader
new bytes = record { data_bytes = bytes; pos = 0 }

unfoldable pub at : List ℕ → ℕ → Reader
at bytes p = record { data_bytes = bytes; pos = min p (length bytes) }

unfoldable pub remaining : Reader → ℕ
remaining r = length r.data_bytes - r.pos

-- `Reader::pos`.
abbrev pub position : Parse ℕ
position r = ok (r.pos, r)

unfoldable pub seek : ℕ → Reader → Reader
seek p r = record r { pos = min p (length r.data_bytes) }

unfoldable pub bytes : ℕ → Parse (List ℕ)
unfolding remaining
bytes n r =
    if ltb (remaining r) n
    then err corrupt
    else ok (take n (drop r.pos r.data_bytes), record r { pos = r.pos + n })

unfoldable pub skip : ℕ → Parse (Unit {0})
unfolding remaining
skip n r = if ltb (remaining r) n then err corrupt else ok (tt, record r { pos = r.pos + n })

unfoldable pub u8 : Parse ℕ
u8 = do b ← bytes 1; pure (get_or b 0 0)

unfoldable pub u16 : Parse ℕ
u16 = do b ← bytes 2; pure (from_le_bytes b)

unfoldable pub u32 : Parse ℕ
u32 = do b ← bytes 4; pure (from_le_bytes b)

unfoldable pub u64 : Parse ℕ
u64 = do b ← bytes 8; pure (from_le_bytes b)

unfoldable pub peek_u32 : Reader → Option ℕ
unfolding remaining
peek_u32 r =
    if ltb (remaining r) 4 then none else some (from_le_bytes (take 4 (drop r.pos r.data_bytes)))

-- A branch on `peek_u32`, which moves nothing.
abbrev pub peeking {ℓ} : {A : Type ℓ} → (Option ℕ → Parse A) → Parse A
peeking f r = f (peek_u32 r) r

-- `checked_add` on usize, and `checked_sub`.
unfoldable pub peek_u32_at : ℕ → Reader → Option ℕ
peek_u32_at off r =
    let p = r.pos + off in
    if leb (2 ^ 64) p
    then none
    else if ltb (length r.data_bytes) p
    then none
    else if ltb (length r.data_bytes - p) 4
    then none
    else some (from_le_bytes (take 4 (drop p r.data_bytes)))

unfoldable pub var_uint : ℕ → Parse ℕ
var_uint width =
    if width == 1
    then u8
    else if width == 2
    then u16
    else if width == 4
    then u32
    else if width == 8
    then u64
    else fail corrupt

-- The free function `peek_sig`.
unfoldable pub peek_sig : List ℕ → Option ℕ
peek_sig bytes = if ltb (length bytes) 4 then none else some (from_le_bytes (take 4 bytes))
