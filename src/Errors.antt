-- ===== src/Errors.antt =====
-- crates/zipmania-archive/src/error.rs. A `ZipManiaError` is a machine-read code and a message for
-- the user; the code decides every branch, the message is only shown, so an error is its code here.
pub mod Classify
use zip_mania.Prelude.{Bool, true, false, ◌≡◌, refl, ◌⊎◌, inl, inr, Option, none, some}

-- The codes that the program passes to `ZipManiaError::new`.
pub data Code : Type 0 where
  canceled corrupt drag_failed engine_error invalid_volume io_error job_busy no_input : Code
  not_found output_error parse_error password_required read_error resource_error : Code
  spawn_failed stale_volume too_large unsafe_path unsupported window_closed wrong_password : Code

pub data Result {ℓ} (T : Type ℓ) : Type ℓ where
  err : Code → Result T
  ok : T → Result T

-- `?`: the first error ends the chain.
infixl 5 ◌>>=◌ ◌>>◌
abbrev pub ◌>>=◌ {ℓ κ} : {S : Type ℓ} {T : Type κ} → Result S → (S → Result T) → Result T
err code >>= next = err code
ok value >>= next = next value

abbrev pub ◌>>◌ {ℓ} : {T : Type ℓ} → Result (Unit {0}) → Result T → Result T
first >> second = first >>= λ done. second

-- `if fails { return Err(..) }`.
abbrev pub refuse_if : Bool → Code → Result (Unit {0})
refuse_if true c = err c
refuse_if false c = ok tt

-- `Option::ok_or`.
abbrev pub ok_or {ℓ} : {A : Type ℓ} → Option A → Code → Result A
ok_or none c = err c
ok_or (some a) c = ok a

pub Result-cases {ℓ} :
    {A : Type ℓ} (r : Result A) → ((a : A) × (r ≡ ok a)) ⊎ ((c : Code) × (r ≡ err c))
Result-cases (ok a) = inl (a, refl)
Result-cases (err c) = inr (c, refl)

pub ok-injective {ℓ} : {A : Type ℓ} {x y : A} → ok x ≡ ok y → x ≡ y
ok-injective h = cc

-- A successful chain, taken apart.
pub >>=-eq-ok {ℓ κ} :
    {S : Type ℓ} {T : Type κ} (first : Result S) (next : S → Result T) {t : T}
    → (first >>= next) ≡ ok t
    → (s : S) × (first ≡ ok s) × (next s ≡ ok t)
>>=-eq-ok (err code) next h = cc
>>=-eq-ok (ok s) next h = (s, refl, h)

pub refuse_if-eq-ok {ℓ} :
    {B : Type ℓ} (t : Bool) (c : Code) (k : Unit {0} → Result B) {b : B}
    → (refuse_if t c >>= k) ≡ ok b
    → (t ≡ false) × (k tt ≡ ok b)
refuse_if-eq-ok true c k h = cc
refuse_if-eq-ok false c k h = (refl, h)
