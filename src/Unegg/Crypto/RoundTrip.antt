-- ===== src/Unegg/Crypto/RoundTrip.antt =====
-- Decryption undoes encryption, across the header and any cut of the data.
use zip_mania.Prelude.{
  ℕ, suc, bit_xor, List, [], ◌∷◌, ◌++◌, ◌≡◌, refl, ap, ◌∙◌, length, take, drop, get_or, ◌==◌, ltb,
  take-length, take_left, drop_left, false,
}
use zip_mania.Prelude.Bits.{bit_xor_cancel}
use zip_mania.Unegg.Crypto.{
  ZipCrypto, update, update_all, new, key_byte, decrypt, check_header, encrypt_from, encrypt,
}

-- With one state on both sides the plain text comes back, and both sides end in one state.
decrypt-encrypt_from :
    (z : ZipCrypto) (plain : List ℕ)
    → decrypt z (encrypt_from z plain) ≡ (plain, update_all z plain)
unfolding decrypt encrypt_from update_all
decrypt-encrypt_from z [] = refl
decrypt-encrypt_from z (p ∷ ps) = rw (bit_xor_cancel, decrypt-encrypt_from (update z p) ps)

encrypt_from-append :
    (z : ZipCrypto) (xs ys : List ℕ)
    → encrypt_from z (xs ++ ys) ≡ encrypt_from z xs ++ encrypt_from (update_all z xs) ys
unfolding encrypt_from update_all
encrypt_from-append z [] ys = refl
encrypt_from-append z (x ∷ xs) ys =
    ap (◌∷◌ (bit_xor x (key_byte z))) (encrypt_from-append (update z x) xs ys)

length-encrypt_from : (z : ZipCrypto) (xs : List ℕ) → length (encrypt_from z xs) ≡ length xs
unfolding encrypt_from
length-encrypt_from z [] = refl
length-encrypt_from z (x ∷ xs) = ap suc (length-encrypt_from (update z x) xs)

-- Decryption in pieces, the state carried over, is decryption at once.
pub decrypt-append :
    (z : ZipCrypto) (xs ys : List ℕ)
    → decrypt z (xs ++ ys)
      ≡ ((decrypt z xs).0 ++ (decrypt (decrypt z xs).1 ys).0, (decrypt (decrypt z xs).1 ys).1)
unfolding decrypt
decrypt-append z [] ys = refl
decrypt-append z (x ∷ xs) ys = rw (decrypt-append (update z (bit_xor x (key_byte z))) xs ys)

-- On a header that was encrypted under its state, the test is the comparison of the last byte, and
-- the state is then the one that encrypts what follows.
check_header-encrypt_from :
    (z : ZipCrypto) (header : List ℕ) (verify_byte : ℕ)
    → length header ≡ 12
    → check_header z (encrypt_from z header) verify_byte
      ≡ (get_or header 11 0 == verify_byte, update_all z header)
unfolding check_header
check_header-encrypt_from z header v h =
    let stored = encrypt_from z header in
    let size : length stored ≡ 12 = length-encrypt_from z header ∙ h in
    let long : ltb (length stored) 12 ≡ false = rw size in
    let whole : take 12 stored ≡ stored = rw (← size) (take-length stored) in
    rw (long, whole, decrypt-encrypt_from z header)

-- What a sender encrypts under a password, a 12-byte header and then the data, opens under that
-- password: the header test compares the header's last byte with the expected one, and the state
-- that the test leaves decrypts the data.
pub open_encrypted :
    (password header plain : List ℕ) (verify_byte : ℕ)
    → length header ≡ 12
    → let stored = encrypt password (header ++ plain) in
      let tested = check_header (new password) (take 12 stored) verify_byte in
      (tested.0 ≡ (get_or header 11 0 == verify_byte))
      × ((decrypt tested.1 (drop 12 stored)).0 ≡ plain)
unfolding encrypt
open_encrypted password header plain v h =
    let z = new password in
    let front = encrypt_from z header in
    let back = encrypt_from (update_all z header) plain in
    let size : length front ≡ 12 = length-encrypt_from z header ∙ h in
    let first : take 12 (front ++ back) ≡ front = rw (← size) (take_left front back) in
    let second : drop 12 (front ++ back) ≡ back = rw (← size) (drop_left front back) in
    rw
      (
        encrypt_from-append z header plain,
        first,
        second,
        check_header-encrypt_from z header v h,
        decrypt-encrypt_from (update_all z header) plain,
      )
      (refl, refl)
