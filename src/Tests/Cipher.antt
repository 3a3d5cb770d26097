-- ===== src/Tests/Cipher.antt =====
-- The cipher of backend/unegg/crypto.rs at a concrete password.
use zip_mania.Prelude.{ℕ, ◌≡◌, refl, true, List, [], ◌∷◌, ◌++◌, take, drop}
use zip_mania.Unegg.Crypto.{ZipCrypto, new, decrypt, encrypt, check_header}
use zip_mania.Unegg.Crypto.RoundTrip.{open_encrypted}

abbrev password : List ℕ
password = 0x70 ∷ 0x77 ∷ []

abbrev header : List ℕ
header = 1 ∷ 2 ∷ 3 ∷ 4 ∷ 5 ∷ 6 ∷ 7 ∷ 8 ∷ 9 ∷ 10 ∷ 11 ∷ 0xA5 ∷ []

abbrev secret : List ℕ
secret = 0x68 ∷ 0x69 ∷ []

accepted :
    (check_header (new password) (take 12 (encrypt password (header ++ secret))) 0xA5).0 ≡ true
accepted = (open_encrypted password header secret 0xA5 refl).0

open_encrypted_example :
    let stored = encrypt password (header ++ secret) in
    let tested = check_header (new password) (take 12 stored) 0xA5 in
    (tested.0 ≡ true) × ((decrypt tested.1 (drop 12 stored)).0 ≡ secret)
open_encrypted_example = open_encrypted password header secret 0xA5 refl

abbrev z : ZipCrypto
z = new password
