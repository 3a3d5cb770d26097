-- ===== src/Unegg/Crypto.antt =====
-- backend/unegg/crypto.rs: the ZipCrypto stream cipher. The keys are u32 with wrapping arithmetic,
-- data are bytes; `x & 0xFF` and `x & 0xFFFF` are remainders, `x >> k` is a quotient.
pub mod RoundTrip
use zip_mania.Prelude.{
  ℕ, ◌+◌, ◌*◌, ◌/◌, ◌%◌, ◌^◌, bit_or, bit_xor, Bool, true, false, List, [], ◌∷◌, ltb, ◌==◌,
  if◌then◌else◌, length, take, get_or,
}
use zip_mania.Crc32.{table_from, table_rounds, table_round}

-- `crc_table`: the two loops of `make_table` of crc32.rs once more.
unfoldable pub crc_table : List ℕ
unfolding table_from table_rounds table_round
crc_table = table_from 256 0

pub record ZipCrypto : Type 0 where
  pub k0 : ℕ
  pub k1 : ℕ
  pub k2 : ℕ

unfoldable pub update : ZipCrypto → ℕ → ZipCrypto
update z b =
    let k0 = bit_xor (get_or crc_table (bit_xor z.k0 b % 256) 0) (z.k0 / 2 ^ 8) in
    let sum = (z.k1 + k0 % 256) % 2 ^ 32 in
    let k1 = (sum * 134_775_813 % 2 ^ 32 + 1) % 2 ^ 32 in
    let k2 = bit_xor (get_or crc_table (bit_xor z.k2 (k1 / 2 ^ 24) % 256) 0) (z.k2 / 2 ^ 8) in
    record { k0 = k0; k1 = k1; k2 = k2 }

unfoldable pub update_all : ZipCrypto → List ℕ → ZipCrypto
update_all z [] = z
update_all z (b ∷ bs) = update_all (update z b) bs

abbrev pub initial_keys : ZipCrypto
initial_keys = record { k0 = 0x1234_5678; k1 = 0x2345_6789; k2 = 0x3456_7890 }

unfoldable pub new : List ℕ → ZipCrypto
unfolding update_all update crc_table
new password = update_all initial_keys password

-- The byte of the key stream that `decrypt` applies next.
unfoldable pub key_byte : ZipCrypto → ℕ
key_byte z = let t = bit_or z.k2 2 % 2 ^ 16 in t * bit_xor t 1 % 2 ^ 32 / 2 ^ 8 % 256

-- The buffer after the call, and the state.
unfoldable pub decrypt : ZipCrypto → List ℕ → List ℕ × ZipCrypto
unfolding key_byte update crc_table
decrypt z [] = ([], z)
decrypt z (c ∷ cs) =
    let p = bit_xor c (key_byte z) in let (ps, z') = decrypt (update z p) cs in (p ∷ ps, z')

unfoldable pub check_header : ZipCrypto → List ℕ → ℕ → Bool × ZipCrypto
unfolding decrypt
check_header z header verify_byte =
    if ltb (length header) 12
    then (false, z)
    else let (buf, z') = decrypt z (take 12 header) in (get_or buf 11 0 == verify_byte, z')

-- The sender's side, as `encrypt` of the file's tests writes it.
unfoldable pub encrypt_from : ZipCrypto → List ℕ → List ℕ
unfolding key_byte update crc_table
encrypt_from z [] = []
encrypt_from z (p ∷ ps) = bit_xor p (key_byte z) ∷ encrypt_from (update z p) ps

unfoldable pub encrypt : List ℕ → List ℕ → List ℕ
unfolding new encrypt_from
encrypt password plain = encrypt_from (new password) plain
