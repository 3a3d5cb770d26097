-- ===== src/Unegg/Items/Reading.antt =====
-- backend/unegg/mod.rs: `read_item_to`, which decompresses the blocks of an entry one behind another
-- into a sink. The engine is that of Codec.Inflate; whether the sink takes a chunk is a parameter, by
-- what it has received in all. A usize has 64 bits. The sink's bytes stay in the result of a failure.
pub mod Decoded
pub mod Whole
pub mod Limited
pub mod Ends
use zip_mania.Prelude.{
  ℕ, zero, suc, ◌+◌, ◌-◌, ◌^◌, Bool, true, false, not, ◌&&◌, ◌||◌, Option, none, some, List, [],
  ◌∷◌, ◌++◌, ltb, leb, ◌==◌, if◌then◌else◌, length, take, drop,
}
use zip_mania.Errors.{
  Code, Result, ok, err, corrupt, unsupported, io_error, password_required, wrong_password,
}
use zip_mania.Crc32
use zip_mania.Unegg.Crypto
use zip_mania.Unegg.Crypto.{ZipCrypto, decrypt, check_header}
use zip_mania.Unegg.Codec.{data_header_size}
use zip_mania.Unegg.Codec.Inflate.{Inflated, Outcome, decompress_to}
use zip_mania.Unegg.Items.{Item, Enc, BlockRef, encrypted}

-- The cipher that an entry is read with, none where it is not encrypted.
unfoldable pub cipher_of : Option Enc → Option (List ℕ) → Result (Option ZipCrypto)
cipher_of none password = ok none
cipher_of (some enc) none = if enc.method == 0 then err password_required else err unsupported
cipher_of (some enc) (some pw) =
    if not (enc.method == 0)
    then err unsupported
    else let (opens, z) = check_header (Crypto.new pw) enc.verify enc.verify_byte in
      if opens then ok (some z) else err wrong_password

-- `data.get(start..end)`, the place of a block behind its header.
unfoldable pub slice_of : List ℕ → BlockRef → Result (List ℕ)
slice_of bytes b =
    let header = data_header_size b.method in
    let start = b.data_offset + header in
    let stop = start + (b.packed_size - header) in
    if leb (2 ^ 64) start
    then err corrupt
    else if leb (2 ^ 64) stop
    then err corrupt
    else if ltb (length bytes) stop
    then err corrupt
    else ok (take (stop - start) (drop start bytes))

unfoldable pub decipher : Option ZipCrypto → List ℕ → List ℕ × Option ZipCrypto
decipher none packed = (packed, none)
decipher (some z) packed = let (plain, z') = decrypt z packed in (plain, some z')

-- What is left of a limit, where 0 is none.
unfoldable pub budget_of : ℕ → ℕ → Result ℕ
budget_of limit written =
    if limit == 0 then ok 0 else if ltb written limit then ok (limit - written) else err corrupt

-- A block that was delivered with `n` bytes, `chunk` in all: its checksum, if one is given.
unfoldable pub check_crc : BlockRef → List ℕ → Bool
check_crc b chunk = b.crc == 0 || Crc32.finalize (Crc32.update Crc32.new chunk) == b.crc

module _ {S : Type 0} (inflate : S → List ℕ → Inflated S) (start : S) (fuel : ℕ)
    (takes : List ℕ → List ℕ → Bool) (bytes : List ℕ) (item : Item) (limit : ℕ) where
  -- The closure that receives a chunk: the limit first, then the sink.
  unfoldable pub receive : ℕ → List ℕ → List ℕ → List ℕ → Option Code
  receive written before received chunk =
      if ltb 0 limit && ltb limit (written + (length received + length chunk))
      then some corrupt
      else if takes (before ++ received) chunk
      then none
      else some io_error

  -- The end of a block: its checksum, and the bytes in all.
  unfoldable pub settle : BlockRef → ℕ → List ℕ → Outcome → Outcome
  settle b written before (err c, received) = (err c, before ++ received)
  settle b written before (ok n, received) =
      if check_crc b received
      then (ok (written + n), before ++ received)
      else (err (if encrypted item then wrong_password else corrupt), before ++ received)

  -- One block from the state before it, with the cipher behind it.
  unfoldable pub read_block :
      BlockRef → Option ZipCrypto → ℕ → List ℕ → Option (Outcome × Option ZipCrypto)
  read_block b cipher written before = elim (slice_of bytes b) [
    | err c ↦ some ((err c, before), cipher)
    | ok packed ↦
        let (plain, cipher') = decipher cipher packed in
        elim (budget_of limit written) [
          | err c ↦ some ((err c, before), cipher')
          | ok budget ↦
              elim (decompress_to inflate (receive written before) b.method start fuel plain
                b.unpacked_size budget) [
                  | none ↦ none
                  | some outcome ↦ some (settle b written before outcome, cipher')
                ]
        ]
  ]

  -- The loop over the blocks; none where a decompression runs out of rounds.
  unfoldable pub read_blocks : List BlockRef → Option ZipCrypto → ℕ → List ℕ → Option Outcome
  read_blocks [] cipher written before = some (ok written, before)
  read_blocks (b ∷ bs) cipher written before = elim (read_block b cipher written before) [
    | none ↦ none
    | some p ↦ elim p.0.0 [ err c ↦ some p.0 | ok written' ↦ read_blocks bs p.1 written' p.0.1 ]
  ]

  unfoldable pub read_item_to : Option (List ℕ) → Option Outcome
  read_item_to password = elim (cipher_of item.enc password) [
    | err c ↦ some (err c, [])
    | ok cipher ↦ read_blocks item.blocks cipher 0 []
  ]
