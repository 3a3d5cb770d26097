-- ===== src/Unegg/Codec/Inflate.antt =====
-- backend/unegg/codec.rs: the decompression of one block. The streaming inflate of miniz_oxide is a
-- parameter, and so is the caller's sink, which sees what it has received so far and a chunk, and
-- takes the chunk (none) or fails with a code.
pub mod Bounded
pub mod Ends
use zip_mania.Prelude.{
  ℕ, zero, suc, ◌+◌, ◌≤◌, ◌<◌, Bool, true, false, not, ◌&&◌, Option, none, some, List, [], ◌∷◌,
  ◌++◌, ltb, ◌==◌, if◌then◌else◌, length, take, drop,
}
use zip_mania.Errors.{Code, Result, ok, err, corrupt, unsupported}
use zip_mania.Unegg.Codec.{Method, store, deflate, bzip2, lzma, azo, alz_bzip2, unknown}

pub data Status : Type 0 where
  stream_end going_on failed : Status

-- What one call of `inflate` did.
pub record Inflated (S : Type 0) : Type 0 where
  pub state : S
  pub consumed : ℕ
  pub written_bytes : List ℕ
  pub status : Status

abbrev is_empty : List ℕ → Bool
is_empty [] = true
is_empty (c ∷ cs) = false

-- `formats::MAX_MEMORY_ENTRY_BYTES`, 256 MiB.
abbrev pub max_memory_entry_bytes : ℕ
max_memory_entry_bytes = 268_435_456

-- The most that may come out, by the expected size and the limit.
unfoldable pub cap_of : ℕ → ℕ → ℕ
cap_of zero zero = max_memory_entry_bytes
cap_of zero (suc l) = suc l
cap_of (suc e) limit = suc e

-- The result of a decompression and what the sink has received.
abbrev pub Outcome : Type 0
Outcome = Result ℕ × List ℕ

module _ {S : Type 0} (inflate : S → List ℕ → Inflated S)
    (out : List ℕ → List ℕ → Option Code) where
  -- Why a chunk is not delivered, if it is not.
  unfoldable pub refusal : ℕ → ℕ → List ℕ → List ℕ → Option Code
  refusal cap written received chunk =
      if is_empty chunk
      then none
      else if ltb cap (written + length chunk)
      then some corrupt
      else out received chunk

  -- `r.bytes_consumed == 0 && r.bytes_written == 0`.
  unfoldable pub stalled : Inflated S → Bool
  stalled r = r.consumed == 0 && is_empty r.written_bytes

  -- The loop of `inflate_to`; none where the rounds run out.
  unfoldable pub inflate_loop : ℕ → ℕ → S → List ℕ → ℕ → List ℕ → Option Outcome
  inflate_loop cap zero st input written received = none
  inflate_loop cap (suc fuel) st input written received =
      let r = inflate st input in
      elim (refusal cap written received r.written_bytes) [
        | some c ↦ some (err c, received)
        | none ↦
            let written' = written + length r.written_bytes in
            let received' = received ++ r.written_bytes in
            elim r.status [
              | stream_end ↦ some (ok written', received')
              | failed ↦ some (err corrupt, received')
              | going_on ↦ elim (stalled r) [
                | true ↦ some (ok written', received')
                | false ↦ inflate_loop cap fuel r.state (drop r.consumed input) written' received'
              ]
            ]
      ]

  -- The check of the size at the end.
  unfoldable pub check_size : ℕ → Outcome → Outcome
  check_size expected (err c, received) = (err c, received)
  check_size expected (ok written, received) =
      if ltb 0 expected && not (written == expected)
      then (err corrupt, received)
      else (ok written, received)

  abbrev checked : ℕ → Option Outcome → Option Outcome
  checked expected none = none
  checked expected (some outcome) = some (check_size expected outcome)

  unfoldable pub inflate_to : S → ℕ → List ℕ → ℕ → ℕ → Option Outcome
  inflate_to start fuel input expected limit =
      checked expected (inflate_loop (cap_of expected limit) fuel start input 0 [])

  unfoldable pub store_to : List ℕ → ℕ → Outcome
  store_to input expected =
      if ltb (length input) expected
      then (err corrupt, [])
      else elim (out [] (take expected input)) [
        | some c ↦ (err c, [])
        | none ↦ (ok expected, take expected input)
      ]

  unfoldable pub decompress_method : Method → S → ℕ → List ℕ → ℕ → ℕ → Option Outcome
  decompress_method store start fuel input expected limit = some (store_to input expected)
  decompress_method deflate start fuel input expected limit =
      inflate_to start fuel input expected limit
  decompress_method _ start fuel input expected limit = some (err unsupported, [])

  unfoldable pub decompress_to : Method → S → ℕ → List ℕ → ℕ → ℕ → Option Outcome
  decompress_to method start fuel input expected limit =
      let rest = decompress_method method start fuel input expected limit in
      if ltb 0 limit && ltb limit expected then some (err corrupt, []) else rest
