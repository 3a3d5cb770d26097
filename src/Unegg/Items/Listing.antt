-- ===== src/Unegg/Items/Listing.antt =====
-- backend/unegg/mod.rs: the calls of the backend that do not write files. What `load` gives of the
-- archive is an argument, the outer option of a result is none where the rounds run out.
pub mod Sound
use zip_mania.Prelude.{
  ℕ, zero, suc, ◌+◌, ◌/◌, ◌%◌, Bool, true, false, Option, none, some, List, [], ◌∷◌, ◌++◌, map, ltb,
  if◌then◌else◌,
}
use zip_mania.Errors.{Result, ok, err, ◌>>=◌}
use zip_mania.Unegg.Codec.Inflate.{Inflated, Outcome, max_memory_entry_bytes}
use zip_mania.Unegg.Items.{Item, parse_items, find_item}
use zip_mania.Unegg.Items.Reading.{read_item_to}
use zip_mania.Unegg.Times.{Civil}

pub record ArchiveEntry : Type 0 where
  pub path : List ℕ
  pub size : ℕ
  pub packed_size : ℕ
  pub modified : List ℕ
  pub is_dir : Bool
  pub crc : Option (List ℕ)

abbrev hex_digit : ℕ → ℕ
hex_digit n = if ltb n 10 then 0x30 + n else 0x37 + n

-- `{:08X}`, of a u32 the last eight digits.
unfoldable pub hex : ℕ → ℕ → List ℕ
hex zero n = []
hex (suc k) n = hex k (n / 16) ++ hex_digit (n % 16) ∷ []

abbrev hex_of : Option ℕ → Option (List ℕ)
hex_of none = none
hex_of (some c) = some (hex 8 c)

unfoldable pub entry_of : Item → ArchiveEntry
unfolding hex
entry_of i = record {
  path = i.path;
  size = i.size;
  packed_size = i.packed_size;
  modified = i.modified;
  is_dir = i.is_dir;
  crc = hex_of i.crc;
}

-- A sink that takes all: memory, and one that forgets.
abbrev pub takes_all : List ℕ → List ℕ → Bool
takes_all received chunk = true

module _ (from_utf8_lossy decode_legacy : List ℕ → List ℕ) (civil : ℕ → Option Civil) where
  unfoldable pub list : Result (List ℕ) → Result (List ArchiveEntry)
  list loaded = do
    bytes ← loaded
    items ← parse_items from_utf8_lossy decode_legacy civil bytes
    ok (map entry_of items)

  module _ {S : Type 0} (inflate : S → List ℕ → Inflated S) (start : S) (fuel : ℕ) where
    -- What is in the buffer where the read succeeds.
    abbrev pub content_of : Outcome → Result (List ℕ)
    content_of (err c, out) = err c
    content_of (ok n, out) = ok out

    unfoldable pub read_item : List ℕ → Item → Option (List ℕ) → Option (Result (List ℕ))
    read_item bytes item password =
        elim (read_item_to inflate start fuel takes_all bytes item max_memory_entry_bytes
          password) [ none ↦ none | some o ↦ some (content_of o) ]

    unfoldable pub test_items : List ℕ → List Item → Option (List ℕ) → Option (Result (Unit {0}))
    test_items bytes [] password = some (ok tt)
    test_items bytes (i ∷ is) password = elim i.is_dir [
      | true ↦ test_items bytes is password
      | false ↦ elim (read_item_to inflate start fuel takes_all bytes i 0 password) [
        | none ↦ none
        | some o ↦ elim o.0 [ err c ↦ some (err c) | ok n ↦ test_items bytes is password ]
      ]
    ]

    abbrev pub loaded_items : Result (List ℕ) → Result (List ℕ × List Item)
    loaded_items loaded = do
      bytes ← loaded
      items ← parse_items from_utf8_lossy decode_legacy civil bytes
      ok (bytes, items)

    unfoldable pub test : Result (List ℕ) → Option (List ℕ) → Option (Result (Unit {0}))
    test loaded password = elim (loaded_items loaded) [
      | err c ↦ some (err c)
      | ok p ↦ test_items p.0 p.1 password
    ]

    unfoldable pub found_item : Result (List ℕ) → List ℕ → Result (List ℕ × Item)
    found_item loaded inner_path = do
      p ← loaded_items loaded
      item ← find_item p.1 inner_path
      ok (p.0, item)

    unfoldable pub read_entry_to_memory :
        Result (List ℕ) → List ℕ → Option (List ℕ) → Option (Result (List ℕ))
    read_entry_to_memory loaded inner_path password = elim (found_item loaded inner_path) [
      | err c ↦ some (err c)
      | ok q ↦ read_item q.0 q.1 password
    ]
