-- ===== src/Tests/Items.antt =====
-- The entries of backend/unegg/mod.rs: reads of them from a small volume.
use zip_mania.Prelude.{
  ℕ, ◌≡◌, ◌≤◌, refl, arith, false, Option, none, some, List, [], ◌∷◌, length, All, eq_list,
}
use zip_mania.Errors.{ok}
use zip_mania.Crc32.{
  make_table, table_from, table_rounds, table_round, update_byte, update_state, update, finalize,
}
use zip_mania.Paths.{unify}
use zip_mania.Unegg.Codec.{store, data_header_size}
use zip_mania.Unegg.Codec.Inflate.{
  Outcome, decompress_to, decompress_method, store_to, max_memory_entry_bytes,
}
use zip_mania.Unegg.Times.{Civil}
use zip_mania.Unegg.Reader.{peek_sig}
use zip_mania.Unegg.Egg
use zip_mania.Unegg.Egg.{is_solid, is_spanned, contains_key, find}
use zip_mania.Unegg.Egg.Fields.{
  bit, name_is_utf8, name_is_absolute, name_offset, name_of, name, is_dir, windows_is_dir,
  posix_is_dir, zip_verify, verify_of, packed_size, sum_packed, crc, modified, windows_modified,
  posix_modified,
}
use zip_mania.Unegg.Items.{
  Item, egg_enc, egg_block, egg_item, egg_items, parse_items, find_file, find_item,
}
use zip_mania.Unegg.Items.Reading.{
  cipher_of, slice_of, decipher, budget_of, check_crc, receive, settle, read_block, read_blocks,
  read_item_to,
}
use zip_mania.Unegg.Items.Reading.Whole.{IsWhole, read_item_to-IsWhole}
use zip_mania.Unegg.Items.Reading.Limited.{read_item_to-few}
use zip_mania.Unegg.Items.Reading.Ends.{Enough, read_item_to-ends}
use zip_mania.Unegg.Items.Listing.{
  read_item, test_items, test, found_item, read_entry_to_memory, takes_all,
}
use zip_mania.Unegg.Items.Listing.Sound.{
  IsReadable, Read, test-IsReadable, read_entry_to_memory-Read,
}
use zip_mania.Tests.Codec.{copy, copy-Consumes}
use zip_mania.Tests.Egg.{hello, egg_volume, egg_parsed}

abbrev same : List ℕ → List ℕ
same raw = raw

abbrev never : ℕ → Option Civil
never sec = none

abbrev pub hello_item : Item
hello_item = record {
  path = 0x61 ∷ [];
  size = 5;
  packed_size = 5;
  crc = some 0x3610_A686;
  is_dir = false;
  modified = [];
  enc = none;
  blocks =
      record {
        method = store;
        data_offset = 68;
        packed_size = 5;
        unpacked_size = 5;
        crc = 0x3610_A686;
      }
      ∷ [];
}

hello_items : parse_items same same never egg_volume ≡ ok (hello_item ∷ [])
unfolding parse_items egg_items Egg.sniff peek_sig is_solid is_spanned contains_key find egg_item
    egg_enc egg_block bit name_is_utf8 name_is_absolute name_offset name_of name is_dir
    windows_is_dir posix_is_dir zip_verify verify_of packed_size sum_packed crc modified
    windows_modified posix_modified unify
hello_items = rw egg_parsed refl

hello_read :
    read_item_to copy tt 0 takes_all egg_volume hello_item max_memory_entry_bytes none
    ≡ some (ok 5, hello)
unfolding cipher_of slice_of decipher budget_of check_crc receive settle read_block read_blocks
    read_item_to decompress_to decompress_method store_to data_header_size make_table table_from
    table_rounds table_round update_byte update_state update finalize
hello_read = refl

read_item_to-IsWhole_example : (length hello ≡ length hello) × IsWhole hello_item.blocks hello
read_item_to-IsWhole_example =
    read_item_to-IsWhole copy tt 0 takes_all egg_volume hello_item max_memory_entry_bytes none
      hello_read

read_item_to-few_example : 5 ≤ 268_435_456
read_item_to-few_example =
    read_item_to-few copy tt 0 takes_all egg_volume hello_item max_memory_entry_bytes (omega arith)
      none hello_read

hello-Enough : All (Enough 536_870_995 egg_volume max_memory_entry_bytes) hello_item.blocks
unfolding Enough
hello-Enough = (omega arith, tt)

read_item_to-ends_example :
    (o : Outcome) × (read_item_to copy tt 536_870_995 takes_all egg_volume hello_item
        max_memory_entry_bytes none
      ≡ some o)
read_item_to-ends_example =
    read_item_to-ends copy copy-Consumes tt 536_870_995 takes_all egg_volume hello_item
      max_memory_entry_bytes none hello-Enough

hello_tested : test same same never copy tt 0 (ok egg_volume) none ≡ some (ok tt)
unfolding test test_items cipher_of slice_of decipher budget_of check_crc receive settle read_block
    read_blocks read_item_to decompress_to decompress_method store_to data_header_size make_table
    table_from table_rounds table_round update_byte update_state update finalize
hello_tested = rw (hello_items, test) refl

test-IsReadable_example :
    (bytes : List ℕ) × (items : List Item) × (ok egg_volume ≡ ok bytes)
    × (parse_items same same never bytes ≡ ok items)
    × All (λ i. i.is_dir ≡ false → IsReadable same same never copy tt 0 bytes none i) items
test-IsReadable_example =
    test-IsReadable same same never copy tt 0 (ok egg_volume) none hello_tested

hello_found :
    found_item same same never copy tt 0 (ok egg_volume) (0x61 ∷ []) ≡ ok (egg_volume, hello_item)
unfolding found_item find_item find_file eq_list unify
hello_found = rw (hello_items, found_item) refl

hello_in_memory :
    read_entry_to_memory same same never copy tt 0 (ok egg_volume) (0x61 ∷ []) none
    ≡ some (ok hello)
unfolding read_entry_to_memory read_item
hello_in_memory = rw (hello_found, read_entry_to_memory, hello_read, read_item) refl

read_entry_to_memory-Read_example : Read same same never copy tt 0 (ok egg_volume) (0x61 ∷ []) hello
read_entry_to_memory-Read_example =
    read_entry_to_memory-Read same same never copy tt 0 (ok egg_volume) (0x61 ∷ []) none
      hello_in_memory
