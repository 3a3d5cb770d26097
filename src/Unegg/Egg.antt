-- ===== src/Unegg/Egg.antt =====
-- backend/unegg/egg.rs: the EGG container. Numbers are u8, u16, u32 and u64 by what is read. The
-- extra fields, a hash map by signature, are their pairs; only the first field of a signature stays.
pub mod Order
pub mod Layout
pub mod Whole
pub mod Fields
use zip_mania.Prelude.{
  ℕ, zero, suc, ◌+◌, ◌-◌, ◌^◌, Bool, true, false, not, ◌&&◌, ◌||◌, Option, none, some, List, [],
  ◌∷◌, ◌++◌, ltb, leb, ◌==◌, if◌then◌else◌, length,
}
use zip_mania.Errors
use zip_mania.Errors.{Result, ok, err, corrupt, unsupported}
use zip_mania.Unegg.Codec.{Method, from_egg}
use zip_mania.Unegg.Reader.{
  Reader, Parse, ◌>>=◌, ◌>>◌, pure, fail, new, bytes, skip, u8, u16, u32, u64, peek_u32,
  peek_u32_at, peek_sig, position, peeking,
}
use zip_mania.Unegg.Alz.{bit_set, shows}

abbrev pub sig_egg : ℕ
sig_egg = 0x4147_4745

abbrev pub sig_file : ℕ
sig_file = 0x0A85_90E3

abbrev pub sig_block : ℕ
sig_block = 0x02B5_0C13

abbrev pub sig_encrypt : ℕ
sig_encrypt = 0x08D1_470F

abbrev pub sig_windows : ℕ
sig_windows = 0x2C86_950B

abbrev pub sig_posix : ℕ
sig_posix = 0x1EE9_22E5

abbrev pub sig_filename : ℕ
sig_filename = 0x0A85_91AC

abbrev pub sig_comment : ℕ
sig_comment = 0x04C6_3672

abbrev pub sig_split : ℕ
sig_split = 0x24F5_A262

abbrev pub sig_solid : ℕ
sig_solid = 0x24E5_A060

abbrev pub sig_end : ℕ
sig_end = 0x08E2_8222

abbrev pub max_headers : ℕ
max_headers = 100

abbrev pub max_blocks : ℕ
max_blocks = 65_536

abbrev pub max_extra_bytes : ℕ
max_extra_bytes = 16_777_216

abbrev pub max_files : ℕ
max_files = 1_000_000

pub record Extra : Type 0 where
  pub gpb : ℕ
  pub content : List ℕ

pub record Block : Type 0 where
  pub method : Method
  pub unpacked_size : ℕ
  pub packed_size : ℕ
  pub crc : ℕ
  pub data_offset : ℕ

abbrev pub Extras : Type 0
Extras = List (ℕ × Extra)

pub record EggFile : Type 0 where
  pub id : ℕ
  pub size : ℕ
  pub extras : Extras
  pub blocks : List Block

pub record EggArchive : Type 0 where
  pub version : ℕ
  pub files : List EggFile
  pub solid_blocks : List Block
  pub extras : Extras
  pub parsed_end : ℕ

unfoldable pub find : ℕ → Extras → Option Extra
find sig [] = none
find sig ((k, e) ∷ rest) = let later = find sig rest in if k == sig then some e else later

abbrev is_some {ℓ} : {A : Type ℓ} → Option A → Bool
is_some none = false
is_some (some a) = true

unfoldable pub contains_key : ℕ → Extras → Bool
contains_key sig extras = is_some (find sig extras)

-- `entry(sig).or_insert(e)`.
unfoldable pub or_insert : ℕ → Extra → Extras → Extras
or_insert sig e extras = if contains_key sig extras then extras else (sig, e) ∷ extras

unfoldable pub is_solid : EggArchive → Bool
is_solid ar = contains_key sig_solid ar.extras

unfoldable pub is_spanned : EggArchive → Bool
is_spanned ar = contains_key sig_split ar.extras

unfoldable pub sniff : List ℕ → Bool
unfolding peek_sig
sniff bytes = shows (peek_sig bytes) sig_egg

unfoldable pub is_known_sig : ℕ → Bool
is_known_sig sig =
    sig == sig_end
    || sig == sig_file
    || sig == sig_block
    || sig == sig_encrypt
    || sig == sig_windows
    || sig == sig_posix
    || sig == sig_filename
    || sig == sig_comment
    || sig == sig_split
    || sig == sig_solid

-- `peek.is_some_and(is_known_sig)`.
abbrev pub shows_known : Option ℕ → Bool
shows_known none = false
shows_known (some sig) = is_known_sig sig

-- The size of the data of a field: that of an encryption field counts 7 bytes of its header where
-- only then a known signature follows.
unfoldable pub data_size : ℕ → ℕ → Reader → ℕ
data_size sig size r =
    if (sig == sig_encrypt)
      && leb 7 size
      && not (shows_known (peek_u32_at size r))
      && shows_known (peek_u32_at (size - 7) r)
    then size - 7
    else size

unfoldable pub data_size_at : ℕ → ℕ → Parse ℕ
data_size_at sig size r = ok (data_size sig size r, r)

-- A field behind its signature.
unfoldable pub read_extra : ℕ → Parse Extra
read_extra sig = do
  gpb ← u8
  field_size ← if bit_set 0 gpb then u32 else u16
  size ← data_size_at sig field_size
  if ltb max_extra_bytes size
      then fail corrupt
      else do content ← bytes size; pure (record { gpb = gpb; content = content })

-- The body of the loop of `read_extras`, by what is shown; `later` is the rest of the loop.
unfoldable pub extras_round : (Extras → Parse Extras) → Extras → Option ℕ → Parse Extras
extras_round later out none = fail corrupt
extras_round later out (some sig) = do
  u32
  if sig == sig_end then pure out else do e ← read_extra sig; later (or_insert sig e out)

-- The loop, with the rounds that are left.
unfoldable pub read_extras_from : ℕ → Extras → Parse Extras
unfolding extras_round
read_extras_from zero out = fail corrupt
read_extras_from (suc rounds) out = peeking (extras_round (read_extras_from rounds) out)

unfoldable pub read_extras : Parse Extras
read_extras = read_extras_from (max_headers + 1) []

unfoldable pub read_block : Parse Block
read_block = do
  sig ← u32
  if not (sig == sig_block) then fail corrupt else do
    method ← u8
    u8
    unpacked_size ← u32
    packed_size ← u32
    crc ← u32
    read_extras
    data_offset ← position
    skip packed_size
    pure (record {
      method = from_egg method;
      unpacked_size = unpacked_size;
      packed_size = packed_size;
      crc = crc;
      data_offset = data_offset;
    })

-- `while r.peek_u32() == Some(SIG_BLOCK)`; `room` is what is left under the limit of blocks.
unfoldable pub read_blocks : ℕ → List Block → Parse (List Block)
read_blocks zero blocks = peeking λ o. if shows o sig_block then fail corrupt else pure blocks
read_blocks (suc room) blocks = peeking λ o.
    if shows o sig_block
    then (do b ← read_block; read_blocks room (blocks ++ b ∷ []))
    else pure blocks

-- A file: in a solid archive its blocks are not its own.
unfoldable pub read_file : Bool → Parse EggFile
read_file solid = do
  u32
  id ← u32
  size ← u64
  extras ← read_extras
  blocks ← if solid then pure [] else read_blocks max_blocks []
  pure (record { id = id; size = size; extras = extras; blocks = blocks })

unfoldable pub read_files : Bool → ℕ → List EggFile → Parse (List EggFile)
read_files solid zero files = peeking λ o. if shows o sig_file then fail corrupt else pure files
read_files solid (suc room) files = peeking λ o.
    if shows o sig_file
    then (do f ← read_file solid; read_files solid room (files ++ f ∷ []))
    else pure files

-- The footer, by what is shown: nothing, or fields of which only the place counts.
unfoldable pub footer_of : Option ℕ → Parse (Unit {0})
footer_of none = pure tt
footer_of (some sig) = do read_extras; pure tt

abbrev pub read_footer : Parse (Unit {0})
read_footer = peeking footer_of

unfoldable pub parse_from : Parse EggArchive
parse_from = do
  u32
  version ← u16
  u32
  u32
  if ltb 0x100 version then fail unsupported else do
    extras ← read_extras
    let solid = contains_key sig_solid extras
    files ← read_files solid max_files []
    solid_blocks ← if solid then read_blocks max_blocks [] else pure []
    read_footer
    parsed_end ← position
    pure (record {
      version = version;
      files = files;
      solid_blocks = solid_blocks;
      extras = extras;
      parsed_end = parsed_end;
    })

unfoldable pub parse : List ℕ → Result EggArchive
parse bytes =
    let r = new bytes in
    if not (shows (peek_u32 r) sig_egg)
    then err unsupported
    else Errors.◌>>=◌ (parse_from r) (λ p. ok p.0)
