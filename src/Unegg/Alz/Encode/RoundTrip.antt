-- ===== src/Unegg/Alz/Encode/RoundTrip.antt =====
-- The parser reads back every volume that the format can express.
use zip_mania.Prelude.{
  ℕ, zero, suc, ◌+◌, ◌-◌, ◌%◌, ◌^◌, ◌≤◌, ◌<◌, ◌≡◌, refl, sym, ap, ◌∙◌, arith, Bool, true, false,
  Bool-cases, inl, inr, List, [], ◌∷◌, ◌++◌, append-nil, append_assoc, ltb, ◌==◌, length,
  length-append, All, drop, length-drop, to_le_bytes, length-to_le_bytes, from_le_bytes-to_le_bytes,
  le→ltb, eq-nil,
}
use zip_mania.Errors.{Result, ok}
use zip_mania.Unegg.Codec.{from_alz}
use zip_mania.Unegg.Reader.{Reader, peek_sig}
use zip_mania.Unegg.Reader.Segments.{
  cursor, Segment, Segment-left, Segment-right, Segment-front, Segment-next, Segment-fits,
  bytes-Segment, skip-Segment, u8-Segment, u16-Segment, u32-Segment, var_uint-Segment,
  peek_u32-Segment, same_place, Width, one, two, four, eight, bytes_of,
}
use zip_mania.Unegg.Alz.{
  AlzFile, Sizes, is_width, read_size_fields, read_sizes, read_verify, pass_data, read_file,
  read_files, read_files_stop, read_files_next, shows, read_footer, parse, parse_from, sig_alz,
  sig_split, supported_version, sig_file, max_files, bit_set,
}
use zip_mania.Unegg.Alz.Encode.{
  Entry, Fits, no_sizes, size_fields, encode_sizes, encode_tail, encode_entry, data_at, file_at,
  encode_entries, files_at, end_of, encode, footer, sig_end,
}

abbrev sizes_of : Entry → Sizes
sizes_of e = record {
  method = from_alz e.method_id;
  crc = e.crc;
  packed = length e.payload;
  unpacked = e.unpacked_size;
}

is_width-bytes_of : (w : Width) → is_width (bytes_of w) ≡ true
is_width-bytes_of one = refl
is_width-bytes_of two = refl
is_width-bytes_of four = refl
is_width-bytes_of eight = refl

length-size_fields :
    (e : Entry) → length (size_fields e) ≡ 2 + 4 + bytes_of e.width + bytes_of e.width
length-size_fields e =
    let w = bytes_of e.width in
    omega (
      arith,
      length-append (to_le_bytes w (length e.payload)) (to_le_bytes w e.unpacked_size),
      length-to_le_bytes w (length e.payload),
      length-to_le_bytes w e.unpacked_size,
    )

module _ (d : List ℕ) (e : Entry) (f : Fits e) where
  read_size_fields-size_fields :
      (i : ℕ)
      → Segment d i (size_fields e)
      → read_size_fields (bytes_of e.width) (cursor d i)
        ≡ ok (sizes_of e, cursor d (i + length (size_fields e)))
  unfolding read_size_fields
  read_size_fields-size_fields i s =
      let w = bytes_of e.width in
      let s1 = Segment-next (to_le_bytes 2 e.method_id) _ s refl in
      let s2 = Segment-next (to_le_bytes 4 e.crc) _ s1 refl in
      let s3 =
        Segment-next (to_le_bytes w (length e.payload)) _ s2
          (length-to_le_bytes w (length e.payload)) in
      let place : i + 2 + 4 + w + w ≡ i + length (size_fields e) =
        omega (arith, length-size_fields e) in
      rw
        (
          u16-Segment d i e.method_id f.method_fits (Segment-left _ _ s),
          u32-Segment d (i + 2) e.crc f.crc_fits (Segment-left _ _ s1),
          var_uint-Segment e.width d (i + 2 + 4) (length e.payload) f.packed_fits
              (Segment-left _ _ s2),
          var_uint-Segment e.width d (i + 2 + 4 + w) e.unpacked_size f.unpacked_fits s3,
        )
        (same_place (sizes_of e) d place)

  read_sizes-encode_sizes :
      (i : ℕ)
      → Segment d i (encode_sizes e)
      → read_sizes e.flags (cursor d i) ≡ ok (sizes_of e, cursor d (i + length (encode_sizes e)))
  unfolding read_sizes from_alz
  read_sizes-encode_sizes i s = elim (Bool-cases (no_sizes e)) [
    | inl without ↦
        let (m, c, p, u) = f.empty_without_sizes without in
        rw (without, m, c, p, u) (same_place _ d (omega arith))
    | inr sized ↦
        rw (sized, f.width_announced sized, is_width-bytes_of e.width)
          (read_size_fields-size_fields i (rw sized at s))
  ]

  read_verify-verify :
      (i : ℕ)
      → Segment d i e.verify
      → read_verify e.flags (cursor d i) ≡ ok (e.verify, cursor d (i + length e.verify))
  unfolding read_verify
  read_verify-verify i s = elim (Bool-cases (bit_set 0 e.flags)) [
    | inl marked ↦
        let twelve : length e.verify ≡ 12 = rw marked at f.verify_fits in
        rw (marked, twelve) (bytes-Segment d i e.verify s twelve)
    | inr plain ↦
        let none : e.verify ≡ [] = eq-nil e.verify (rw plain at f.verify_fits) in
        rw (plain, none) (same_place [] d (omega arith))
  ]

  -- One file: the header, the name, the verification data and the packed data.
  read_file-encode_entry :
      (i : ℕ)
      → length d < 2 ^ 64
      → Segment d i (encode_entry e)
      → read_file (length d) (cursor d i)
        ≡ ok (file_at e i, cursor d (data_at e i + length e.payload))
  unfolding read_file pass_data
  read_file-encode_entry i small s =
      let s1 = Segment-next (to_le_bytes 4 sig_file) _ s refl in
      let s2 = Segment-next (to_le_bytes 2 (length e.name)) _ s1 refl in
      let s3 = Segment-next (to_le_bytes 1 e.attributes) _ s2 refl in
      let s4 = Segment-next (to_le_bytes 4 e.dos_time) _ s3 refl in
      let s5 = Segment-next (to_le_bytes 2 e.flags) _ s4 refl in
      let s6 = Segment-next (encode_sizes e) _ s5 refl in
      let s7 = Segment-next e.name _ s6 refl in
      let s8 = Segment-next e.verify _ s7 refl in
      let inside : data_at e i + length e.payload ≤ length d = omega (
        arith,
        Segment-fits _ s4,
        length-append (encode_sizes e) (encode_tail e),
        length-append e.name (e.verify ++ e.payload),
        length-append e.verify e.payload,
      ) in
      let complete : ltb (length d) ((data_at e i + length e.payload) % 2 ^ 64) ≡ false =
        le→ltb (length d) _ (omega arith) in
      rw
        (
          u32-Segment d i sig_file (omega arith) (Segment-left _ _ s),
          u16-Segment d (i + 4) (length e.name) f.name_fits (Segment-left _ _ s1),
          u8-Segment d (i + 4 + 2) e.attributes f.attributes_fit (Segment-left _ _ s2),
          u32-Segment d (i + 4 + 2 + 1) e.dos_time f.time_fits (Segment-left _ _ s3),
          u16-Segment d (i + 4 + 2 + 1 + 4) e.flags f.flags_fit (Segment-left _ _ s4),
          read_sizes-encode_sizes (i + 4 + 2 + 1 + 4 + 2) (Segment-left _ _ s5),
          bytes-Segment d (i + 4 + 2 + 1 + 4 + 2 + length (encode_sizes e)) e.name
              (Segment-left _ _ s6) refl,
          read_verify-verify (i + 4 + 2 + 1 + 4 + 2 + length (encode_sizes e) + length e.name)
              (Segment-left _ _ s7),
          complete,
          skip-Segment d (data_at e i) e.payload s8 refl,
        )
        refl

length-encode_entry :
    (e : Entry) (i : ℕ) → i + length (encode_entry e) ≡ data_at e i + length e.payload
length-encode_entry e i = omega (
  arith,
  length-append (encode_sizes e) (encode_tail e),
  length-append e.name (e.verify ++ e.payload),
  length-append e.verify e.payload,
)

same_files :
    {xs ys : List AlzFile} {r r' : Reader}
    → xs ≡ ys
    → r ≡ r'
    → ◌≡◌ {A = Result (List AlzFile × Reader)} (ok (xs, r)) (ok (ys, r'))
same_files p q = cc

-- The loop reads the entries up to the footer, whose signature ends it.
module _ (d : List ℕ) (small : length d < 2 ^ 64) where
  read_files-encode_entries :
      (room : ℕ) (es : List Entry) (i : ℕ) (acc : List AlzFile)
      → All Fits es
      → length es ≤ room
      → Segment d i (encode_entries es ++ to_le_bytes 4 sig_end)
      → read_files (length d) room acc (cursor d i)
        ≡ ok (acc ++ files_at es i, cursor d (end_of es i))
  read_files-encode_entries room [] i acc f n s =
      read_files_stop (length d) acc (cursor d i) room
        (ap (λ o. shows o sig_file) (peek_u32-Segment d i sig_end (omega arith) s))
      ∙ same_files (sym (append-nil acc)) refl
  read_files-encode_entries zero (e ∷ es) i acc f n s = absurd (omega arith)
  read_files-encode_entries (suc room) (e ∷ es) i acc f n s =
      let s' : Segment d i (encode_entry e ++ (encode_entries es ++ to_le_bytes 4 sig_end)) =
        rw append_assoc at s in
      let next : Segment d (data_at e i + length e.payload)
          (encode_entries es ++ to_le_bytes 4 sig_end) =
        rw length-encode_entry at (Segment-next (encode_entry e) _ s' refl) in
      let file : Segment d i (encode_entry e) = Segment-left _ _ s' in
      read_files_next (length d) acc (cursor d i) room
        (ap (λ o. shows o sig_file)
          (peek_u32-Segment d i sig_file (omega arith) (Segment-left _ _ file)))
        (read_file-encode_entry d e f.0 i small file) refl
      ∙ read_files-encode_entries room es (data_at e i + length e.payload) (acc ++ file_at e i ∷ [])
          f.1 (omega arith) next
      ∙ same_files (append_assoc acc (file_at e i ∷ []) _) refl

-- The footer is judged by its last word.
read_footer-Segment :
    (d : List ℕ) (j last : ℕ)
    → 16 ≤ length d
    → j + 4 ≡ length d
    → last < 2 ^ 32
    → Segment d j (to_le_bytes 4 last)
    → read_footer d ≡ (last == sig_split)
unfolding read_footer peek_sig
read_footer-Segment d j last long place fits s =
    let here : length d - 4 ≡ j = omega arith in
    let enough : ltb (length d) 16 ≡ false = le→ltb (length d) 16 long in
    let four : ltb (length (drop j d)) 4 ≡ false =
      le→ltb (length (drop j d)) 4 (omega (arith, length-drop j d)) in
    rw (enough, here, four, s.splits)
      (ap (λ v. v == sig_split) (from_le_bytes-to_le_bytes 4 last fits))

end_of_lem : (es : List Entry) (i : ℕ) → i + length (encode_entries es) ≡ end_of es i
end_of_lem [] i = omega arith
end_of_lem (e ∷ es) i = omega (
  arith,
  length-append (encode_entry e) (encode_entries es),
  length-encode_entry e i,
  end_of_lem es (data_at e i + length e.payload),
)

parse-segments :
    (d : List ℕ) (disk_id : ℕ) (es : List Entry) {spanned : Bool}
    → length d < 2 ^ 64
    → disk_id < 2 ^ 16
    → All Fits es
    → length es ≤ max_files
    → Segment d 0 (to_le_bytes 4 sig_alz)
    → Segment d 4 (to_le_bytes 2 supported_version)
    → Segment d 6 (to_le_bytes 2 disk_id)
    → Segment d 8 (encode_entries es ++ to_le_bytes 4 sig_end)
    → read_footer d ≡ spanned
    → parse d
      ≡ ok (record {
        version = 10;
        files = files_at es 8;
        is_spanned = spanned;
        parsed_end = end_of es 8;
      })
unfolding parse parse_from
parse-segments d disk_id es small hd f n s s1 s2 body foot =
    rw
      (
        peek_u32-Segment d 0 sig_alz (omega arith) s,
        u32-Segment d 0 sig_alz (omega arith) s,
        u16-Segment d 4 supported_version (omega arith) s1,
        u16-Segment d 6 disk_id hd s2,
        read_files-encode_entries d small max_files es 8 [] f n body,
        foot,
      )
      refl

-- Whatever files a volume holds, the parser finds them again, in order, with their fields and the
-- places of their data, and tells from the footer whether the volume is one of several.
pub parse-encode :
    (disk_id comment_size footer_crc last : ℕ) (es : List Entry)
    → disk_id < 2 ^ 16
    → last < 2 ^ 32
    → All Fits es
    → length es ≤ max_files
    → length (encode disk_id comment_size footer_crc last es) < 2 ^ 64
    → parse (encode disk_id comment_size footer_crc last es)
      ≡ ok (record {
        version = 10;
        files = files_at es 8;
        is_spanned = last == sig_split;
        parsed_end = end_of es 8;
      })
parse-encode disk_id comment_size footer_crc last es hd hl f n small =
    let d = encode disk_id comment_size footer_crc last es in
    let s : Segment d 0 d = record { rest = []; splits = sym (append-nil d) } in
    let s1 : Segment d 4 _ = Segment-next (to_le_bytes 4 sig_alz) _ s refl in
    let s2 : Segment d 6 _ = Segment-next (to_le_bytes 2 supported_version) _ s1 refl in
    let s3 : Segment d 8 _ = Segment-next (to_le_bytes 2 disk_id) _ s2 refl in
    let s4 = Segment-right (encode_entries es) _ s3 in
    let s5 = Segment-next (to_le_bytes 4 sig_end) _ s4 refl in
    let s6 = Segment-next (to_le_bytes 4 comment_size) _ s5 refl in
    let s7 = Segment-next (to_le_bytes 4 footer_crc) _ s6 refl in
    let size : 8 + length (encode_entries es) + 4 + 4 + 4 + 4 ≡ length d =
      omega (arith, length-append (encode_entries es) (footer comment_size footer_crc last)) in
    parse-segments d disk_id es small hd f n (Segment-left (to_le_bytes 4 sig_alz) _ s)
      (Segment-left (to_le_bytes 2 supported_version) _ s1)
      (Segment-left (to_le_bytes 2 disk_id) _ s2)
      (Segment-front (encode_entries es) (to_le_bytes 4 sig_end) _ s3)
      (read_footer-Segment d (8 + length (encode_entries es) + 4 + 4 + 4) last (omega arith) size hl
        s7)
