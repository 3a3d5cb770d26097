-- ===== src/Unegg/Alz/Layout.antt =====
-- What the parser promises of any input: where the data of the files lie.
use mathlib.Core.Path.{subst}
use zip_mania.Prelude.{
  ℕ, zero, suc, min, ◌+◌, ◌%◌, ◌/◌, ◌^◌, ◌≤◌, ◌<◌, ◌≡◌, refl, sym, ap, ◌∙◌, arith, not, Bool, true,
  false, Bool-cases, inl, inr, List, [], ◌∷◌, ◌++◌, append-nil, append_assoc, ltb, ◌==◌, length,
}
use zip_mania.Errors.{ok, corrupt, unsupported, ok-injective, >>=-eq-ok, Result-cases}
use zip_mania.Unegg.Reader.{
  position, Reader, new, seek, ◌>>◌, pure, u8, u16, u32, bytes, var_uint, peek_u32,
}
use zip_mania.Unegg.Reader.Bounds.{
  Steps, position-Ensures, Moves, Moves-trans, Moves-within, Moves-zero, Ensures, Ensures-bind,
  Ensures-pure, Ensures-if, Ensures-err, Within, u8-Ensures, u16-Ensures, u32-Ensures,
  bytes-Ensures, var_uint-Ensures, skip-Ensures,
}
use zip_mania.Unegg.Alz.{
  AlzFile, AlzArchive, is_width, read_size_fields, read_sizes, read_verify, pass_data, read_file,
  read_files, read_files_stop, read_files_next, read_files_cut, read_files_full, read_files_err,
  shows, parse, parse_from, supported_version, sig_alz, sig_file, max_files, bit_set,
}

-- From `lo` to `hi` the volume of `total` bytes holds these files: each behind the one before, with
-- its data within the volume; only the last may be cut off, and then it runs past the end.
pub data InOrder (total : ℕ) : ℕ → List AlzFile → ℕ → Type 0 where
  stop : {lo hi : ℕ} → lo ≡ hi → hi ≤ total → InOrder total lo [] hi
  whole :
      {lo hi : ℕ} {f : AlzFile} {fs : List AlzFile}
      → f.incomplete ≡ false
      → lo + 13 ≤ f.data_offset
      → f.data_offset + f.packed_size ≤ total
      → InOrder total (f.data_offset + f.packed_size) fs hi
      → InOrder total lo (f ∷ fs) hi
  cut :
      {lo hi : ℕ} {f : AlzFile}
      → f.incomplete ≡ true
      → lo + 13 ≤ f.data_offset
      → f.data_offset ≤ total
      → total < f.data_offset + f.packed_size
      → hi ≡ total
      → InOrder total lo (f ∷ []) hi

module _ (r : Reader) (v : Within r) where
  read_size_fields-Ensures : (base : ℕ) → Ensures (read_size_fields base r) (λ z s. Steps r s)
  unfolding read_size_fields
  read_size_fields-Ensures base = Ensures-bind u16 _ r (u16-Ensures r v) λ m r1 m1.
      Ensures-bind u32 _ r1 (u32-Ensures r1 (Moves-within m1)) λ c r2 m2.
        Ensures-bind (var_uint base) _ r2 (var_uint-Ensures r2 (Moves-within m2) base) λ p r3 m3.
          Ensures-bind (var_uint base) _ r3 (var_uint-Ensures r3 (Moves-within m3) base)
            λ u r4 m4. Ensures-pure _ r4 (_, Moves-trans m1 (Moves-trans m2 (Moves-trans m3 m4)))

  read_sizes-Ensures : (flags : ℕ) → Ensures (read_sizes flags r) (λ z s. Steps r s)
  unfolding read_sizes
  read_sizes-Ensures flags =
      Ensures-if (flags == 0) _ _ r (λ e. Ensures-pure _ r (0, Moves-zero r v))
        λ e.
          Ensures-if (is_width (flags / 2 ^ 4 % 16)) _ _ r (λ e'. read_size_fields-Ensures _)
            λ e'. Ensures-err corrupt

  read_verify-Ensures : (flags : ℕ) → Ensures (read_verify flags r) (λ z s. Steps r s)
  unfolding read_verify
  read_verify-Ensures flags =
      Ensures-if (bit_set 0 flags) _ _ r
        (λ e. record { holds = λ a s h. (12, (bytes-Ensures r v 12).holds a s h) })
        λ e. Ensures-pure _ r (0, Moves-zero r v)

  pass_data-Ensures :
      (incomplete : Bool) (total packed : ℕ)
      → length r.data_bytes ≡ total
      → Ensures (pass_data incomplete total packed r) (λ u s.
        (s.data_bytes ≡ r.data_bytes)
        × (incomplete ≡ false → Moves r packed s)
        × (incomplete ≡ true → s.pos ≡ total))
  unfolding pass_data seek
  pass_data-Ensures true total packed t =
      Ensures-pure tt (record r { pos = min total (length r.data_bytes) })
        (refl, (λ e. cc), λ e. omega arith)
  pass_data-Ensures false total packed t = record {
    holds =
        λ u s e. let m = (skip-Ensures r v packed).holds u s e in (m.same_data, (λ _. m), λ e'. cc);
  }

-- What `read_file` finds: the header before the data, and the data within the volume or cut off.
record Found (lo total : ℕ) (f : AlzFile) (hi : ℕ) : Type 0 where
  header : lo + 13 ≤ f.data_offset
  offset_within : f.data_offset ≤ total
  there :
      f.incomplete ≡ false
      → (f.data_offset + f.packed_size ≤ total) × (hi ≡ f.data_offset + f.packed_size)
  missing : f.incomplete ≡ true → (total < f.data_offset + f.packed_size) × (hi ≡ total)

-- The end of `read_file`: the file `f` whose header begins at `r` and whose data begin at `t`.
module _ (r : Reader) {t : Reader} {k : ℕ} (m : Moves r k t) (long : 13 ≤ k) where
  read_data-Ensures :
      (f : AlzFile)
      → f.data_offset ≡ t.pos
      → f.incomplete ≡ ltb (length r.data_bytes) ((f.data_offset + f.packed_size) % 2 ^ 64)
      → Ensures
          ((pass_data f.incomplete (length r.data_bytes) f.packed_size >> pure f) t)
          (λ g s. (s.data_bytes ≡ r.data_bytes) × Found r.pos (length r.data_bytes) g s.pos)
  read_data-Ensures f here inc =
      Ensures-bind (pass_data f.incomplete (length r.data_bytes) f.packed_size) _ t
        (pass_data-Ensures t (Moves-within m) f.incomplete (length r.data_bytes) f.packed_size
          (ap length m.same_data))
        λ u s (same, on, past). Ensures-pure f s (
          same ∙ m.same_data,
          record {
            header = omega (arith, m.moved);
            offset_within = omega (arith, m.moved, m.fits);
            there = λ e.
                let w = on e in
                (omega (arith, w.fits, ap length m.same_data), omega (arith, w.moved));
            missing = λ e. (ground (arith, inc), past e);
          },
        )

module _ (r : Reader) (v : Within r) where
  read_file-Ensures :
      Ensures
        (read_file (length r.data_bytes) r)
        (λ f s. (s.data_bytes ≡ r.data_bytes) × Found r.pos (length r.data_bytes) f s.pos)
  unfolding read_file
  read_file-Ensures = Ensures-bind u32 _ r (u32-Ensures r v) λ sig r1 m1.
      Ensures-bind u16 _ r1 (u16-Ensures r1 (Moves-within m1)) λ n r2 m2.
        Ensures-bind u8 _ r2 (u8-Ensures r2 (Moves-within m2)) λ attr r3 m3.
          Ensures-bind u32 _ r3 (u32-Ensures r3 (Moves-within m3)) λ time r4 m4.
            Ensures-bind u16 _ r4 (u16-Ensures r4 (Moves-within m4)) λ flags r5 m5.
              Ensures-bind (read_sizes flags) _ r5 (read_sizes-Ensures r5 (Moves-within m5) flags)
                λ z r6 (k6, m6).
                  Ensures-bind (bytes n) _ r6 (bytes-Ensures r6 (Moves-within m6) n) λ name r7 m7.
                    Ensures-bind (read_verify flags) _ r7
                      (read_verify-Ensures r7 (Moves-within m7) flags)
                      λ verify r8 (k8, m8).
                        Ensures-bind position _ r8 (position-Ensures r8 (Moves-within m8))
                          λ place r9 (here, m9).
                            read_data-Ensures r
                              (Moves-trans m1 (
                                Moves-trans m2 (
                                  Moves-trans m3 (
                                    Moves-trans m4 (
                                      Moves-trans m5
                                        (Moves-trans m6 (Moves-trans m7 (Moves-trans m8 m9))))))))
                              (omega arith)
                              (record {
                                raw_name = name;
                                attributes = attr;
                                dos_time = time;
                                flags = flags;
                                method = z.method;
                                crc = z.crc;
                                packed_size = z.packed;
                                unpacked_size = z.unpacked;
                                data_offset = place;
                                verify_data = verify;
                                incomplete =
                                    ltb (length r.data_bytes) ((place + z.packed) % 2 ^ 64);
                              })
                              (omega (arith, m9.moved)) refl

-- What the loop adds behind the files that it was given.
abbrev Adds : ℕ → ℕ → List AlzFile → ℕ → List AlzFile → ℕ → Type 0
Adds total room acc lo files hi =
    (fs : List AlzFile) × (files ≡ acc ++ fs) × InOrder total lo fs hi × (length fs ≤ room)

module _ (acc : List AlzFile) {total : ℕ} {files : List AlzFile} {lo hi : ℕ} where
  Adds-nil : (room : ℕ) → files ≡ acc → lo ≡ hi → hi ≤ total → Adds total room acc lo files hi
  Adds-nil room e p v = ([], e ∙ sym (append-nil acc), stop p v, omega arith)

  Adds-cut :
      (room : ℕ) (f : AlzFile)
      → f.incomplete ≡ true
      → Found lo total f hi
      → files ≡ acc ++ f ∷ []
      → Adds total (suc room) acc lo files hi
  Adds-cut room f c b e =
      let (past, place) = b.missing c in
      (f ∷ [], e, cut c b.header b.offset_within past place, omega arith)

  Adds-whole :
      {mid : ℕ} (room : ℕ) (f : AlzFile)
      → f.incomplete ≡ false
      → Found lo total f mid
      → Adds total room (acc ++ f ∷ []) mid files hi
      → Adds total (suc room) acc lo files hi
  Adds-whole room f c b (fs, e, o, n) =
      let (fits, place) = b.there c in
      (
        f ∷ fs,
        e ∙ append_assoc acc (f ∷ []) fs,
        whole c b.header fits (subst (λ p. InOrder total p fs hi) place o),
        omega arith,
      )

Found-within : {lo total : ℕ} {f : AlzFile} {hi : ℕ} → Found lo total f hi → hi ≤ total
Found-within {f} b = elim (Bool-cases f.incomplete) [
  | inl c ↦ omega (arith, (b.missing c).1)
  | inr c ↦ let (fits, place) = b.there c in omega arith
]

read_files-stopped :
    (total room : ℕ) (acc : List AlzFile) (r : Reader) {files : List AlzFile} {s : Reader}
    → length r.data_bytes ≡ total
    → Within r
    → shows (peek_u32 r) sig_file ≡ false
    → read_files total room acc r ≡ ok (files, s)
    → Adds total room acc r.pos files s.pos
read_files-stopped total room acc r t v none h =
    let e = ok-injective (sym h ∙ read_files_stop total acc r room none) in
    let place = ap (λ p. p.1.pos) e in Adds-nil acc room (ap (λ p. p.0) e) (sym place) (omega arith)

read_files-Adds :
    (total room : ℕ) (acc : List AlzFile) (r : Reader) {files : List AlzFile} {s : Reader}
    → length r.data_bytes ≡ total
    → Within r
    → read_files total room acc r ≡ ok (files, s)
    → Adds total room acc r.pos files s.pos
read_files-Adds total zero acc r t v h = elim (Bool-cases (shows (peek_u32 r) sig_file)) [
  | inr none ↦ read_files-stopped total zero acc r t v none h
  | inl more ↦ cc (read_files_full total acc r more)
]
read_files-Adds total (suc room) acc r t v h = elim (Bool-cases (shows (peek_u32 r) sig_file)) [
  | inr none ↦ read_files-stopped total (suc room) acc r t v none h
  | inl more ↦ elim (Result-cases (read_file total r)) [
    | inr (c, e) ↦ cc (read_files_err total acc r room more e)
    | inl ((f, s'), e) ↦
        let (same, b) = (rw t at (read_file-Ensures r v)).holds f s' e in
        elim (Bool-cases f.incomplete) [
          | inl c ↦
              let q = ok-injective (sym h ∙ read_files_cut total acc r room more e c) in
              Adds-cut acc room f c
                (subst (λ p. Found r.pos total f p) (ap (λ p. p.1.pos) (sym q)) b) (ap (λ p. p.0) q)
          | inr c ↦
              let t' : length s'.data_bytes ≡ total = ap length same ∙ t in
              Adds-whole acc room f c b (
                read_files-Adds total room (acc ++ f ∷ []) s' t' (omega (arith, Found-within b))
                  (sym (read_files_next total acc r room more e c) ∙ h))
        ]
  ]
]

-- What `parse_from` promises of the archive that it returns.
supported : (version : ℕ) → not (version == supported_version) ≡ false → version ≡ supported_version
supported version e = ground arith

abbrev Parsed : ℕ → AlzArchive → Type 0
Parsed total ar =
    (ar.version ≡ supported_version)
    × InOrder total 8 ar.files ar.parsed_end
    × (length ar.files ≤ max_files)

parse_from-Ensures : (d : List ℕ) → Ensures (parse_from d (new d)) (λ ar s. Parsed (length d) ar)
unfolding parse_from
parse_from-Ensures d =
    let r : Reader = record { data_bytes = d; pos = 0 } in
    Ensures-bind u32 _ r (u32-Ensures r (omega arith)) λ sig r1 m1.
      Ensures-bind u16 _ r1 (u16-Ensures r1 (Moves-within m1)) λ version r2 m2.
        Ensures-bind u16 _ r2 (u16-Ensures r2 (Moves-within m2)) λ disk r3 m3.
          Ensures-if (not (version == supported_version)) _ _ r3 (λ e. Ensures-err unsupported)
            λ e.
              let m = Moves-trans m1 (Moves-trans m2 m3) in
              Ensures-bind (read_files (length d) max_files []) _ r3
                (record {
                  holds = λ fs s q.
                      read_files-Adds (length d) max_files [] r3 (ap length m.same_data)
                        (Moves-within m) q;
                })
                λ fs r4 (gs, same, order, few). Ensures-pure _ r4 (
                  supported version e,
                  subst (λ xs. InOrder (length d) 8 xs r4.pos) (sym same)
                      (subst (λ p. InOrder (length d) p gs r4.pos) m.moved order),
                  subst (λ xs. length xs ≤ max_files) (sym same) few,
                )

-- An archive that parses has the supported version and at most the limit of files; they lie in
-- order behind the global header, each with its data within the volume, up to the place where the
-- parser stopped, but for a last one that is marked as cut off and then runs past the end.
pub parse-InOrder :
    (d : List ℕ) {ar : AlzArchive}
    → parse d ≡ ok ar
    → (ar.version ≡ supported_version)
      × InOrder (length d) 8 ar.files ar.parsed_end
      × (length ar.files ≤ max_files)
unfolding parse
parse-InOrder d h = elim (Bool-cases (not (shows (peek_u32 (new d)) sig_alz))) [
  | inl e ↦ cc (rw e at h)
  | inr e ↦
      let ((ar', s), q, k) = >>=-eq-ok (parse_from d (new d)) _ (rw e at h) in
      subst (Parsed (length d)) (ok-injective k) ((parse_from-Ensures d).holds ar' s q)
]
