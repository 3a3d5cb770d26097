-- ===== src/Unegg/Egg/Whole.antt =====
-- egg.rs: what the parser promises of any input.
use mathlib.Core.Path.{subst, ap₂}
use zip_mania.Prelude.{
  ℕ, zero, suc, ◌+◌, ◌≤◌, ◌≡◌, refl, sym, ap, ◌∙◌, arith, Bool, true, false, not, Bool-cases,
  Option, none, some, All, inl, inr, List, [], ◌∷◌, ◌++◌, append-nil, append_assoc, ltb, not_less,
  if◌then◌else◌, length,
}
use zip_mania.Errors.{ok, corrupt, unsupported, ok-injective, >>=-eq-ok}
use zip_mania.Unegg.Reader.{Reader, new, pure, u16, u32, u64, peek_u32}
use zip_mania.Unegg.Reader.Bounds.{
  Moves, Moves-trans, Moves-within, Moves-zero, Ensures, Ensures-bind, Ensures-pure, Ensures-if,
  Ensures-err, Within, u16-Ensures, u32-Ensures, u64-Ensures,
}
use zip_mania.Unegg.Egg.Order.{
  InOrder, Found, Found-Within, Found-trans, Moves-Found, InOrder-from, InOrder-of,
}
use zip_mania.Unegg.Egg.Layout.{read_extras-Ensures, read_blocks-Found}
use zip_mania.Unegg.Alz.{shows}
use zip_mania.Unegg.Egg.{
  Block, EggFile, EggArchive, sig_file, sig_egg, sig_solid, max_blocks, max_files, contains_key,
  read_extras, read_blocks, read_file, read_files, read_footer, footer_of, is_solid, parse_from,
  parse,
}

unfoldable pub blocks_of : List EggFile → List Block
blocks_of [] = []
blocks_of (f ∷ fs) = f.blocks ++ blocks_of fs

-- The blocks that the parser found, in the order that it found them in.
unfoldable pub all_blocks : EggArchive → List Block
all_blocks ar = blocks_of ar.files ++ ar.solid_blocks

blocks_of-append : (xs ys : List EggFile) → blocks_of (xs ++ ys) ≡ blocks_of xs ++ blocks_of ys
unfolding blocks_of
blocks_of-append [] ys = refl
blocks_of-append (f ∷ fs) ys =
    ap (λ bs. f.blocks ++ bs) (blocks_of-append fs ys)
    ∙ sym (append_assoc f.blocks (blocks_of fs) (blocks_of ys))

module _ (solid : Bool) where
  -- A file has its own blocks, or none in a solid archive.
  unfoldable pub Own : EggFile → Type 0
  Own f = (length f.blocks ≤ max_blocks) × (solid ≡ true → f.blocks ≡ [])

  own_blocks-Found :
      (r : Reader)
      → Within r
      → Ensures
          ((if solid then pure [] else read_blocks max_blocks []) r)
          (λ bs s. Found r bs s × (length bs ≤ max_blocks) × (solid ≡ true → bs ≡ []))
  own_blocks-Found r v =
      Ensures-if solid _ _ r
        (λ e. Ensures-pure _ r (Moves-Found (Moves-zero r v), omega arith, λ e'. refl))
        λ e. record {
          holds = λ bs s h.
              let (found, few) = (read_blocks-Found max_blocks r v).holds bs s h in
              (found, few, λ e'. cc);
        }

  read_file-Found :
      (r : Reader) → Within r → Ensures (read_file solid r) (λ f s. Found r f.blocks s × Own f)
  unfolding read_file Own
  read_file-Found r v = Ensures-bind u32 _ r (u32-Ensures r v) λ sig r1 m1.
      Ensures-bind u32 _ r1 (u32-Ensures r1 (Moves-within m1)) λ id r2 m2.
        Ensures-bind u64 _ r2 (u64-Ensures r2 (Moves-within m2)) λ size r3 m3.
          Ensures-bind read_extras _ r3 (read_extras-Ensures r3 (Moves-within m3))
            λ extras r4 (n, m4, few).
              Ensures-bind (if solid then pure [] else read_blocks max_blocks []) _ r4
                (own_blocks-Found r4 (Moves-within m4))
                λ bs r5 (found, few', alone). Ensures-pure _ r5 (
                  Found-trans (Moves-Found (Moves-trans m1 (Moves-trans m2 (Moves-trans m3 m4))))
                      found,
                  (few', alone),
                )

  -- The loop over the files puts these behind those it has.
  record ReadsFiles (room : ℕ) (old : List EggFile) (r : Reader) (new : List EggFile) (s : Reader)
      : Type 0 where
    more : List EggFile
    appended : new ≡ old ++ more
    few : length more ≤ room
    own : All Own more
    found : Found r (blocks_of more) s

  ReadsFiles-none :
      (room : ℕ) (old : List EggFile) (r : Reader) → Within r → ReadsFiles room old r old r
  unfolding blocks_of
  ReadsFiles-none room old r v = record {
    more = [];
    appended = sym (append-nil old);
    few = omega arith;
    own = tt;
    found = Moves-Found (Moves-zero r v);
  }

  ReadsFiles-next :
      {room : ℕ} {old : List EggFile} {r s t : Reader} {new : List EggFile} (f : EggFile)
      → Found r f.blocks s
      → Own f
      → ReadsFiles room (old ++ f ∷ []) s new t
      → ReadsFiles (suc room) old r new t
  unfolding blocks_of
  ReadsFiles-next {old} f found own k = record {
    more = f ∷ k.more;
    appended = k.appended ∙ append_assoc old (f ∷ []) k.more;
    few = omega (arith, k.few);
    own = (own, k.own);
    found = Found-trans found k.found;
  }

  read_files-Ensures :
      (room : ℕ) (old : List EggFile) (r : Reader)
      → Within r
      → Ensures (read_files solid room old r) (λ new s. ReadsFiles room old r new s)
  unfolding read_files
  read_files-Ensures zero old r v =
      Ensures-if (shows (peek_u32 r) sig_file) _ _ r (λ e. Ensures-err corrupt)
        λ e. Ensures-pure old r (ReadsFiles-none 0 old r v)
  read_files-Ensures (suc room) old r v =
      Ensures-if (shows (peek_u32 r) sig_file) _ _ r
        (λ e. Ensures-bind (read_file solid) _ r (read_file-Found r v) λ f s (found, own). record {
          holds = λ new t h.
              ReadsFiles-next f found own
                ((read_files-Ensures room (old ++ f ∷ []) s (Found-Within found)).holds new t h);
        })
        λ e. Ensures-pure old r (ReadsFiles-none (suc room) old r v)

  -- The blocks behind the files, which only a solid archive has.
  shared_blocks-Found :
      (r : Reader)
      → Within r
      → Ensures
          ((if solid then read_blocks max_blocks [] else pure []) r)
          (λ bs s. Found r bs s × (length bs ≤ max_blocks) × (solid ≡ false → bs ≡ []))
  shared_blocks-Found r v =
      Ensures-if solid _ _ r
        (λ e. record {
          holds = λ bs s h.
              let (found, few) = (read_blocks-Found max_blocks r v).holds bs s h in
              (found, few, λ e'. cc);
        })
        λ e. Ensures-pure _ r (Moves-Found (Moves-zero r v), omega arith, λ e'. refl)

footer_of-Found :
    (o : Option ℕ) (r : Reader) → Within r → Ensures (footer_of o r) (λ u s. Found r [] s)
unfolding footer_of
footer_of-Found none r v = Ensures-pure tt r (Moves-Found (Moves-zero r v))
footer_of-Found (some sig) r v =
    Ensures-bind read_extras _ r (read_extras-Ensures r v)
      λ x s (n, m, few). Ensures-pure tt s (Moves-Found m)

-- What the parser promises of an archive in `total` bytes, the first fields of the volume from `lo`.
pub record Sound (total lo : ℕ) (ar : EggArchive) : Type 0 where
  pub supported : ar.version ≤ 0x100
  pub few_files : length ar.files ≤ max_files
  pub own_blocks : All (Own (is_solid ar)) ar.files
  pub few_shared : length ar.solid_blocks ≤ max_blocks
  pub shared : is_solid ar ≡ false → ar.solid_blocks ≡ []
  pub order : InOrder total (lo + 14) (all_blocks ar) ar.parsed_end

-- The blocks behind a header of 14 bytes and more.
whole-InOrder :
    {r s t : Reader} {more : List EggFile} (n : ℕ) (files : List EggFile) (bs : List Block)
    → files ≡ more
    → Moves r (4 + (2 + (4 + (4 + n)))) s
    → Found s (blocks_of more ++ (bs ++ [])) t
    → InOrder (length r.data_bytes) (r.pos + 14) (blocks_of files ++ bs) t.pos
whole-InOrder {r} {s} {t} n files bs e m k = InOrder-from (omega (arith, m.moved)) (
    InOrder-of (ap length m.same_data) refl (
      subst (λ xs. InOrder (length s.data_bytes) s.pos xs t.pos)
        (ap₂ (λ xs ys. blocks_of xs ++ ys) (sym e) (append-nil bs)) k.order))

parse_from-Sound :
    (r : Reader) → Within r → Ensures (parse_from r) (λ ar s. Sound (length r.data_bytes) r.pos ar)
unfolding parse_from is_solid blocks_of all_blocks
parse_from-Sound r v = Ensures-bind u32 _ r (u32-Ensures r v) λ sig r1 m1.
    Ensures-bind u16 _ r1 (u16-Ensures r1 (Moves-within m1)) λ version r2 m2.
      Ensures-bind u32 _ r2 (u32-Ensures r2 (Moves-within m2)) λ id r3 m3.
        Ensures-bind u32 _ r3 (u32-Ensures r3 (Moves-within m3)) λ reserved r4 m4.
          Ensures-if (ltb 0x100 version) _ _ r4 (λ e. Ensures-err unsupported)
            λ old.
              Ensures-bind read_extras _ r4 (read_extras-Ensures r4 (Moves-within m4))
                λ extras r5 (n, m5, long).
                  let solid = contains_key sig_solid extras in
                  Ensures-bind (read_files solid max_files []) _ r5
                    (read_files-Ensures solid max_files [] r5 (Moves-within m5))
                    λ files r6 k.
                      Ensures-bind (if solid then read_blocks max_blocks [] else pure []) _ r6
                        (shared_blocks-Found solid r6 (Found-Within k.found))
                        λ bs r7 (found, few, alone).
                          Ensures-bind read_footer _ r7
                            (footer_of-Found (peek_u32 r7) r7 (Found-Within found))
                            λ u r8 foot. Ensures-pure _ r8 (record {
                              supported = not_less _ _ old;
                              few_files =
                                  subst (λ fs. length fs ≤ max_files) (sym k.appended) k.few;
                              own_blocks = subst (λ fs. All (Own solid) fs) (sym k.appended) k.own;
                              few_shared = few;
                              shared = alone;
                              order =
                                  whole-InOrder n files bs k.appended
                                    (Moves-trans m1
                                      (Moves-trans m2 (Moves-trans m3 (Moves-trans m4 m5))))
                                    (Found-trans k.found (Found-trans found foot));
                            })

-- Whatever the input, an archive that the parser takes is sound.
pub parse-Sound : (d : List ℕ) (ar : EggArchive) → parse d ≡ ok ar → Sound (length d) 0 ar
unfolding parse
parse-Sound d ar h = elim (Bool-cases (not (shows (peek_u32 (new d)) sig_egg))) [
  | inl e ↦ cc (rw e at h)
  | inr e ↦
      let (p, e1, e2) = >>=-eq-ok (parse_from (new d)) (λ p. ok p.0) (rw e at h) in
      subst (λ ar. Sound (length d) 0 ar) (ok-injective e2)
        ((parse_from-Sound (new d) (omega arith)).holds p.0 p.1 e1)
]
