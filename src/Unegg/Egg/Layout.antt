-- ===== src/Unegg/Egg/Layout.antt =====
-- egg.rs: where the data of the blocks lie, whatever the archive holds.
use mathlib.Core.Path.{subst}
use zip_mania.Prelude.{
  ℕ, zero, suc, ◌+◌, ◌≤◌, ◌≡◌, refl, sym, ap, ◌∙◌, arith, not, Option, none, some, List, [], ◌∷◌,
  ◌++◌, append-nil, append_assoc, ltb, ◌==◌, if◌then◌else◌, length,
}
use zip_mania.Errors.{corrupt}
use zip_mania.Unegg.Reader.{
  Reader, Parse, ◌>>◌, pure, u8, u16, u32, bytes, skip, peek_u32, position,
}
use zip_mania.Unegg.Reader.Bounds.{
  Moves, Moves-trans, Moves-within, Moves-zero, Ensures, Ensures-bind, Ensures-pure, Ensures-if,
  Ensures-err, Within, u8-Ensures, u16-Ensures, u32-Ensures, bytes-Ensures, skip-Ensures, Steps,
  position-Ensures, Ensures-Moves,
}
use zip_mania.Unegg.Codec.{from_egg}
use zip_mania.Unegg.Egg.Order.{InOrder, stop, block, InOrder-of, Found}
use zip_mania.Unegg.Alz.{shows, bit_set}
use zip_mania.Unegg.Egg.{
  Extras, Block, sig_block, sig_end, max_headers, max_extra_bytes, data_size_at, extras_round,
  read_extra, read_extras_from, read_extras, or_insert, read_block, read_blocks,
}

-- The data of a block are between these.
record Placed (total lo : ℕ) (b : Block) (hi : ℕ) : Type 0 where
  header : lo + 22 ≤ b.data_offset
  fits : b.data_offset + b.packed_size ≤ total
  ends : hi ≡ b.data_offset + b.packed_size

Placed-Within :
    {r s : Reader} {b : Block}
    → s.data_bytes ≡ r.data_bytes
    → Placed (length r.data_bytes) r.pos b s.pos
    → Within s
Placed-Within same p = omega (arith, p.fits, p.ends, ap length same)

data_size_at-Ensures :
    (sig size : ℕ) (r : Reader) → Within r → Ensures (data_size_at sig size r) (λ a s. Moves r 0 s)
unfolding data_size_at
data_size_at-Ensures sig size r v = Ensures-pure _ r (Moves-zero r v)

module _ (r : Reader) (v : Within r) where
  read_extra-Ensures : (sig : ℕ) → Ensures (read_extra sig r) (λ e s. Steps r s)
  unfolding read_extra
  read_extra-Ensures sig = Ensures-bind u8 _ r (u8-Ensures r v) λ gpb r1 m1.
      Ensures-bind (if bit_set 0 gpb then u32 else u16) _ r1
        (Ensures-if (bit_set 0 gpb) u32 u16 r1
          (λ e. Ensures-Moves (u32-Ensures r1 (Moves-within m1)))
          (λ e. Ensures-Moves (u16-Ensures r1 (Moves-within m1))))
        λ field_size r2 (k2, m2).
          Ensures-bind (data_size_at sig field_size) _ r2
            (data_size_at-Ensures sig field_size r2 (Moves-within m2))
            λ size r3 m3.
              Ensures-if (ltb max_extra_bytes size) _ _ r3 (λ e. Ensures-err corrupt)
                λ e.
                  Ensures-bind (bytes size) _ r3 (bytes-Ensures r3 (Moves-within m3) size)
                    λ c r4 m4.
                      Ensures-pure _ r4 (_, Moves-trans m1 (Moves-trans m2 (Moves-trans m3 m4)))

-- Fields up to and with the four bytes of the end mark.
abbrev pub Ended : Reader → Reader → Type 0
Ended r s = (n : ℕ) × Moves r n s × (4 ≤ n)

extras_round-Ensures :
    (later : Extras → Parse Extras) (out : Extras) (o : Option ℕ) (r : Reader)
    → Within r
    → ((out : Extras) (r : Reader) → Within r → Ensures (later out r) (λ e s. Ended r s))
    → Ensures (extras_round later out o r) (λ e s. Ended r s)
unfolding extras_round
extras_round-Ensures later out none r v k = Ensures-err corrupt
extras_round-Ensures later out (some sig) r v k = Ensures-bind u32 _ r (u32-Ensures r v) λ a r1 m1.
    Ensures-if (sig == sig_end) _ _ r1 (λ q. Ensures-pure out r1 (4, m1, omega arith))
      λ q.
        Ensures-bind (read_extra sig) _ r1 (read_extra-Ensures r1 (Moves-within m1) sig)
          λ x r2 (n, m2). record {
            holds = λ e s h.
                let (l, m, few) = (k (or_insert sig x out) r2 (Moves-within m2)).holds e s h in
                (_, Moves-trans m1 (Moves-trans m2 m), omega arith);
          }

read_extras_from-Ensures :
    (rounds : ℕ) (out : Extras) (r : Reader)
    → Within r
    → Ensures (read_extras_from rounds out r) (λ e s. Ended r s)
unfolding read_extras_from
read_extras_from-Ensures zero out r v = Ensures-err corrupt
read_extras_from-Ensures (suc rounds) out r v =
    extras_round-Ensures (read_extras_from rounds) out (peek_u32 r) r v
      (read_extras_from-Ensures rounds)

pub read_extras-Ensures : (r : Reader) → Within r → Ensures (read_extras r) (λ e s. Ended r s)
unfolding read_extras
read_extras-Ensures r v = read_extras_from-Ensures (max_headers + 1) [] r v

block-Placed :
    {r s t u : Reader} {b : Block} {n : ℕ}
    → Moves r (4 + (1 + (1 + (4 + (4 + (4 + n)))))) s
    → 4 ≤ n
    → b.data_offset ≡ s.pos
    → Moves s 0 t
    → Moves t b.packed_size u
    → (u.data_bytes ≡ r.data_bytes) × Placed (length r.data_bytes) r.pos b u.pos
block-Placed m long e k l = (
  l.same_data ∙ k.same_data ∙ m.same_data,
  record {
    header = omega (arith, m.moved);
    fits = omega (arith, l.fits, k.moved, ap length (k.same_data ∙ m.same_data));
    ends = omega (arith, l.moved, k.moved);
  },
)

read_block-Ensures :
    (r : Reader)
    → Within r
    → Ensures
        (read_block r)
        (λ b s. (s.data_bytes ≡ r.data_bytes) × Placed (length r.data_bytes) r.pos b s.pos)
unfolding read_block
read_block-Ensures r v = Ensures-bind u32 _ r (u32-Ensures r v) λ sig r1 m1.
    Ensures-if (not (sig == sig_block)) _ _ r1 (λ e. Ensures-err corrupt)
      λ e. Ensures-bind u8 _ r1 (u8-Ensures r1 (Moves-within m1)) λ method r2 m2.
        Ensures-bind u8 _ r2 (u8-Ensures r2 (Moves-within m2)) λ hint r3 m3.
          Ensures-bind u32 _ r3 (u32-Ensures r3 (Moves-within m3)) λ unpacked r4 m4.
            Ensures-bind u32 _ r4 (u32-Ensures r4 (Moves-within m4)) λ packed r5 m5.
              Ensures-bind u32 _ r5 (u32-Ensures r5 (Moves-within m5)) λ crc r6 m6.
                Ensures-bind read_extras _ r6 (read_extras-Ensures r6 (Moves-within m6))
                  λ x r7 (n, m7, long).
                    Ensures-bind position
                      (λ place.
                        skip packed
                        >> pure (record {
                          method = from_egg method;
                          unpacked_size = unpacked;
                          packed_size = packed;
                          crc = crc;
                          data_offset = place;
                        }))
                      r7 (position-Ensures r7 (Moves-within m7))
                      λ place r8 (at_place, m8).
                        Ensures-bind (skip packed) _ r8 (skip-Ensures r8 (Moves-within m8) packed)
                          λ u r9 m9. Ensures-pure _ r9 (
                            block-Placed
                              (Moves-trans m1 (
                                Moves-trans m2 (
                                  Moves-trans m3
                                    (Moves-trans m4 (Moves-trans m5 (Moves-trans m6 m7))))))
                              long at_place m8 m9)

-- A loop that reads blocks puts them behind those it has, and no more than it has room for.
record Reads (total : ℕ) (room : ℕ) (old : List Block) (r : Reader) (new : List Block) (s : Reader)
    : Type 0 where
  more : List Block
  same : s.data_bytes ≡ r.data_bytes
  appended : new ≡ old ++ more
  few : length more ≤ room
  order : InOrder total r.pos more s.pos

Reads-none :
    (room : ℕ) (old : List Block) (r : Reader)
    → Within r
    → Reads (length r.data_bytes) room old r old r
Reads-none room old r v = record {
  more = [];
  same = refl;
  appended = sym (append-nil old);
  few = omega arith;
  order = stop (omega arith) v;
}

Reads-next :
    {room : ℕ} {old : List Block} {r s t : Reader} {b : Block} {new : List Block}
    → s.data_bytes ≡ r.data_bytes
    → Placed (length r.data_bytes) r.pos b s.pos
    → Reads (length s.data_bytes) room (old ++ b ∷ []) s new t
    → Reads (length r.data_bytes) (suc room) old r new t
Reads-next {old} {b} same p k = record {
  more = b ∷ k.more;
  same = k.same ∙ same;
  appended = k.appended ∙ append_assoc old (b ∷ []) k.more;
  few = omega (arith, k.few);
  order = block p.header p.fits (InOrder-of (ap length same) p.ends k.order);
}

read_blocks-Reads :
    (room : ℕ) (old : List Block) (r : Reader)
    → Within r
    → Ensures (read_blocks room old r) (λ new s. Reads (length r.data_bytes) room old r new s)
unfolding read_blocks
read_blocks-Reads zero old r v =
    Ensures-if (shows (peek_u32 r) sig_block) _ _ r (λ e. Ensures-err corrupt)
      λ e. Ensures-pure old r (Reads-none 0 old r v)
read_blocks-Reads (suc room) old r v =
    Ensures-if (shows (peek_u32 r) sig_block) _ _ r
      (λ e. Ensures-bind read_block _ r (read_block-Ensures r v) λ b s (same, p). record {
        holds = λ new t h.
            Reads-next same p
              ((read_blocks-Reads room (old ++ b ∷ []) s (Placed-Within same p)).holds new t h);
      })
      λ e. Ensures-pure old r (Reads-none (suc room) old r v)

-- A list of blocks read from the start of it.
pub read_blocks-Found :
    (room : ℕ) (r : Reader)
    → Within r
    → Ensures (read_blocks room [] r) (λ bs s. Found r bs s × (length bs ≤ room))
read_blocks-Found room r v = record {
  holds = λ new s h.
      let k = (read_blocks-Reads room [] r v).holds new s h in
      (
        record {
          same = k.same;
          order =
              subst (λ bs. InOrder (length r.data_bytes) r.pos bs s.pos) (sym k.appended) k.order;
        },
        subst (λ bs. length bs ≤ room) (sym k.appended) k.few,
      );
}
