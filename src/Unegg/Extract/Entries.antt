-- ===== src/Unegg/Extract/Entries.antt =====
-- extract.rs: what becomes of an entry in a round of the loop that goes on.
use zip_mania.Prelude.{
  ℕ, ◌≡◌, refl, sym, ap, ◌∙◌, Bool, true, false, Bool-cases, inl, inr, Option, none, some,
  Option-cases, some-injective, List, ◌==◌, ==_iff, length,
}
use zip_mania.Errors.{Code, ok, io_error, Result-cases}
use zip_mania.Formats.{OverwriteMode, overwrite, skip, rename}
use zip_mania.Paths.{sanitize_for}
use zip_mania.Paths.Under.{Components, resolve_under}
use zip_mania.Backend.Results.{MissingItem}
use zip_mania.Backend.Conflicts.{relative_name}
use zip_mania.Backend.Conflicts.Scope.{IsNamed, relative_name-IsNamed}
use zip_mania.Unegg.Codec.Inflate.{Inflated}
use zip_mania.Unegg.Extract.Steps.{Did, kept, lost, next-injective, stop-next}
use zip_mania.Unegg.Items.{Item}
use zip_mania.Unegg.Items.Reading.{read_item_to}
use zip_mania.Unegg.Items.Reading.Whole.{IsWhole, read_item_to-IsWhole}
use zip_mania.Unegg.Extract.{
  System, Options, State, next, mode_or, unique_of, parent_of, is_local, place_of, make_dir,
  give_up, settle, read_into, write_file, extract_item,
}

module _ {W S : Type 0} (sys : System W) (inflate : S → List ℕ → Inflated S) (start : S) (fuel : ℕ)
    (for_windows : Bool) (current_dir : Components) (bytes : List ℕ) (opts : Options) where
  -- The entry leads to this target: its name, which is its path or the last part of it, cleaned, is
  -- resolved to it under the output directory, in this state of the disk, and nothing is canceled.
  pub record LeadsTo (i : Item) (w : W) (target : Components) : Type 0 where
    pub running : sys.canceled w ≡ false
    pub name : List ℕ
    pub called : IsNamed i.path name opts.keep_paths
    pub rel : Components
    pub cleaned : sanitize_for name for_windows ≡ ok rel
    pub resolved : resolve_under (sys.canonicalize w) current_dir opts.dest rel ≡ ok target

  abbrev pub mode_of : Item → OverwriteMode
  mode_of i = mode_or opts.overwrite_mode (opts.decisions i.path)

  -- Where a file with this target goes: the target if nothing is there or it is to be overwritten,
  -- and a free name beside it if it is to be renamed.
  pub data GoesTo (i : Item) (w : W) (target place : Components) : Type 0 where
    free_target : sys.exists w target ≡ false → place ≡ target → GoesTo i w target place
    overwritten :
        sys.exists w target ≡ true
        → mode_of i ≡ overwrite
        → place ≡ target
        → GoesTo i w target place
    renamed :
        sys.exists w target ≡ true
        → mode_of i ≡ rename
        → place ≡ unique_of (sys.exists w) target
        → GoesTo i w target place

  -- The disk once the file of a place is staged, and once its bytes are written and flushed.
  abbrev pub staging : Components → W → Bool × W
  staging place w = sys.stage place (sys.create_dir_at (parent_of place) w).1

  abbrev pub flushing : Components → List ℕ → W → Bool × W
  flushing place delivered w = sys.flush (sys.fill delivered (staging place w).1)

  -- An entry that was dealt with, the disk before and behind: a folder that was made at the target, a
  -- file that was left out by the policy since its target was there, or a file that was staged for its
  -- place, received what a read of the entry delivers, whole and as many bytes as the archive says, and
  -- was flushed and committed to the place.
  pub data Kept (i : Item) (target : Components) (w w' : W) : Type 0 where
    folder :
        i.is_dir ≡ true
        → (sys.create_dir_at target w).0 ≡ true
        → w' ≡ (sys.create_dir_at target w).1
        → Kept i target w w'
    left_out :
        i.is_dir ≡ false
        → sys.exists w target ≡ true
        → mode_of i ≡ skip
        → w' ≡ w
        → Kept i target w w'
    committed :
        (place : Components) (delivered : List ℕ)
        → i.is_dir ≡ false
        → GoesTo i w target place
        → (staging place w).0 ≡ true
        → read_item_to inflate start fuel (sys.takes (staging place w).1) bytes i 0 opts.password
          ≡ some (ok i.size, delivered)
        → IsWhole i.blocks delivered
        → length delivered ≡ i.size
        → (flushing place delivered w).0 ≡ true
        → (sys.commit place (flushing place delivered w).1).0 ≡ true
        → w' ≡ (sys.commit place (flushing place delivered w).1).1
        → Kept i target w w'

  -- A round that deals with an entry that leads somewhere.
  pub data Dealt (i : Item) (w w' : W) : Type 0 where
    dealt : (target : Components) → LeadsTo i w target → Kept i target w w' → Dealt i w w'

  missing_of : {st st' : State W} → next st ≡ next st' → st'.missing ≡ st.missing
  missing_of h = sym (ap (λ (s : State W). s.missing) (next-injective h))

  world_of : {st st' : State W} → next st ≡ next st' → st'.world ≡ st.world
  world_of h = sym (ap (λ (s : State W). s.world) (next-injective h))

  make_dir-Did :
      (i : Item) (target : Components) (st : State W) {st' : State W}
      → i.is_dir ≡ true
      → make_dir sys inflate start fuel for_windows current_dir bytes opts i target st ≡ next st'
      → Did (Kept i target st.world st'.world) st.missing st'.missing
  unfolding make_dir
  make_dir-Did i target st d h = elim (Bool-cases (sys.create_dir_at target st.world).0) [
    | inl e ↦ kept (folder d e (world_of (rw e at h))) (missing_of (rw e at h))
    | inr e ↦ lost _ (missing_of (rw e at h))
  ]

  give_up-Did :
      {P : Type 0} (i : Item) (c : Code) (w : W) (st : State W) {st' : State W}
      → give_up sys inflate start fuel for_windows current_dir bytes opts i c w st ≡ next st'
      → Did P st.missing st'.missing
  unfolding give_up
  give_up-Did i c w st h = elim (Bool-cases (sys.canceled (sys.abort w))) [
    | inl e ↦ absurd (stop-next (rw e at h))
    | inr e ↦ elim (Bool-cases (is_local c)) [
      | inl f ↦ lost _ (missing_of (rw (e, f) at h))
      | inr f ↦ absurd (stop-next (rw (e, f) at h))
    ]
  ]

  -- A read that succeeded is kept in one way: it is flushed, of the right size, and committed.
  settle-Did :
      {P : Type 0} (i : Item) (place : Components) (n : ℕ) (w : W) (st : State W) {st' : State W}
      → ((sys.flush w).0 ≡ true
          → n ≡ i.size
          → (sys.commit place (sys.flush w).1).0 ≡ true
          → st'.world ≡ (sys.commit place (sys.flush w).1).1
          → P)
      → settle sys inflate start fuel for_windows current_dir bytes opts i place n w st ≡ next st'
      → Did P st.missing st'.missing
  unfolding settle
  settle-Did i place n w st k h =
      let w' = (sys.flush w).1 in
      elim (Bool-cases (sys.flush w).0) [
        | inr e ↦ give_up-Did i io_error w' st (rw e at h)
        | inl e ↦ elim (Bool-cases (n == i.size)) [
          | inr f ↦ lost _ (missing_of (rw (e, f) at h))
          | inl f ↦ elim (Bool-cases (sys.commit place w').0) [
            | inr g ↦ absurd (stop-next (rw (e, f, g) at h))
            | inl g ↦
                kept (k e ((==_iff n i.size).0 f) g (world_of (rw (e, f, g) at h)))
                  (missing_of (rw (e, f, g) at h))
          ]
        ]
      ]

  read_into-Did :
      (i : Item) (target place : Components) (st : State W) {st' : State W}
      → i.is_dir ≡ false
      → GoesTo i st.world target place
      → (staging place st.world).0 ≡ true
      → read_into sys inflate start fuel for_windows current_dir bytes opts i place
          (staging place st.world).1
          st
        ≡ some (next st')
      → Did (Kept i target st.world st'.world) st.missing st'.missing
  unfolding read_into
  read_into-Did i target place st d goes staged h =
      let w = (staging place st.world).1 in
      elim (Option-cases (read_item_to inflate start fuel (sys.takes w) bytes i 0 opts.password)) [
        | inl e ↦ cc (rw (e, read_into) at h)
        | inr (o, e) ↦ elim (Result-cases o.0) [
          | inr (c, f) ↦
              give_up-Did i c (sys.fill o.1 w) st (some-injective (rw (e, f, read_into) at h))
          | inl (n, f) ↦
              let same = e ∙ ap (λ r. some (r, o.1)) f in
              let (count, whole) =
                read_item_to-IsWhole inflate start fuel (sys.takes w) bytes i 0 opts.password
                  same in
              settle-Did i place n (sys.fill o.1 w) st
                (λ flushed size moved world.
                  committed place o.1 d goes staged (same ∙ ap (λ n. some (ok n, o.1)) size) whole
                    (sym count ∙ size) flushed moved world)
                (some-injective (rw (e, f, read_into) at h))
        ]
      ]

  -- The place of a file by the policy, or none where it is left out.
  pub data Decides (i : Item) (w : W) (target : Components) : Option Components → Type 0 where
    leaves : sys.exists w target ≡ true → mode_of i ≡ skip → Decides i w target none
    goes : (place : Components) → GoesTo i w target place → Decides i w target (some place)

  place_of-Decides :
      (i : Item) (target : Components) (w : W)
      → Decides i w target
          (place_of sys inflate start fuel for_windows current_dir bytes opts i target w)
  unfolding place_of
  place_of-Decides i target w = elim (Bool-cases (sys.exists w target)) [
    | inr e ↦ rw (e, place_of) (goes target (free_target e refl))
    | inl e ↦ rw (e, place_of) (by_mode (mode_of i) refl e)
  ]
    where
      by_mode :
          (m : OverwriteMode)
          → mode_of i ≡ m
          → sys.exists w target ≡ true
          → Decides i w target (elim m [
            | skip ↦ none
            | rename ↦ some (unique_of (sys.exists w) target)
            | overwrite ↦ some target
          ])
      by_mode skip k e = leaves e k
      by_mode rename k e = goes (unique_of (sys.exists w) target) (renamed e k refl)
      by_mode overwrite k e = goes target (overwritten e k refl)

  file_at :
      {P : Type 0} {i : Item} {target : Components} {w : W} {o : Option Components}
      → Decides i w target o
      → (sys.exists w target ≡ true → mode_of i ≡ skip → o ≡ none → P)
      → ((place : Components) → GoesTo i w target place → o ≡ some place → P)
      → P
  file_at (leaves e m) f g = f e m refl
  file_at (goes place to) f g = g place to refl

  write_file-Did :
      (i : Item) (target : Components) (st : State W) {st' : State W}
      → i.is_dir ≡ false
      → write_file sys inflate start fuel for_windows current_dir bytes opts i target st
        ≡ some (next st')
      → Did (Kept i target st.world st'.world) st.missing st'.missing
  unfolding write_file
  write_file-Did i target st d h =
      file_at (place_of-Decides i target st.world)
        (λ there mode e.
          kept (left_out d there mode (world_of (some-injective (rw (e, write_file) at h))))
            (missing_of (some-injective (rw (e, write_file) at h))))
        (λ place to e. elim (Bool-cases (staging place st.world).0) [
          | inr f ↦ absurd (stop-next (some-injective (rw (e, f, write_file) at h)))
          | inl f ↦ read_into-Did i target place st d to f (rw (e, f, write_file) at h)
        ])

  Did-map :
      {P Q : Type 0} {before after : List MissingItem}
      → (P → Q)
      → Did P before after
      → Did Q before after
  Did-map f (kept p e) = kept (f p) e
  Did-map f (lost m e) = lost m e

  -- A round that goes on deals with the entry, or adds it to the missing ones.
  pub extract_item-Did :
      (i : Item) (st : State W) {st' : State W}
      → extract_item sys inflate start fuel for_windows current_dir bytes opts i st
        ≡ some (next st')
      → Did (Dealt i st.world st'.world) st.missing st'.missing
  unfolding extract_item
  extract_item-Did i st h = elim (Bool-cases (sys.canceled st.world)) [
    | inl c ↦ absurd (stop-next (some-injective (rw (c, extract_item) at h)))
    | inr c ↦
        let name = relative_name opts.keep_paths i.path in
        elim (Result-cases (sanitize_for name for_windows)) [
          | inr (r, e) ↦ absurd (stop-next (some-injective (rw (c, e, extract_item) at h)))
          | inl (rel, e) ↦
              elim (Result-cases
                (resolve_under (sys.canonicalize st.world) current_dir opts.dest rel)) [
                  | inr (r, f) ↦
                      absurd (stop-next (some-injective (rw (c, e, f, extract_item) at h)))
                  | inl (target, f) ↦
                      let leads : LeadsTo i st.world target = record {
                        running = c;
                        name = name;
                        called = relative_name-IsNamed opts.keep_paths i.path;
                        rel = rel;
                        cleaned = e;
                        resolved = f;
                      } in
                      Did-map (dealt target leads) (elim (Bool-cases i.is_dir) [
                        | inl d ↦
                            make_dir-Did i target st d
                              (some-injective (rw (c, e, f, d, extract_item) at h))
                        | inr d ↦ write_file-Did i target st d (rw (c, e, f, d, extract_item) at h)
                      ])
                ]
        ]
  ]
