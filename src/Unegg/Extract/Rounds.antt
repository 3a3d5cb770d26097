-- ===== src/Unegg/Extract/Rounds.antt =====
-- extract.rs: what became of the entries when an extraction ends well.
use zip_mania.Prelude.{
  ℕ, ◌≡◌, refl, ap, ◌∙◌, Bool, true, Bool-cases, inl, inr, some, Option-cases, some-injective, List,
  [], ◌∷◌,
}
use zip_mania.Paths.Under.{Components}
use zip_mania.Backend.Results.{MissingItem, done, fine, finish, canceled_result}
use zip_mania.Unegg.Codec.Inflate.{Inflated}
use zip_mania.Backend.Conflicts.{in_scope}
use zip_mania.Backend.Conflicts.Scope.{IsSelected, in_scope-IsSelected}
use zip_mania.Unegg.Extract.Entries.{Dealt, extract_item-Did}
use zip_mania.Unegg.Extract.Steps.{nothing_lost, next-injective, stop-next, Step-cases}
use zip_mania.Unegg.Items.{Item}
use zip_mania.Unegg.Extract.{
  System, Options, State, Stopped, was_canceled, had_failed, stop_result, next, extract_item,
  extract_items, targets, start_of, end_of, extract_all,
}

module _ {W S : Type 0} (sys : System W) (inflate : S → List ℕ → Inflated S) (start : S) (fuel : ℕ)
    (for_windows : Bool) (current_dir : Components) (bytes : List ℕ) (opts : Options) where
  -- The rounds of the loop, in order, each from the disk that the one before left: an entry that is not
  -- selected is passed by, and each other one is dealt with.
  pub data Rounds : List Item → W → Type 0 where
    no_more : {w : W} → Rounds [] w
    passed :
        {i : Item} {is : List Item} {w : W}
        → ¬ IsSelected i.path opts.selected
        → Rounds is w
        → Rounds (i ∷ is) w
    round :
        {i : Item} {is : List Item} {w w' : W}
        → IsSelected i.path opts.selected
        → Dealt sys inflate start fuel for_windows current_dir bytes opts i w w'
        → Rounds is w'
        → Rounds (i ∷ is) w

  abbrev selects : List Item → List Item
  selects is = targets sys inflate start fuel for_windows current_dir bytes opts is

  extract_items-Rounds :
      (is : List Item) (st : State W) {st' : State W}
      → extract_items sys inflate start fuel for_windows current_dir bytes opts (selects is) st
        ≡ some (next st')
      → st'.missing ≡ []
      → Rounds is st.world × (st.missing ≡ [])
  unfolding extract_items targets
  extract_items-Rounds [] st h e =
      (no_more, ap (λ (s : State W). s.missing) (next-injective (some-injective h)) ∙ e)
  extract_items-Rounds (i ∷ is) st h e = elim (Bool-cases (in_scope i.path opts.selected)) [
    | inr out ↦
        let (rest, before) = extract_items-Rounds is st (rw (out, targets) at h) e in
        (passed (λ sel. cc (out, (in_scope-IsSelected i.path opts.selected).1 sel)) rest, before)
    | inl sel ↦
        elim (Option-cases
          (extract_item sys inflate start fuel for_windows current_dir bytes opts i st)) [
            | inl f ↦ cc (rw (sel, f, targets, extract_items) at h)
            | inr (s, f) ↦ elim (Step-cases s) [
              | inl (r, g) ↦
                  absurd (stop-next (some-injective (rw (sel, f, g, targets, extract_items) at h)))
              | inr (mid, g) ↦
                  let (rest, none_yet) =
                    extract_items-Rounds is mid (rw (sel, f, g, targets, extract_items) at h) e in
                  let (k, before) =
                    nothing_lost
                      (extract_item-Did sys inflate start fuel for_windows current_dir bytes opts i
                        st (f ∙ ap some g))
                      none_yet in
                  (round ((in_scope-IsSelected i.path opts.selected).0 sel) k rest, before)
            ]
          ]
  ]

  fine_empty :
      (ms : List MissingItem) {few : List MissingItem} {total : ℕ}
      → finish ms ≡ done fine few total
      → ms ≡ []
  unfolding finish
  fine_empty [] h = refl
  fine_empty (m ∷ ms) h = cc

  never_fine :
      (r : Stopped) {few : List MissingItem} {total : ℕ} → stop_result r ≡ done fine few total → ⊥
  unfolding stop_result canceled_result
  never_fine was_canceled h = cc
  never_fine (had_failed c) h = cc

  ended :
      (is : List Item) (st : State W) {few : List MissingItem} {total : ℕ}
      → end_of sys inflate start fuel for_windows current_dir bytes opts
          (extract_items sys inflate start fuel for_windows current_dir bytes opts (selects is) st)
        ≡ some (done fine few total)
      → Rounds is st.world
  ended is st h =
      elim (Option-cases
        (extract_items sys inflate start fuel for_windows current_dir bytes opts (selects is) st)) [
          | inl e ↦ cc (rw e at h)
          | inr (s, e) ↦ elim (Step-cases s) [
            | inl (r, g) ↦ absurd (never_fine r (some-injective (rw (e, g) at h)))
            | inr (st', g) ↦
                (extract_items-Rounds is st (e ∙ ap some g)
                  (fine_empty st'.missing (some-injective (rw (e, g) at h)))).0
          ]
        ]

  -- An extraction that ends well made the output directory, and its rounds dealt with each entry that is
  -- selected, in order: it led, by its name cleaned and resolved under the output directory, to a target,
  -- and is a folder that was made there, a file that was left out by the policy since its target was
  -- there, or a file that was staged for its place, received what the read of the entry delivers, whole
  -- and as many bytes as the archive says, and was flushed and committed to the place.
  pub extract_all-Rounds :
      (items : List Item) (w : W) {few : List MissingItem} {total : ℕ}
      → extract_all sys inflate start fuel for_windows current_dir bytes opts items w
        ≡ some (done fine few total)
      → ((sys.create_dir_all opts.dest w).0 ≡ true)
        × Rounds items (sys.create_dir_all opts.dest w).1
  unfolding extract_all
  extract_all-Rounds items w h = elim (Bool-cases (sys.create_dir_all opts.dest w).0) [
    | inr e ↦ cc (rw (e, extract_all) at h)
    | inl e ↦ (
      e,
      ended items
          (start_of sys inflate start fuel for_windows current_dir bytes opts
            (sys.create_dir_all opts.dest w).1)
          (rw (e, extract_all) at h),
    )
  ]
