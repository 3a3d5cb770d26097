-- ===== src/Paths/Under/Contained.antt =====
-- paths.rs: an accepted target stays below the output root, links included.
use zip_mania.Prelude.{
  ℕ, suc, ◌≡◌, refl, sym, ap, ◌∙◌, arith, true, false, Option, none, some, List, [], ◌∷◌, ◌++◌,
  length, length-append, eq_list, eq_list_refl, or_true, Bool-cases, inl, inr,
}
use zip_mania.Errors.{ok, ok-injective, >>=-eq-ok}
use zip_mania.Paths.Under.{
  Components, GivenPath, absolute, eq_path, is_under, join, check_ancestors, root_of, resolve_under,
}

-- `above` on top of the output root: the nearest of its ancestors, itself included and the root
-- excluded, that exists on the disk is really at `real`.
pub data Nearest (canonicalize : GivenPath → Option Components) (root : Components)
    : Components → Components → Type 0 where
  here :
      {c : List ℕ} {above real : Components}
      → canonicalize (absolute ((c ∷ above) ++ root)) ≡ some real
      → Nearest canonicalize root (c ∷ above) real
  up :
      {c : List ℕ} {above real : Components}
      → canonicalize (absolute ((c ∷ above) ++ root)) ≡ none
      → Nearest canonicalize root above real
      → Nearest canonicalize root (c ∷ above) real

-- The relative components, the innermost one first.
abbrev pub push_all : Components → List (List ℕ) → Components
push_all above [] = above
push_all above (c ∷ cs) = push_all (c ∷ above) cs

join-push_all :
    (above root : Components) (cs : List (List ℕ))
    → join (above ++ root) cs ≡ push_all above cs ++ root
unfolding join
join-push_all above root [] = refl
join-push_all above root (c ∷ cs) = join-push_all (c ∷ above) root cs

eq_path_refl : (p : Components) → eq_path p p ≡ true
unfolding eq_path
eq_path_refl [] = refl
eq_path_refl (c ∷ p) = rw (eq_list_refl c, eq_path_refl p) refl

eq_path-length : (p q : Components) → eq_path p q ≡ true → length p ≡ length q
unfolding eq_path
eq_path-length [] [] h = refl
eq_path-length [] (y ∷ q) h = cc
eq_path-length (x ∷ p) [] h = cc
eq_path-length (x ∷ p) (y ∷ q) h = elim (Bool-cases (eq_list x y)) [
  | inl e ↦ ap suc (eq_path-length p q (rw e at h))
  | inr e ↦ cc (rw e at h)
]

longer-differs : (c : List ℕ) (above root : Components) → eq_path ((c ∷ above) ++ root) root ≡ false
longer-differs c above root = elim (Bool-cases (eq_path ((c ∷ above) ++ root) root)) [
  | inr e ↦ e
  | inl e ↦
      absurd (omega (arith, eq_path-length ((c ∷ above) ++ root) root e, length-append above root))
]

is_under-root : (root : Components) → is_under root root ≡ true
unfolding is_under
is_under-root [] = eq_path_refl []
is_under-root (c ∷ root) = rw (eq_path_refl (c ∷ root)) refl

is_under-append : (above root : Components) → is_under root (above ++ root) ≡ true
unfolding is_under
is_under-append [] root = is_under-root root
is_under-append (c ∷ above) root =
    rw (is_under-append above root) (or_true (eq_path ((c ∷ above) ++ root) root))

module _ (canonicalize : GivenPath → Option Components) (root : Components) where
  check_ancestors-Nearest :
      (above real : Components)
      → check_ancestors canonicalize root (above ++ root) ≡ ok tt
      → Nearest canonicalize root above real
      → is_under root real ≡ true
  unfolding check_ancestors
  check_ancestors-Nearest [] real h n = elim n [ ]
  check_ancestors-Nearest (c ∷ above) real h (here e) = elim (Bool-cases (is_under root real)) [
    | inl u ↦ u
    | inr u ↦ cc (
        rw (longer-differs c above root, is_under-append (c ∷ above) root, e, u, check_ancestors) at
          h)
  ]
  check_ancestors-Nearest (c ∷ above) real h (up e n) =
      check_ancestors-Nearest above real
        (rw (longer-differs c above root, is_under-append (c ∷ above) root, e, check_ancestors) at
          h)
        n

-- A target that is accepted is the output root with the relative components below it, and its
-- nearest ancestor below the root that exists on the disk, links followed, is under the root; the
-- root is its canonical path, or its absolute one where it does not exist.
pub resolve_under-Nearest :
    (canonicalize : GivenPath → Option Components) (current_dir : Components) (root : GivenPath)
    (rel : List (List ℕ)) {target : Components}
    → resolve_under canonicalize current_dir root rel ≡ ok target
    → let root_abs = root_of canonicalize current_dir root in
      (target ≡ push_all [] rel ++ root_abs)
      × ((real : Components)
          → Nearest canonicalize root_abs (push_all [] rel) real
          → is_under root_abs real ≡ true)
unfolding resolve_under
resolve_under-Nearest canonicalize current_dir root rel h =
    let root_abs = root_of canonicalize current_dir root in
    let (u, checked, same) =
      >>=-eq-ok (check_ancestors canonicalize root_abs (join root_abs rel))
        (λ u. ok (join root_abs rel)) h in
    (
      sym (ok-injective same) ∙ join-push_all [] root_abs rel,
      λ real n.
          check_ancestors-Nearest canonicalize root_abs (push_all [] rel) real
            (ap (check_ancestors canonicalize root_abs) (sym (join-push_all [] root_abs rel))
              ∙ checked)
            n,
    )
