-- ===== src/Backend/Conflicts/Meeting.antt =====
-- backend/mod.rs: which paths `compute_conflicts` reports.
use mathlib.Core.Path.{subst}
use zip_mania.Prelude.{
  ℕ, ◌≡◌, refl, sym, Bool, true, false, Bool-cases, inl, inr, ◌↔◌, Option, List, [], ◌∷◌, map,
}
use zip_mania.Errors.{Result, ok, >>=-eq-ok, Result-cases}
use zip_mania.Paths.{unify, sanitize_for}
use zip_mania.Paths.Under.{Components, GivenPath, resolve_under}
use zip_mania.Backend.Conflicts.{in_scope, relative_name, target_of, conflict_of, compute_conflicts}
use zip_mania.Backend.Conflicts.Scope.{
  IsSelected, in_scope-IsSelected, IsNamed, relative_name-IsNamed, IsNamed-relative_name,
}
use zip_mania.Unegg.Items.Listing.{ArchiveEntry}

module _ (canonicalize : GivenPath → Option Components) (current_dir : Components)
    (for_windows : Bool) (exists : Components → Bool) (dest : GivenPath) (keep_paths : Bool)
    (selected : List (List ℕ)) where
  -- An entry of the archive that would meet a file: it is a file that is selected, and its name,
  -- cleaned, leads to a target under the output directory that is on the disk.
  pub record Meets (e : ArchiveEntry) (path : List ℕ) : Type 0 where
    pub named : map unify e.path ≡ path
    pub file : e.is_dir ≡ false
    pub selected_one : IsSelected path selected
    pub name : List ℕ
    pub called : IsNamed path name keep_paths
    pub rel : Components
    pub cleaned : sanitize_for name for_windows ≡ ok rel
    pub target : Components
    pub resolved : resolve_under canonicalize current_dir dest rel ≡ ok target
    pub present : exists target ≡ true

  abbrev conflicts : ArchiveEntry → Bool
  conflicts e = conflict_of canonicalize current_dir for_windows exists dest keep_paths selected e

  abbrev reported : List ArchiveEntry → List (List ℕ)
  reported es =
      compute_conflicts canonicalize current_dir for_windows exists dest keep_paths selected es

  abbrev target_at : List ℕ → Result Components
  target_at path =
      target_of canonicalize current_dir for_windows dest (relative_name keep_paths path)

  conflict_of-Meets : (e : ArchiveEntry) → conflicts e ≡ true → Meets e (map unify e.path)
  unfolding conflict_of target_of
  conflict_of-Meets e h =
      let path = map unify e.path in
      elim (Bool-cases e.is_dir) [
        | inl d ↦ cc (rw d at h)
        | inr d ↦ elim (Bool-cases (in_scope path selected)) [
          | inr s ↦ cc (rw (d, s) at h)
          | inl s ↦ elim (Result-cases (target_at path)) [
            | inr (c, t) ↦ cc (rw (d, s, t, conflict_of) at h)
            | inl (target, t) ↦
                let (rel, cleaned, resolved) =
                  >>=-eq-ok (sanitize_for (relative_name keep_paths path) for_windows)
                    (λ rel. resolve_under canonicalize current_dir dest rel) t in
                record {
                  named = refl;
                  file = d;
                  selected_one = (in_scope-IsSelected path selected).0 s;
                  name = relative_name keep_paths path;
                  called = relative_name-IsNamed keep_paths path;
                  rel = rel;
                  cleaned = cleaned;
                  target = target;
                  resolved = resolved;
                  present = rw (d, s, t, conflict_of) at h;
                }
          ]
        ]
      ]

  Meets-target :
      {e : ArchiveEntry} {path : List ℕ} (m : Meets e path) → target_at path ≡ ok m.target
  unfolding target_of
  Meets-target m = rw (IsNamed-relative_name m.called, target_of, m.cleaned) m.resolved

  Meets-conflict_of : (e : ArchiveEntry) → Meets e (map unify e.path) → conflicts e ≡ true
  unfolding conflict_of
  Meets-conflict_of e m =
      rw
        (
          m.file,
          (in_scope-IsSelected (map unify e.path) selected).1 m.selected_one,
          Meets-target m,
          conflict_of,
        )
        m.present

  -- A text in a list, and an entry in a list that meets it.
  pub data Among (path : List ℕ) : List (List ℕ) → Type 0 where
    first : {ps : List (List ℕ)} → Among path (path ∷ ps)
    later : {p : List ℕ} {ps : List (List ℕ)} → Among path ps → Among path (p ∷ ps)

  pub data AnyMeets (path : List ℕ) : List ArchiveEntry → Type 0 where
    this : {e : ArchiveEntry} {es : List ArchiveEntry} → Meets e path → AnyMeets path (e ∷ es)
    that : {e : ArchiveEntry} {es : List ArchiveEntry} → AnyMeets path es → AnyMeets path (e ∷ es)

  Meets-at : {e : ArchiveEntry} {path : List ℕ} → Meets e path → Meets e (map unify e.path)
  Meets-at {e} m = subst (λ p. Meets e p) (sym m.named) m

  Among-next :
      (e : ArchiveEntry) (es : List ArchiveEntry) {path : List ℕ}
      → Among path (reported es)
      → Among path (reported (e ∷ es))
  unfolding compute_conflicts
  Among-next e es a = elim (Bool-cases (conflicts e)) [
    | inl h ↦ rw (h, compute_conflicts) (later a)
    | inr h ↦ rw (h, compute_conflicts) a
  ]

  found : (es : List ArchiveEntry) {path : List ℕ} → AnyMeets path es → Among path (reported es)
  unfolding compute_conflicts
  found [] n = elim n [ ]
  found (e ∷ es) {path} (this m) =
      rw (Meets-conflict_of e (Meets-at m), compute_conflicts)
        (subst (λ p. Among path (p ∷ reported es)) (sym m.named) first)
  found (e ∷ es) (that a) = Among-next e es (found es a)

  first_or :
      {e : ArchiveEntry} {es : List ArchiveEntry} {p path : List ℕ} {ps : List (List ℕ)}
      → Meets e p
      → (Among path ps → AnyMeets path es)
      → Among path (p ∷ ps)
      → AnyMeets path (e ∷ es)
  first_or m k first = this m
  first_or m k (later b) = that (k b)

  real : (es : List ArchiveEntry) {path : List ℕ} → Among path (reported es) → AnyMeets path es
  unfolding compute_conflicts
  real [] a = elim a [ ]
  real (e ∷ es) {path} a = elim (Bool-cases (conflicts e)) [
    | inr h ↦ that (real es (rw (h, compute_conflicts) at a))
    | inl h ↦ first_or (conflict_of-Meets e h) (λ b. real es b) (rw (h, compute_conflicts) at a)
  ]

  -- A path is reported as a conflict exactly if it is, with slashes, the path of an entry that is a file
  -- and selected, and its name, which is the path or its last part, leads by sanitize and resolve_under
  -- to a target that is on the disk.
  pub compute_conflicts-AnyMeets :
      (es : List ArchiveEntry) (path : List ℕ) → Among path (reported es) ↔ AnyMeets path es
  compute_conflicts-AnyMeets es path = (real es, found es)
