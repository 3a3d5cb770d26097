-- ===== src/Backend/Router/Choice.antt =====
-- backend/mod.rs: which backend the router chooses.
use zip_mania.Prelude.{
  ℕ, ◌≡◌, refl, Bool, true, false, ◌||◌, Bool-cases, false_not_true, ◌⊎◌, inl, inr, List,
  if◌then◌else◌,
}
use zip_mania.Errors.{Result}
use zip_mania.Formats.{contains}
use zip_mania.Formats.Extensions.{read_exts, sevenzip_exts, unzip_exts, unegg_exts, ext_of}
use zip_mania.Formats.Extensions.Shared.{read_exts-shared, one_of}
use zip_mania.Backend.Router.{
  BackendId, sevenzip, unzip, unegg, nobody, default_backends, find_backend, pick, for_archive,
}

module _ (zip_version dll_version egg_version : Result (List ℕ)) where
  -- Which backend reads an extension where 7z.dll is there, and where it is not.
  abbrev reader_of : Bool → List ℕ → BackendId
  reader_of true e =
      if contains unzip_exts e
      then unzip
      else if contains sevenzip_exts e
      then sevenzip
      else if contains unegg_exts e
      then unegg
      else sevenzip
  reader_of false e =
      if contains unzip_exts e then unzip else if contains unegg_exts e then unegg else nobody

  -- The backend chosen to read an archive is the one that its extension is assigned to; on Windows an
  -- extension that is not known goes to 7z.dll, elsewhere it and the extensions of 7z.dll to none.
  pub for_archive-reader :
      (with_dll for_windows : Bool) (archive : List ℕ)
      → (for_archive for_windows
          (default_backends with_dll zip_version dll_version egg_version)
          archive).id
        ≡ reader_of with_dll (ext_of for_windows archive)
  unfolding for_archive pick find_backend default_backends
  for_archive-reader true for_windows archive =
      elim (Bool-cases (contains unzip_exts (ext_of for_windows archive))) [
        | inl a ↦ rw a refl
        | inr a ↦ elim (Bool-cases (contains sevenzip_exts (ext_of for_windows archive))) [
          | inl b ↦ rw (a, b) refl
          | inr b ↦ elim (Bool-cases (contains unegg_exts (ext_of for_windows archive))) [
            | inl c ↦ rw (a, b, c) refl
            | inr c ↦ rw (a, b, c) refl
          ]
        ]
      ]
  for_archive-reader false for_windows archive =
      elim (Bool-cases (contains unzip_exts (ext_of for_windows archive))) [
        | inl a ↦ rw a refl
        | inr a ↦ elim (Bool-cases (contains unegg_exts (ext_of for_windows archive))) [
          | inl c ↦ rw (a, c) refl
          | inr c ↦ rw (a, c) refl
        ]
      ]

  excludes :
      (a b c : Bool)
      → one_of a b c ≡ true
      → (b ≡ true → a ≡ false) × (c ≡ true → (a ≡ false) × (b ≡ false))
  excludes true true c h = cc
  excludes true false true h = cc
  excludes true false false h = ((λ e. cc), λ e. cc)
  excludes false true true h = cc
  excludes false true false h = ((λ e. refl), λ e. cc)
  excludes false false c h = ((λ e. refl), λ e. (refl, refl))

  any_of : (a b c : Bool) → (a ≡ true) ⊎ ((b ≡ true) ⊎ (c ≡ true)) → a || (b || c) ≡ true
  any_of true b c h = refl
  any_of false true c h = refl
  any_of false false true h = refl
  any_of false false false h = elim h [ inl e ↦ cc | inr k ↦ elim k [ inl e ↦ cc | inr e ↦ cc ] ]

  apart : (a b c : Bool) → one_of a b c ≡ true → a ≡ true → (b ≡ false) × (c ≡ false)
  apart true true c h e = cc
  apart true false true h e = cc
  apart true false false h e = (refl, refl)
  apart false b c h e = cc

  nowhere :
      (e : List ℕ)
      → contains read_exts e ≡ false
      → (contains sevenzip_exts e ≡ false)
        × (contains unzip_exts e ≡ false)
        × (contains unegg_exts e ≡ false)
  nowhere e h0 =
      none_of (contains sevenzip_exts e) (contains unzip_exts e) (contains unegg_exts e)
        λ h. false_not_true h0 ((read_exts-shared e).1 h)
    where
      none_of :
          (a b c : Bool) → ((a || (b || c) ≡ true) → ⊥) → (a ≡ false) × (b ≡ false) × (c ≡ false)
      none_of true b c k = absurd (k refl)
      none_of false true c k = absurd (k refl)
      none_of false false true k = absurd (k refl)
      none_of false false false k = (refl, refl, refl)

  -- With 7z.dll, an archive is read by the backend that its extension belongs to, whichever of the
  -- three that is, and an archive with an extension that belongs to none by 7z.dll; without it, the
  -- extensions of the other two keep their backends, and no other archive has any.
  pub for_archive-owner :
      (for_windows : Bool) (archive : List ℕ)
      → let e = ext_of for_windows archive in
        let with_dll =
          (for_archive for_windows
            (default_backends true zip_version dll_version egg_version)
            archive).id in
        let without =
          (for_archive for_windows
            (default_backends false zip_version dll_version egg_version)
            archive).id in
        (contains unzip_exts e ≡ true → (with_dll ≡ unzip) × (without ≡ unzip))
        × (contains unegg_exts e ≡ true → (with_dll ≡ unegg) × (without ≡ unegg))
        × (contains sevenzip_exts e ≡ true → (with_dll ≡ sevenzip) × (without ≡ nobody))
        × (contains read_exts e ≡ false → (with_dll ≡ sevenzip) × (without ≡ nobody))
  for_archive-owner for_windows archive =
      let e = ext_of for_windows archive in
      let w = for_archive-reader true for_windows archive in
      let o = for_archive-reader false for_windows archive in
      let (once, all_of) = read_exts-shared e in
      let ss = contains sevenzip_exts e in
      let zz = contains unzip_exts e in
      let gg = contains unegg_exts e in
      let own : (x : (contains sevenzip_exts e ≡ true)
            ⊎ ((contains unzip_exts e ≡ true) ⊎ (contains unegg_exts e ≡ true)))
          → one_of (contains sevenzip_exts e) (contains unzip_exts e) (contains unegg_exts e)
            ≡ true =
        λ x. once (all_of (any_of ss zz gg x)) in
      (
        (λ z. (rw z at w, rw z at o)),
        (λ g.
            let (s, z) = (excludes ss zz gg (own (inr (inr g)))).1 g in
            (rw (z, s, g) at w, rw (z, g) at o)),
        (λ s. let (z, g) = apart ss zz gg (own (inl s)) s in (rw (z, s) at w, rw (z, g) at o)),
        λ h0. let (s, z, g) = nowhere e h0 in (rw (z, s, g) at w, rw (z, g) at o),
      )
