-- ===== src/Backend/Router.antt =====
-- backend/mod.rs: the registered backends and the choice among them. A backend is what the router
-- asks of it; its jobs are the backend's own. The version that 7z.dll reports is a parameter.
pub mod Choice
use zip_mania.Prelude.{
  ℕ, Bool, true, false, Option, none, some, List, [], ◌∷◌, ◌++◌, map, if◌then◌else◌,
}
use zip_mania.Errors.{Result, ok, err, Code, unsupported}
use zip_mania.Formats.{contains, to_ascii_lower, zip_text, tar_text}
use zip_mania.Formats.Extensions.{sevenzip_exts, unzip_exts, unegg_exts, ext_of}

pub data BackendId : Type 0 where
  sevenzip unzip unegg nobody : BackendId

pub record Backend : Type 0 where
  pub id : BackendId
  pub read_exts : List (List ℕ)
  pub write_exts : List (List ℕ)
  pub accepts_unknown : Bool
  pub engine_version : Result (List ℕ)

-- `Unsupported`, which takes what no backend is for.
abbrev pub unsupported_backend : Backend
unsupported_backend = record {
  id = nobody;
  read_exts = [];
  write_exts = [];
  accepts_unknown = false;
  engine_version = err unsupported;
}

abbrev pub seven_zip_text : List ℕ
seven_zip_text = 0x37 ∷ 0x7A ∷ []

abbrev pub unzip_backend : Result (List ℕ) → Backend
unzip_backend version = record {
  id = unzip;
  read_exts = unzip_exts;
  write_exts = unzip_exts;
  accepts_unknown = false;
  engine_version = version;
}

abbrev pub sevenzip_backend : Result (List ℕ) → Backend
sevenzip_backend version = record {
  id = sevenzip;
  read_exts = sevenzip_exts;
  write_exts = seven_zip_text ∷ zip_text ∷ tar_text ∷ [];
  accepts_unknown = true;
  engine_version = version;
}

abbrev pub unegg_backend : Result (List ℕ) → Backend
unegg_backend version = record {
  id = unegg;
  read_exts = unegg_exts;
  write_exts = [];
  accepts_unknown = false;
  engine_version = version;
}

-- In order of priority.
unfoldable pub default_backends :
    Bool → Result (List ℕ) → Result (List ℕ) → Result (List ℕ) → List Backend
default_backends true zip_version dll_version egg_version =
    unzip_backend zip_version ∷ sevenzip_backend dll_version ∷ unegg_backend egg_version ∷ []
default_backends false zip_version dll_version egg_version =
    unzip_backend zip_version ∷ unegg_backend egg_version ∷ []

unfoldable pub backend_ids : List Backend → List BackendId
backend_ids backends = map (λ (b : Backend). b.id) backends

-- The first that knows its version.
unfoldable pub engine_version : List Backend → Result (List ℕ)
engine_version [] = err unsupported
engine_version (b ∷ bs) = elim b.engine_version [ ok v ↦ ok v | err c ↦ engine_version bs ]

pub data Capability : Type 0 where
  reading writing : Capability

unfoldable pub find_backend : (Backend → Bool) → List Backend → Option Backend
find_backend p [] = none
find_backend p (b ∷ bs) = let later = find_backend p bs in if p b then some b else later

-- The first, or the second where there is none.
abbrev or_else : Option Backend → Option Backend → Option Backend
or_else none other = other
or_else (some b) other = some b

abbrev unwrap_or : Option Backend → Backend
unwrap_or none = unsupported_backend
unwrap_or (some b) = b

unfoldable pub pick : List Backend → List ℕ → Capability → Backend
pick backends ext reading = unwrap_or (
    or_else (find_backend (λ b. contains b.read_exts ext) backends)
      (find_backend (λ b. b.accepts_unknown) backends))
pick backends ext writing = unwrap_or (
    or_else (find_backend (λ b. contains b.write_exts ext) backends)
      (find_backend (λ b. contains b.read_exts ext) backends))

unfoldable pub for_archive : Bool → List Backend → List ℕ → Backend
for_archive for_windows backends archive = pick backends (ext_of for_windows archive) reading

unfoldable pub for_format : List Backend → List ℕ → Backend
for_format backends format = pick backends (map to_ascii_lower format) writing
