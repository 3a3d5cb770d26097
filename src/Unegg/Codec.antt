-- ===== src/Unegg/Codec.antt =====
-- backend/unegg/codec.rs: the compression methods, and which numbers stand for them.
pub mod Inflate
use zip_mania.Prelude.{ℕ, Bool, true, false, ◌==◌, if◌then◌else◌}

pub data Method : Type 0 where
  store deflate bzip2 lzma azo alz_bzip2 : Method
  unknown : ℕ → Method

-- `Method::from_egg` and `Method::from_alz`.
unfoldable pub from_egg : ℕ → Method
from_egg id =
    if id == 0
    then store
    else if id == 1
    then deflate
    else if id == 2
    then bzip2
    else if id == 3
    then azo
    else if id == 4
    then lzma
    else unknown id

unfoldable pub from_alz : ℕ → Method
from_alz id =
    if id == 0
    then store
    else if id == 1
    then alz_bzip2
    else if id == 2
    then deflate
    else unknown id

unfoldable pub data_header_size : Method → ℕ
data_header_size lzma = 9
data_header_size _ = 0

unfoldable pub is_supported : Method → Bool
is_supported store = true
is_supported deflate = true
is_supported _ = false
