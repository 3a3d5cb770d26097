-- ===== src/Errors/Classify.antt =====
-- error.rs: what a failed open and a failed operation of the engine are reported as.
use zip_mania.Prelude.{Bool, ◌&&◌, ◌||◌, if◌then◌else◌, ◌≡◌, ◌⊎◌}
use zip_mania.Prelude.Int.{ℤ, is_pos}
use zip_mania.Errors.{Code, unsupported, corrupt, wrong_password, password_required}

-- The i32 `_hr` is not read.
unfoldable pub classify_open_failure : ℤ → Bool → Bool → Code
classify_open_failure hr crypto_requested password_provided =
    if crypto_requested
    then if password_provided then wrong_password else password_required
    else unsupported

unfoldable pub classify_operation : ℤ → Bool → Bool → Code
classify_operation op_result crypto_requested password_provided =
    if is_pos op_result 9 || (crypto_requested && (is_pos op_result 2 || is_pos op_result 3))
    then if password_provided then wrong_password else password_required
    else if is_pos op_result 1 || is_pos op_result 7
    then unsupported
    else corrupt

abbrev pub IsPasswordCode : Code → Type 0
IsPasswordCode c = (c ≡ wrong_password) ⊎ (c ≡ password_required)
