-- ===== src/Forms.antt =====
-- src/JContainers/src/forms/form_handling.h: form identifiers and handles. An identifier is below
-- 2 ^ 32 and a handle below 2 ^ 64, masks and shifts are written as divisions by powers of two, and
-- the bits that `form_id_to_handle` joins do not overlap.
pub mod Handles
pub mod Strings
pub mod Observer
pub mod Watch
pub mod Calls
pub mod Deleted
pub mod Digits
pub mod RoundTrip
pub mod Tests
use jcontainers_ng.Common.{ℕ, ◌+◌, ◌/◌, ◌%◌, Bool, not, ◌==◌, if◌then◌else◌}

unfoldable pub is_form_handle : ℕ → Bool
is_form_handle handle = handle / 4294967296 == 65535

unfoldable pub form_handle_to_id : ℕ → ℕ
form_handle_to_id handle = handle % 4294967296

unfoldable pub form_id_to_handle : ℕ → ℕ
form_id_to_handle id = 281470681743360 + id

unfoldable pub is_static : ℕ → Bool
is_static n = not (n / 16777216 == 255)

unfoldable pub is_light : ℕ → Bool
is_light n = n / 16777216 == 254

unfoldable pub local_id : ℕ → ℕ
local_id n = if is_light n then n % 4096 else n % 16777216
