-- ===== src/Forms/Handles.antt =====
-- Handles and local identifiers of forms.
use jcontainers_ng.Common.{ℕ, ◌<◌, ◌≡◌, true, arith}
use jcontainers_ng.Forms.{
  is_form_handle, form_handle_to_id, form_id_to_handle, is_static, is_light, local_id,
}

-- The handle of a 32-bit form identifier is a form handle, and gives the identifier back.
pub form_handle_to_id-form_id_to_handle :
    (id : ℕ)
    → id < 4294967296
    → (is_form_handle (form_id_to_handle id) ≡ true)
      × (form_handle_to_id (form_id_to_handle id) ≡ id)
unfolding is_form_handle form_handle_to_id form_id_to_handle
form_handle_to_id-form_id_to_handle id h = (ground arith, ground arith)

-- A form of a light mod is static, and its local identifier has 12 bits.
pub is_light-is_static : (n : ℕ) → is_light n ≡ true → (is_static n ≡ true) × (local_id n < 4096)
unfolding is_light is_static local_id
is_light-is_static n h = (ground arith, ground arith)
