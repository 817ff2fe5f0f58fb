-- ===== src/Result.antt =====
-- Code that may throw returns a `Result`; an error is named after its message in the source.
use cordn.Prelude.{string_eq}
use mathlib.Core.Path.{◌≡◌, refl}
use mathlib.Core.Logic.{◌⊎◌, inl, inr}

pub data Error : Type 0 where
  too_many_join_requests : Error
  missing_client_pubkey missing_publication_event : Error
  rate_limit_exceeded key_package_quota_exceeded : Error
  invalid_kp invalid_key_package invalid_welcome invalid_msg : Error
  unsupported_credential signer_mismatch identity_mismatch : Error
  unable_to_allocate_cursor unique_constraint_failed : Error
  invalid_pubkey unauthorized_admin_action missing_sender sender_mismatch : Error
  unknown_key_package unauthorized_key_package : Error
  value_out_of_range unexpected_end_of_uint16 unexpected_end_of_field : Error
  missing_group_name duplicate_admin_pubkeys admin_pubkeys_length : Error
  unsupported_metadata_version trailing_metadata invalid_utf8 : Error
  dictionary_entry_too_large unexpected_end_of_dictionary unexpected_end_of_length : Error
  unexpected_end_of_component trailing_dictionary_data : Error

pub data Result {ℓ} (A : Type ℓ) : Type ℓ where
  ok : A → Result A
  err : Error → Result A

infixl 5 ◌>>=◌
abbrev pub ◌>>=◌ {ℓ κ} : {A : Type ℓ} {B : Type κ} → Result A → (A → Result B) → Result B
ok a >>= f = f a
err e >>= f = err e

pub Result-cases {ℓ} :
    {A : Type ℓ} (x : Result A) → ((a : A) × (x ≡ ok a)) ⊎ ((e : Error) × (x ≡ err e))
Result-cases (ok a) = inl (a, refl)
Result-cases (err e) = inr (e, refl)

pub bind-ok {ℓ κ} :
    {A : Type ℓ} {B : Type κ} (x : Result A) (f : A → Result B) (b : B)
    → x >>= f ≡ ok b
    → (a : A) × (x ≡ ok a) × (f a ≡ ok b)
bind-ok (ok a) f b h = (a, refl, h)
bind-ok (err e) f b h = cc
