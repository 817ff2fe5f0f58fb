-- ===== src/Tests/Codecs.antt =====
-- The mark of a last-resort key package and the metadata extension on small inputs.
use cordn.Prelude.{
  ℕ_discrete, String, ◌≡◌, refl, Bool, true, Option, none, some, [], ◌∷◌, ◌++◌, arith,
  if◌then◌else◌, ◌==◌, filter, flat_map, string_eq, nat_eq, String_discrete,
}
use cordn.Prelude.Int.{pos}
use cordn.Result.{Result, ok, err, duplicate_admin_pubkeys}
use cordn.Core.LastResortKeyPackage.{
  CustomExtension, app_data_dictionary_extension_type, encode_uint16, encode_var_bytes,
  decode_var_bytes, is_last_resort_key_package_extension, is_last_resort_key_package,
  ensure_last_resort_key_package_extension, last_resort_key_package_extension, Bytes,
}
use cordn.Core.LastResortKeyPackage.Roundtrip.{decode_var_bytes-encode_var_bytes}
use cordn.Core.LastResortKeyPackage.Scan.{looping}
use cordn.Core.LastResortKeyPackage.Marking.{
  ensure-marks, is_last_resort_key_package-IsDone, is_last_resort_key_package_extension-looping,
}
use cordn.Client.Pubkey.{is_hex, lower_hex, normalize_pubkey}
use cordn.Client.GroupMetadata.{
  CordnGroupMetadata, NormalizedCordnGroupMetadata, Platform, normalize_each, unique, encode_field,
  encode_admin_pubkeys, encode_normalized, normalize_admin_pubkeys, normalize_cordn_group_metadata,
  encode_cordn_group_metadata, decode_cordn_group_metadata,
}
use cordn.Client.GroupMetadata as GroupMetadata
use cordn.Client.GroupMetadata.Roundtrip.{decode_cordn_group_metadata-encode}

-- The data of the extension is the dictionary with one empty component.
marker_dictionary : encode_var_bytes (encode_uint16 4 ++ (0 ∷ [])) ≡ ok (3 ∷ 0 ∷ 4 ∷ 0 ∷ [])
unfolding encode_var_bytes encode_uint16
marker_dictionary = refl

decode_var_bytes-encode_var_bytes_example :
    decode_var_bytes (9 ∷ 9 ∷ 2 ∷ 5 ∷ 6 ∷ 7 ∷ []) (pos 2) ≡ ok (5 ∷ 6 ∷ [], pos 5)
unfolding encode_var_bytes
decode_var_bytes-encode_var_bytes_example =
    decode_var_bytes-encode_var_bytes (9 ∷ 9 ∷ []) (5 ∷ 6 ∷ []) (2 ∷ 5 ∷ 6 ∷ []) (7 ∷ []) refl

abbrev other_extension : CustomExtension
other_extension = record { extension_type = 7; extension_data = 1 ∷ [] }

ensure-marks_example :
    (is_last_resort_key_package 1 (other_extension ∷ last_resort_key_package_extension ∷ [])
      ≡ some (ok true))
    × (ensure_last_resort_key_package_extension 1
          (other_extension ∷ last_resort_key_package_extension ∷ [])
        ≡ some (ok (other_extension ∷ last_resort_key_package_extension ∷ [])))
unfolding ensure_last_resort_key_package_extension is_last_resort_key_package
    is_last_resort_key_package_extension ℕ_discrete
ensure-marks_example =
    ensure-marks 0 (other_extension ∷ []) (other_extension ∷ last_resort_key_package_extension ∷ [])
      refl

is_last_resort_key_package-IsDone_example :
    (r : Result Bool) × (is_last_resort_key_package 5
        (other_extension ∷ last_resort_key_package_extension ∷ [])
      ≡ some r)
is_last_resort_key_package-IsDone_example =
    is_last_resort_key_package-IsDone 4 (other_extension ∷ last_resort_key_package_extension ∷ [])
      (omega arith)

is_last_resort_key_package_extension-looping_example :
    is_last_resort_key_package_extension 1000 (record {
      extension_type = app_data_dictionary_extension_type;
      extension_data = 12 ∷ looping 0 5 7 1 2 3 (9 ∷ 9 ∷ []);
    })
    ≡ none
unfolding encode_var_bytes
is_last_resort_key_package_extension-looping_example =
    is_last_resort_key_package_extension-looping 1000 0 5 7 1 2 3 (9 ∷ 9 ∷ [])
      (12 ∷ looping 0 5 7 1 2 3 (9 ∷ 9 ∷ [])) (omega arith) (λ e. omega (arith, e)) refl

abbrev lower_key : String
lower_key = "aaaaaaaaaaaaaaaaaaaaaaaaaaaaaaaaaaaaaaaaaaaaaaaaaaaaaaaaaaaaaaaa"

abbrev upper_key : String
upper_key = "AAAAAAAAAAAAAAAAAAAAAAAAAAAAAAAAAAAAAAAAAAAAAAAAAAAAAAAAAAAAAAAA"

abbrev key_bytes : Bytes
key_bytes =
    170 ∷ 170 ∷ 170 ∷ 170 ∷ 170 ∷ 170 ∷ 170 ∷ 170 ∷ 170 ∷ 170 ∷ 170 ∷ 170 ∷ 170 ∷ 170 ∷ 170 ∷ 170
    ∷ 170 ∷ 170 ∷ 170 ∷ 170 ∷ 170 ∷ 170 ∷ 170 ∷ 170 ∷ 170 ∷ 170 ∷ 170 ∷ 170 ∷ 170 ∷ 170 ∷ 170 ∷ 170
    ∷ []

abbrev text_of : Bytes → Option String
text_of [] = some ""
text_of (b ∷ bytes) = some "g"

-- One text and one key are known to it.
abbrev platform : Platform
platform = record {
  utf8_encode = λ t. if t == "" then [] else 103 ∷ [];
  utf8_decode = text_of;
  hex_to_bytes = λ q. key_bytes;
  bytes_to_hex = λ bytes. lower_key;
  trim = λ t. t;
}

-- One administrator twice, in upper case and in lower case.
abbrev metadata : CordnGroupMetadata
metadata = record {
  name = some "g";
  description = none;
  admin_pubkeys = some (upper_key ∷ lower_key ∷ []);
  icon = none;
  image_url = none;
}

abbrev normalized : NormalizedCordnGroupMetadata
normalized = record {
  version = 1;
  name = "g";
  description = "";
  admin_pubkeys = lower_key ∷ lower_key ∷ [];
  icon = "";
  image_url = "";
}

abbrev encoded : Bytes
encoded = 0 ∷ 1 ∷ 0 ∷ 1 ∷ 103 ∷ 0 ∷ 0 ∷ 0 ∷ 64 ∷ (key_bytes ++ (key_bytes ++ (0 ∷ 0 ∷ 0 ∷ 0 ∷ [])))

normalize_metadata : normalize_cordn_group_metadata platform metadata ≡ ok normalized
unfolding normalize_cordn_group_metadata normalize_admin_pubkeys normalize_each normalize_pubkey
    unique filter is_hex lower_hex String_discrete ℕ_discrete
normalize_metadata = refl

encode_metadata : encode_cordn_group_metadata platform metadata ≡ ok encoded
unfolding encode_cordn_group_metadata encode_normalized encode_field GroupMetadata.encode_uint16
    encode_admin_pubkeys flat_map String_discrete ℕ_discrete
encode_metadata = rw normalize_metadata refl

-- The metadata is encoded, and what is encoded cannot be decoded.
decode_cordn_group_metadata-encode_example :
    decode_cordn_group_metadata platform encoded ≡ err duplicate_admin_pubkeys
unfolding unique filter String_discrete ℕ_discrete
decode_cordn_group_metadata-encode_example =
    decode_cordn_group_metadata-encode platform metadata normalized encoded normalize_metadata
      (record { name = refl; description = refl; icon = refl; image_url = refl })
      (
        record { bytes = refl; hex = refl; trim = refl },
        (record { bytes = refl; hex = refl; trim = refl }, tt),
      )
      encode_metadata
