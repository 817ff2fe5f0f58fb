-- ===== src/Client/GroupMetadata.antt =====
-- packages/cli/src/groupMetadata.ts: the extension with a group's metadata, five fields with their
-- lengths behind a version. UTF-8, hexadecimal digits and `trim` are the platform's, and parameters.
pub mod Fields
pub mod Administrators
pub mod Roundtrip
use cordn.Prelude.{
  ℕ, zero, suc, String, not, Option, none, some, get_or, List, [], ◌∷◌, ◌++◌, map, ◌+◌, ◌*◌, ◌/◌,
  ◌%◌, if◌then◌else◌, ltb, ◌==◌, length, take, drop, get_elem?, filter, find?, flat_map, string_eq,
  nat_eq,
}
use cordn.Result.{
  Result, ok, err, ◌>>=◌, value_out_of_range, unexpected_end_of_uint16, unexpected_end_of_field,
  missing_group_name, duplicate_admin_pubkeys, admin_pubkeys_length, unsupported_metadata_version,
  trailing_metadata, invalid_utf8,
}
use cordn.Core.LastResortKeyPackage.{Bytes, CustomExtension}
use cordn.Client.Pubkey.{normalize_pubkey}

abbrev pub cordn_group_metadata_extension_type : ℕ
cordn_group_metadata_extension_type = 49229

-- The name is absent only where the caller breaks the type.
pub record CordnGroupMetadata : Type 0 where
  pub name : Option String
  pub description : Option String
  pub admin_pubkeys : Option (List String)
  pub icon : Option String
  pub image_url : Option String

pub record NormalizedCordnGroupMetadata : Type 0 where
  pub version : ℕ
  pub name : String
  pub description : String
  pub admin_pubkeys : List String
  pub icon : String
  pub image_url : String

-- What the code calls of the platform.
pub record Platform : Type 0 where
  pub utf8_encode : String → Bytes
  pub utf8_decode : Bytes → Option String
  pub hex_to_bytes : String → Bytes
  pub bytes_to_hex : Bytes → String
  pub trim : String → String

unfoldable pub encode_uint16 : ℕ → Result Bytes
encode_uint16 value =
    if ltb 65535 value
    then err value_out_of_range
    else ok ((value / 256 % 256) ∷ (value % 256) ∷ [])

unfoldable pub decode_uint16 : Bytes → ℕ → Result ℕ
decode_uint16 bytes offset =
    if ltb (length bytes) (offset + 2)
    then err unexpected_end_of_uint16
    else ok (get_or (get_elem? bytes offset) 0 * 256 + get_or (get_elem? bytes (offset + 1)) 0)

unfoldable pub encode_field : Bytes → Result Bytes
encode_field bytes = encode_uint16 (length bytes) >>= λ size. ok (size ++ bytes)

unfoldable pub decode_field : Bytes → ℕ → Result (Bytes × ℕ)
decode_field bytes offset = decode_uint16 bytes offset >>= λ size.
    if ltb (length bytes) (offset + 2 + size)
    then err unexpected_end_of_field
    else ok (take size (drop (offset + 2) bytes), offset + 2 + size)

-- `pubkeys.map(normalizePubkey)`
unfoldable pub normalize_each : List String → Result (List String)
normalize_each [] = ok []
normalize_each (p ∷ ps) = normalize_pubkey p >>= λ q. normalize_each ps >>= λ qs. ok (q ∷ qs)

-- `new Set(values)`
unfoldable pub unique : List String → List String
unique [] = []
unique (v ∷ vs) = v ∷ filter (λ w. not (v == w)) (unique vs)

-- A value that is absent or empty is none.
unfoldable pub present : String → Option String
present text = if text == "" then none else some text

-- The bytes from `start`, in pieces of 32.
unfoldable pub pieces : ℕ → Bytes → List Bytes
pieces zero bytes = []
pieces (suc count) bytes = take 32 bytes ∷ pieces count (drop 32 bytes)

abbrev pub listed : List String → Option (List String)
listed [] = none
listed (p ∷ ps) = some (p ∷ ps)

-- The reading of the five fields, which ends at the last byte.
unfoldable pub decode_fields : Bytes → ℕ → Result (Bytes × Bytes × Bytes × Bytes × Bytes)
decode_fields bytes offset = decode_field bytes offset >>= λ name.
    decode_field bytes name.1 >>= λ description. decode_field bytes description.1 >>= λ admins.
    decode_field bytes admins.1 >>= λ icon. decode_field bytes icon.1 >>= λ image_url.
    if image_url.1 == length bytes
    then ok (name.0, description.0, admins.0, icon.0, image_url.0)
    else err trailing_metadata

module _ (platform : Platform) where
  unfoldable pub decode_utf8 : Bytes → Result String
  decode_utf8 bytes = elim (platform.utf8_decode bytes) [
    | none ↦ err invalid_utf8
    | some text ↦ ok text
  ]

  -- `normalizeAdminPubkeys`, to which absent keys and no keys are one
  unfoldable pub normalize_admin_pubkeys : List String → Result (List String)
  normalize_admin_pubkeys pubkeys =
      let normalized = filter (λ v. not (v == "")) (map platform.trim pubkeys) in
      if length (unique normalized) == length normalized
      then normalize_each normalized
      else err duplicate_admin_pubkeys

  unfoldable pub normalize_cordn_group_metadata :
      CordnGroupMetadata → Result NormalizedCordnGroupMetadata
  normalize_cordn_group_metadata metadata = elim metadata.name [
    | none ↦ err missing_group_name
    | some name ↦ normalize_admin_pubkeys (get_or metadata.admin_pubkeys []) >>= λ admins.
        ok (record {
          version = 1;
          name = name;
          description = get_or metadata.description "";
          admin_pubkeys = admins;
          icon = get_or metadata.icon "";
          image_url = get_or metadata.image_url "";
        })
  ]

  unfoldable pub encode_admin_pubkeys : List String → Bytes
  encode_admin_pubkeys = flat_map platform.hex_to_bytes

  unfoldable pub decode_admin_pubkeys : Bytes → Result (List String)
  decode_admin_pubkeys bytes =
      if length bytes % 32 == 0
      then normalize_admin_pubkeys (map platform.bytes_to_hex (pieces (length bytes / 32) bytes))
      else err admin_pubkeys_length

  unfoldable pub encode_normalized : NormalizedCordnGroupMetadata → Result Bytes
  encode_normalized m = encode_uint16 m.version >>= λ version.
      encode_field (platform.utf8_encode m.name) >>= λ name.
      encode_field (platform.utf8_encode m.description) >>= λ description.
      encode_field (encode_admin_pubkeys m.admin_pubkeys) >>= λ admins.
      encode_field (platform.utf8_encode m.icon) >>= λ icon.
      encode_field (platform.utf8_encode m.image_url) >>= λ image_url.
      ok (version ++ (name ++ (description ++ (admins ++ (icon ++ image_url)))))

  unfoldable pub encode_cordn_group_metadata : CordnGroupMetadata → Result Bytes
  encode_cordn_group_metadata metadata =
      normalize_cordn_group_metadata metadata >>= encode_normalized

  unfoldable pub decode_cordn_group_metadata : Bytes → Result CordnGroupMetadata
  decode_cordn_group_metadata bytes = decode_uint16 bytes 0 >>= λ version.
      let fields =
        decode_fields bytes 2
        >>= λ (name_bytes, description_bytes, admins_bytes, icon_bytes, image_url_bytes).
            decode_admin_pubkeys admins_bytes >>= λ admins. decode_utf8 name_bytes >>= λ name.
            decode_utf8 description_bytes >>= λ description. decode_utf8 icon_bytes >>= λ icon.
            decode_utf8 image_url_bytes >>= λ image_url. ok (record {
              name = some name;
              description = present description;
              admin_pubkeys = listed admins;
              icon = present icon;
              image_url = present image_url;
            }) in
      if version == 1 then fields else err unsupported_metadata_version

  unfoldable pub make_cordn_group_metadata_extension : CordnGroupMetadata → Result CustomExtension
  make_cordn_group_metadata_extension metadata = encode_cordn_group_metadata metadata >>= λ bytes.
      ok (record { extension_type = cordn_group_metadata_extension_type; extension_data = bytes })

  -- The extensions are those of the group's context.
  unfoldable pub get_cordn_group_metadata_extension :
      List CustomExtension → Result (Option CordnGroupMetadata)
  get_cordn_group_metadata_extension extensions =
      elim (find? (λ e. e.extension_type == cordn_group_metadata_extension_type) extensions) [
        | none ↦ ok none
        | some e ↦ decode_cordn_group_metadata e.extension_data >>= λ metadata. ok (some metadata)
      ]
