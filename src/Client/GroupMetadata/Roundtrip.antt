-- ===== src/Client/GroupMetadata/Roundtrip.antt =====
-- Metadata that is encoded is decoded, unless two of its administrators' keys differ in case only.
use Prim.Native.Nat.{ℕ, ◌%◌, ◌/◌}
use cordn.Prelude.{
  ℕ_discrete, String, ◌≡◌, refl, sym, ◌∙◌, subst, inl, inr, some, get_or, [], ◌∷◌, ◌++◌, append-nil,
  arith, ◌+◌, ◌≤◌, if◌then◌else◌, ◌==◌, Bool-cases, Option-cases, length, drop, get_elem?, All,
  length-append, string_eq, nat_eq,
}
use cordn.Result.{ok, err, bind-ok, duplicate_admin_pubkeys}
use cordn.Core.LastResortKeyPackage.{Bytes}
use cordn.Client.Pubkey.Normal.{IsNormalized}
use cordn.Client.GroupMetadata.{
  CordnGroupMetadata, NormalizedCordnGroupMetadata, Platform, unique, present, listed, decode_utf8,
  normalize_admin_pubkeys, normalize_cordn_group_metadata, encode_admin_pubkeys, encode_normalized,
  encode_cordn_group_metadata, decode_fields, decode_cordn_group_metadata, decode_uint16,
  encode_uint16,
}
use cordn.Client.GroupMetadata.Fields.{framed, decode_field-framed, encode_field-framed}
use cordn.Client.GroupMetadata.Administrators.{
  IsKept, decode_admin_pubkeys-encode, normalize_admin_pubkeys-All,
}

-- The texts are well formed: UTF-8 keeps them.
pub record IsText (platform : Platform) (m : NormalizedCordnGroupMetadata) : Type 0 where
  pub name : platform.utf8_decode (platform.utf8_encode m.name) ≡ some m.name
  pub description : platform.utf8_decode (platform.utf8_encode m.description) ≡ some m.description
  pub icon : platform.utf8_decode (platform.utf8_encode m.icon) ≡ some m.icon
  pub image_url : platform.utf8_decode (platform.utf8_encode m.image_url) ≡ some m.image_url

-- What is decoded: an empty text and no administrators are absent.
abbrev pub restored : NormalizedCordnGroupMetadata → CordnGroupMetadata
restored m = record {
  name = some m.name;
  description = present m.description;
  admin_pubkeys = listed m.admin_pubkeys;
  icon = present m.icon;
  image_url = present m.image_url;
}

-- The reading of the fields of an encoding.
decode_fields-framed :
    (bytes a b c d e : Bytes) (version : ℕ)
    → bytes
      ≡ (version / 256 % 256)
        ∷ (version % 256)
        ∷ (framed a ++ (framed b ++ (framed c ++ (framed d ++ framed e))))
    → length a ≤ 65535
    → length b ≤ 65535
    → length c ≤ 65535
    → length d ≤ 65535
    → length e ≤ 65535
    → decode_fields bytes 2 ≡ ok (a, b, c, d, e)
unfolding decode_fields drop framed ℕ_discrete
decode_fields-framed bytes a b c d e version whole sa sb sc sd se =
    let after = framed d ++ framed e in
    let (ra, la) =
      decode_field-framed 2 bytes a (framed b ++ (framed c ++ after)) sa (rw whole refl) in
    let (rb, lb) = decode_field-framed (2 + 2 + length a) bytes b (framed c ++ after) sb la in
    let (rc, lc) = decode_field-framed (2 + 2 + length a + 2 + length b) bytes c after sc lb in
    let (rd, ld) =
      decode_field-framed (2 + 2 + length a + 2 + length b + 2 + length c) bytes d (framed e) sd
        lc in
    let (re, le) =
      decode_field-framed (2 + 2 + length a + 2 + length b + 2 + length c + 2 + length d) bytes e []
        se (ld ∙ sym (append-nil (framed e))) in
    let size : length bytes
        ≡ 2 + 2 + length a + 2 + length b + 2 + length c + 2 + length d + 2 + length e =
      rw whole (
        omega (
          arith,
          length-append (framed a) (framed b ++ (framed c ++ after)),
          length-append (framed b) (framed c ++ after),
          length-append (framed c) after,
          length-append (framed d) (framed e),
        )) in
    rw (ra, rb, rc, rd, re, size) (ground arith)

module _ (platform : Platform) where
  encode_normalized-framed :
      (m : NormalizedCordnGroupMetadata) (bytes : Bytes)
      → m.version ≡ 1
      → encode_normalized platform m ≡ ok bytes
      → decode_fields bytes 2
          ≡ ok (
            platform.utf8_encode m.name,
            platform.utf8_encode m.description,
            encode_admin_pubkeys platform m.admin_pubkeys,
            platform.utf8_encode m.icon,
            platform.utf8_encode m.image_url,
          )
        × (decode_uint16 bytes 0 ≡ ok 1)
  unfolding encode_normalized encode_uint16 decode_uint16 get_elem? framed ℕ_discrete
  encode_normalized-framed m bytes version h =
      let (sa, h1) = encode_field-framed (platform.utf8_encode m.name) _ bytes (rw version at h) in
      let (sb, h2) = encode_field-framed (platform.utf8_encode m.description) _ bytes h1 in
      let (sc, h3) =
        encode_field-framed (encode_admin_pubkeys platform m.admin_pubkeys) _ bytes h2 in
      let (sd, h4) = encode_field-framed (platform.utf8_encode m.icon) _ bytes h3 in
      let (se, h5) = encode_field-framed (platform.utf8_encode m.image_url) _ bytes h4 in
      let whole : (0 ∷ 1 ∷ [])
            ++ (framed (platform.utf8_encode m.name)
                ++ (framed (platform.utf8_encode m.description)
                    ++ (framed (encode_admin_pubkeys platform m.admin_pubkeys)
                        ++ (framed (platform.utf8_encode m.icon)
                            ++ framed (platform.utf8_encode m.image_url)))))
          ≡ bytes =
        ground arith in
      (
        decode_fields-framed bytes _ _ _ _ _ 1 (sym whole) sa sb sc sd se,
        rw (← whole) (ground arith),
      )

  normalize-IsNormalized :
      (metadata : CordnGroupMetadata) (m : NormalizedCordnGroupMetadata)
      → normalize_cordn_group_metadata platform metadata ≡ ok m
      → (m.version ≡ 1) × All IsNormalized m.admin_pubkeys
  unfolding normalize_cordn_group_metadata
  normalize-IsNormalized metadata m h = elim (Option-cases metadata.name) [
    | inl e ↦ absurd (ground arith)
    | inr (name, e) ↦
        let (admins, f, g) =
          bind-ok (normalize_admin_pubkeys platform (get_or metadata.admin_pubkeys [])) _ m
            (rw e at h) in
        let same : admins ≡ m.admin_pubkeys = ground arith in
        (
          ground arith,
          subst (All IsNormalized) same (normalize_admin_pubkeys-All platform _ admins f),
        )
  ]

  decode_utf8-text :
      (bytes : Bytes) (text : String)
      → platform.utf8_decode bytes ≡ some text
      → decode_utf8 platform bytes ≡ ok text
  unfolding decode_utf8
  decode_utf8-text bytes text h = rw (h, decode_utf8) refl

  -- Metadata of well-formed texts that is encoded is decoded to itself, with administrators' keys
  -- in lower case and with empty fields absent, if no two of these keys are equal then. If two are,
  -- as where they differ in case only, the encoding is refused when it is decoded.
  pub decode_cordn_group_metadata-encode :
      (metadata : CordnGroupMetadata) (m : NormalizedCordnGroupMetadata) (bytes : Bytes)
      → normalize_cordn_group_metadata platform metadata ≡ ok m
      → IsText platform m
      → All (IsKept platform) m.admin_pubkeys
      → encode_cordn_group_metadata platform metadata ≡ ok bytes
      → decode_cordn_group_metadata platform bytes ≡ (
          if length (unique m.admin_pubkeys) == length m.admin_pubkeys
          then ok (restored m)
          else err duplicate_admin_pubkeys)
  unfolding encode_cordn_group_metadata decode_cordn_group_metadata ℕ_discrete
  decode_cordn_group_metadata-encode metadata m bytes normal text kept h =
      let (version, keys) = normalize-IsNormalized metadata m normal in
      let e : encode_normalized platform m ≡ ok bytes = ground arith in
      let (fields, first) = encode_normalized-framed m bytes version e in
      rw (first, fields, decode_admin_pubkeys-encode platform m.admin_pubkeys keys kept)
        (elim (Bool-cases (length (unique m.admin_pubkeys) == length m.admin_pubkeys)) [
          | inl single ↦
              rw
                (
                  single,
                  decode_utf8-text _ m.name text.name,
                  decode_utf8-text _ m.description text.description,
                  decode_utf8-text _ m.icon text.icon,
                  decode_utf8-text _ m.image_url text.image_url,
                )
                refl
          | inr double ↦ rw double refl
        ])
