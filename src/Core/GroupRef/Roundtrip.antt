-- ===== src/Core/GroupRef/Roundtrip.antt =====
-- A group reference that can be encoded is decoded to itself.
use native.Mathlib.Decide.{ℕ_discrete}
use mathlib.Core.Option.{Option, get_or, none}
use mathlib.Core.Bool.{Bool}
use Prim.Native.String.{String}
use cordn.Prelude.{
  ℕ, ◌≡◌, refl, ap, ◌∙◌, inl, inr, true, some, List, [], ◌∷◌, ◌++◌, append-nil, arith,
  if◌then◌else◌, ◌==◌, Option-cases, ==-refl, length, All, string_eq, nat_eq,
}
use cordn.Prelude.Map
use cordn.Prelude.Map.{get-set}
use mathlib.Core.List.{map}
use mathlib.Core.Option
use cordn.Core.GroupRef.{
  is_some, Parsed, parsed, failed, out_of_fuel, Bytes, GroupRef, Codecs, tlv_gid, tlv_relay,
  tlv_coordinator_pubkey, group_ref_prefix, encode_entries, and_then, values_of, pubkey_entries,
  entries_of, encode_group_ref, decode_group_ref, check_gid, check_pubkey, check_relays, finish,
  decode_bech32, read_gid, read_pubkey, read_tlv, decode_relays, fatal_utf8_decode,
}
use cordn.Core.GroupRef.Values.{values, values_of-push_all, values-append}
use cordn.Core.GroupRef.Tlv.{push_all, parse_tlv-encode_entries}

-- What the code relies on of the codecs.
pub record IsLawful {Code : Type 0} (codecs : Codecs Code) : Type 0 where
  pub pubkey_bytes :
      (h : String) → codecs.is_hex_pubkey h ≡ true → length (codecs.hex_to_bytes h) ≡ 32
  pub pubkey_hex :
      (h : String) → codecs.is_hex_pubkey h ≡ true → codecs.bytes_to_hex (codecs.hex_to_bytes h) ≡ h
  pub bech32 :
      (prefix : String) (bytes : Bytes) (code : Code)
      → codecs.bech32_encode prefix bytes ≡ some code
      → codecs.bech32_decode code ≡ some (prefix, bytes)

-- The text is well formed: UTF-8 keeps it.
abbrev pub IsText : {Code : Type 0} → Codecs Code → String → Type 0
IsText codecs text = codecs.utf8_decode (codecs.utf8_encode text) ≡ some text

module _ {Code : Type 0} (codecs : Codecs Code) where
  values-relays :
      (type : ℕ) (relays : List String)
      → values type (map (λ relay. (tlv_relay, codecs.utf8_encode relay)) relays)
        ≡ (if tlv_relay == type then map codecs.utf8_encode relays else [])
  unfolding values
  values-relays type [] = ground arith
  values-relays type (r ∷ rs) = ground (arith, values-relays type rs)

  decode_relays-map :
      (relays : List String)
      → All (IsText codecs) relays
      → decode_relays codecs (map codecs.utf8_encode relays) ≡ parsed relays
  unfolding decode_relays fatal_utf8_decode and_then
  decode_relays-map [] t = refl
  decode_relays-map (r ∷ rs) t =
      rw (decode_relays, fatal_utf8_decode, t.0, decode_relays-map rs t.1)

  entries_of-values :
      (type : ℕ) (ref : GroupRef)
      → values_of type (push_all (entries_of codecs ref) [])
        ≡ (if tlv_relay == type then map codecs.utf8_encode ref.relays else [])
          ++ values type (pubkey_entries codecs ref.coordinator_pubkey)
          ++ values type ((tlv_gid, codecs.utf8_encode ref.gid) ∷ [])
  unfolding entries_of Map.get
  entries_of-values type ref =
      values_of-push_all type (entries_of codecs ref) []
      ∙ rw (values-append, values-append, values-relays) refl

  relay_values :
      (ref : GroupRef)
      → values_of tlv_relay (push_all (entries_of codecs ref) [])
        ≡ map codecs.utf8_encode ref.relays
  unfolding values pubkey_entries ℕ_discrete
  relay_values ref =
      rw (entries_of-values tlv_relay ref) (elim (Option-cases ref.coordinator_pubkey) [
        | inl e ↦ rw e (append-nil _ ∙ append-nil _)
        | inr (pubkey, e) ↦ rw e (append-nil _ ∙ append-nil _)
      ])

  pubkey_values :
      (ref : GroupRef)
      → values_of tlv_coordinator_pubkey (push_all (entries_of codecs ref) [])
        ≡ values tlv_coordinator_pubkey (pubkey_entries codecs ref.coordinator_pubkey)
  unfolding values ℕ_discrete
  pubkey_values ref = rw (entries_of-values tlv_coordinator_pubkey ref) (append-nil _)

  gid_values :
      (ref : GroupRef)
      → values_of tlv_gid (push_all (entries_of codecs ref) []) ≡ codecs.utf8_encode ref.gid ∷ []
  unfolding values pubkey_entries ℕ_discrete
  gid_values ref = rw (entries_of-values tlv_gid ref) (elim (Option-cases ref.coordinator_pubkey) [
    | inl e ↦ rw e refl
    | inr (pubkey, e) ↦ rw e refl
  ])

  read_gid-checked :
      (bytes : Bytes) (b : Bool) → check_gid bytes ≡ parsed b → read_gid (bytes ∷ []) ≡ parsed bytes
  unfolding check_gid read_gid
  read_gid-checked [] b h = cc
  read_gid-checked (x ∷ bytes) b h = refl

  read_pubkey-checked :
      (pubkey : Option String) (has : Bool)
      → IsLawful codecs
      → check_pubkey codecs pubkey ≡ parsed has
      → read_pubkey (values tlv_coordinator_pubkey (pubkey_entries codecs pubkey))
        ≡ parsed (Option.map codecs.hex_to_bytes pubkey)
  unfolding check_pubkey read_pubkey pubkey_entries values ℕ_discrete
  read_pubkey-checked none has l h = refl
  read_pubkey-checked (some pubkey) has l h =
      let fits : length (codecs.hex_to_bytes pubkey) ≡ 32 = l.pubkey_bytes pubkey (ground arith) in
      rw fits refl

  hex-checked :
      (pubkey : Option String) (has : Bool)
      → IsLawful codecs
      → check_pubkey codecs pubkey ≡ parsed has
      → Option.map codecs.bytes_to_hex (Option.map codecs.hex_to_bytes pubkey) ≡ pubkey
  unfolding check_pubkey
  hex-checked none has l h = refl
  hex-checked (some pubkey) has l h = ap some (l.pubkey_hex pubkey (ground arith))

  relays-checked :
      (relays : List String) (pubkey : Option String) (has b : Bool)
      → check_pubkey codecs pubkey ≡ parsed has
      → check_relays relays has ≡ parsed b
      → check_relays
          (map codecs.utf8_encode relays)
          (is_some (Option.map codecs.hex_to_bytes pubkey))
        ≡ parsed (is_some pubkey)
  unfolding check_pubkey check_relays
  relays-checked [] none has b p h = refl
  relays-checked [] (some pubkey) has b p h = refl
  relays-checked (r ∷ rs) none has b p h = ground arith
  relays-checked (r ∷ rs) (some pubkey) has b p h = refl

  and_then-parsed :
      {A B : Type 0} (x : Parsed A) (f : A → Parsed B) (b : B)
      → and_then x f ≡ parsed b
      → (a : A) × (x ≡ parsed a) × (f a ≡ parsed b)
  unfolding and_then
  and_then-parsed (parsed a) f b h = (a, refl, h)
  and_then-parsed (failed e) f b h = cc
  and_then-parsed out_of_fuel f b h = cc

  text_of :
      (text : String)
      → IsText codecs text
      → fatal_utf8_decode codecs (codecs.utf8_encode text) ≡ parsed text
  unfolding fatal_utf8_decode
  text_of text h = rw (h, fatal_utf8_decode)

  read_tlv-entries :
      (ref : GroupRef) (g has r : Bool)
      → IsLawful codecs
      → IsText codecs ref.gid
      → All (IsText codecs) ref.relays
      → check_gid (codecs.utf8_encode ref.gid) ≡ parsed g
      → check_pubkey codecs ref.coordinator_pubkey ≡ parsed has
      → check_relays ref.relays has ≡ parsed r
      → read_tlv codecs (push_all (entries_of codecs ref) []) ≡ parsed ref
  unfolding read_tlv and_then
  read_tlv-entries ref g has r l text texts hg hp hr =
      rw
        (
          gid_values ref,
          read_gid-checked _ g hg,
          pubkey_values ref,
          read_pubkey-checked ref.coordinator_pubkey has l hp,
          relay_values ref,
        )
        (rw (relays-checked ref.relays ref.coordinator_pubkey has r hp hr) (
          rw (text_of ref.gid text) (
            rw (decode_relays-map ref.relays texts)
              (rw (hex-checked ref.coordinator_pubkey has l hp) refl))))

  finish-some : (coded : Option Code) (code : Code) → finish coded ≡ parsed code → coded ≡ some code
  unfolding finish
  finish-some none code h = cc
  finish-some (some c) code h = ground arith

  decode_group_ref-entries :
      (ref : GroupRef) (code : Code) (bytes : Bytes)
      → IsLawful codecs
      → codecs.bech32_encode group_ref_prefix bytes ≡ some code
      → encode_entries (entries_of codecs ref) ≡ parsed bytes
      → decode_group_ref codecs code ≡ read_tlv codecs (push_all (entries_of codecs ref) [])
  unfolding decode_group_ref decode_bech32 and_then
  decode_group_ref-entries ref code bytes l coded e =
      rw (l.bech32 group_ref_prefix bytes code coded, decode_bech32)
        (rw (==-refl group_ref_prefix, parse_tlv-encode_entries (entries_of codecs ref) bytes e)
          refl)

  -- With lawful codecs, a group reference of well-formed texts that can be encoded is decoded to
  -- itself.
  pub decode_group_ref-encode_group_ref :
      (ref : GroupRef) (code : Code)
      → IsLawful codecs
      → IsText codecs ref.gid
      → All (IsText codecs) ref.relays
      → encode_group_ref codecs ref ≡ parsed code
      → decode_group_ref codecs code ≡ parsed ref
  unfolding encode_group_ref
  decode_group_ref-encode_group_ref ref code l text texts h =
      let (g, hg, h1) = and_then-parsed (check_gid (codecs.utf8_encode ref.gid)) _ code h in
      let (has, hp, h2) = and_then-parsed (check_pubkey codecs ref.coordinator_pubkey) _ code h1 in
      let (r, hr, h3) = and_then-parsed (check_relays ref.relays has) _ code h2 in
      let (bytes, e, h4) = and_then-parsed (encode_entries (entries_of codecs ref)) _ code h3 in
      decode_group_ref-entries ref code bytes l
        (finish-some (codecs.bech32_encode group_ref_prefix bytes) code h4) e
      ∙ read_tlv-entries ref g has r l text texts hg hp hr
