-- ===== src/Core/GroupRef.antt =====
-- Group references (packages/core/src/groupRef.ts): TLV entries under bech32. A byte is a natural
-- number. UTF-8, hex and bech32 are the platform's, @noble/hashes' and @scure/base's, and parameters.
pub mod Tlv
pub mod Values
pub mod Roundtrip
use mathlib.Core.List.{map}
use cordn.Prelude.{
  ℕ, zero, suc, String, Bool, true, false, Option, none, some, get_or, List, [], ◌∷◌, ◌++◌,
  if◌then◌else◌, ltb, ◌==◌, length, take, drop, string_eq, nat_eq,
}
use cordn.Prelude.Map
use mathlib.Core.Option
use cordn.Prelude.Map.{Map}

pub data GroupRefError : Type 0 where
  empty_gid gid_too_long invalid_pubkey relays_without_pubkey : GroupRefError
  entry_too_long truncated_header truncated_value : GroupRefError
  missing_gid multiple_gids multiple_pubkeys pubkey_length : GroupRefError
  invalid_utf8 malformed_bech32 wrong_prefix code_too_long : GroupRefError

pub data Parsed (A : Type 0) : Type 0 where
  parsed : A → Parsed A
  failed : GroupRefError → Parsed A
  out_of_fuel : Parsed A

abbrev pub Bytes : Type 0
Bytes = List ℕ

abbrev pub tlv_gid : ℕ
tlv_gid = 0

abbrev pub tlv_coordinator_pubkey : ℕ
tlv_coordinator_pubkey = 1

abbrev pub tlv_relay : ℕ
tlv_relay = 2

-- The values of each type, in the order in which they stand.
abbrev pub Tlv : Type 0
Tlv = Map ℕ (List Bytes)

unfoldable pub encode_tlv_entry : ℕ → Bytes → Parsed Bytes
encode_tlv_entry type value =
    if ltb 255 (length value) then failed entry_too_long else parsed (type ∷ length value ∷ value)

-- The loops of `encodeGroupRef` over entries, with the concatenation.
unfoldable pub encode_entries : List (ℕ × Bytes) → Parsed Bytes
encode_entries [] = parsed []
encode_entries ((type, value) ∷ entries) = elim (encode_tlv_entry type value) [
  | parsed entry ↦ elim (encode_entries entries) [
    | parsed rest ↦ parsed (entry ++ rest)
    | failed e ↦ failed e
    | out_of_fuel ↦ out_of_fuel
  ]
  | failed e ↦ failed e
  | out_of_fuel ↦ out_of_fuel
]

-- `bucket.push(value)`, with the bucket created where there is none
unfoldable pub push_value : ℕ → Bytes → Tlv → Tlv
push_value type value tlv = Map.set type (get_or (Map.get type tlv) [] ++ value ∷ []) tlv

-- The loop of `parseTlv`; the bytes are those from `offset` on.
unfoldable pub parse_from : ℕ → Bytes → Tlv → Parsed Tlv
parse_from fuel [] tlv = parsed tlv
parse_from zero (b ∷ data_) tlv = out_of_fuel
parse_from (suc fuel) (type ∷ []) tlv = failed truncated_header
parse_from (suc fuel) (type ∷ size ∷ data_) tlv =
    let rest = parse_from fuel (drop size data_) (push_value type (take size data_) tlv) in
    if ltb (length data_) size then failed truncated_value else rest

-- As many steps as there are bytes are enough.
unfoldable pub parse_tlv : Bytes → Parsed Tlv
parse_tlv data_ = parse_from (length data_) data_ []

unfoldable pub and_then : {A B : Type 0} → Parsed A → (A → Parsed B) → Parsed B
and_then (parsed a) f = f a
and_then (failed e) f = failed e
and_then out_of_fuel f = out_of_fuel

-- Absent relays and no relays are one.
pub record GroupRef : Type 0 where
  pub gid : String
  pub coordinator_pubkey : Option String
  pub relays : List String

-- What the code calls outside: UTF-8, hex and bech32. A `Code` is a bech32 string. `is_hex_pubkey`
-- is the test for 64 lowercase hex digits.
pub record Codecs (Code : Type 0) : Type 0 where
  pub utf8_encode : String → Bytes
  pub utf8_decode : Bytes → Option String
  pub is_hex_pubkey : String → Bool
  pub hex_to_bytes : String → Bytes
  pub bytes_to_hex : Bytes → String
  pub bech32_encode : String → Bytes → Option Code
  pub bech32_decode : Code → Option (String × Bytes)

abbrev pub group_ref_prefix : String
group_ref_prefix = "cordn"

unfoldable pub check_relays : {A : Type 0} → List A → Bool → Parsed Bool
check_relays [] has_pubkey = parsed has_pubkey
check_relays (relay ∷ relays) has_pubkey =
    if has_pubkey then parsed true else failed relays_without_pubkey

unfoldable pub check_gid : Bytes → Parsed Bool
check_gid [] = failed empty_gid
check_gid (b ∷ bytes) = if ltb 255 (length (b ∷ bytes)) then failed gid_too_long else parsed true

unfoldable pub finish : {Code : Type 0} → Option Code → Parsed Code
finish none = failed code_too_long
finish (some code) = parsed code

unfoldable pub read_gid : List Bytes → Parsed Bytes
read_gid [] = failed missing_gid
read_gid ([] ∷ []) = failed empty_gid
read_gid ((b ∷ bytes) ∷ []) = parsed (b ∷ bytes)
read_gid (value ∷ other ∷ values) = failed multiple_gids

unfoldable pub read_pubkey : List Bytes → Parsed (Option Bytes)
read_pubkey [] = parsed none
read_pubkey (value ∷ []) = if length value == 32 then parsed (some value) else failed pubkey_length
read_pubkey (value ∷ other ∷ values) = failed multiple_pubkeys

abbrev pub is_some : {A : Type 0} → Option A → Bool
is_some none = false
is_some (some a) = true

abbrev pub values_of : ℕ → Tlv → List Bytes
values_of type tlv = get_or (Map.get type tlv) []

module _ {Code : Type 0} (codecs : Codecs Code) where
  unfoldable pub pubkey_entries : Option String → List (ℕ × Bytes)
  pubkey_entries none = []
  pubkey_entries (some pubkey) = (tlv_coordinator_pubkey, codecs.hex_to_bytes pubkey) ∷ []

  unfoldable pub entries_of : GroupRef → List (ℕ × Bytes)
  entries_of ref =
      map (λ relay. (tlv_relay, codecs.utf8_encode relay)) ref.relays
      ++ pubkey_entries ref.coordinator_pubkey
      ++ (tlv_gid, codecs.utf8_encode ref.gid) ∷ []

  -- The checks of `encodeGroupRef`, in order.
  unfoldable pub check_pubkey : Option String → Parsed Bool
  check_pubkey none = parsed false
  check_pubkey (some pubkey) =
      if codecs.is_hex_pubkey pubkey then parsed true else failed invalid_pubkey

  unfoldable pub encode_group_ref : GroupRef → Parsed Code
  encode_group_ref ref = and_then (check_gid (codecs.utf8_encode ref.gid)) (λ _.
      and_then (check_pubkey ref.coordinator_pubkey) (λ has_pubkey.
        and_then (check_relays ref.relays has_pubkey) (λ _.
          and_then (encode_entries (entries_of ref))
            (λ data_. finish (codecs.bech32_encode group_ref_prefix data_)))))

  unfoldable pub decode_bech32 : Code → Parsed (String × Bytes)
  decode_bech32 code = elim (codecs.bech32_decode code) [
    | some decoded ↦ parsed decoded
    | none ↦ failed malformed_bech32
  ]

  unfoldable pub fatal_utf8_decode : Bytes → Parsed String
  fatal_utf8_decode bytes = elim (codecs.utf8_decode bytes) [
    | some text ↦ parsed text
    | none ↦ failed invalid_utf8
  ]

  unfoldable pub decode_relays : List Bytes → Parsed (List String)
  decode_relays [] = parsed []
  decode_relays (value ∷ values) =
      and_then (fatal_utf8_decode value)
        (λ relay. and_then (decode_relays values) (λ relays. parsed (relay ∷ relays)))

  unfoldable pub read_tlv : Tlv → Parsed GroupRef
  read_tlv tlv = and_then (read_gid (values_of tlv_gid tlv)) (λ gid_bytes.
      and_then (read_pubkey (values_of tlv_coordinator_pubkey tlv)) (λ pubkey_bytes.
        and_then (check_relays (values_of tlv_relay tlv) (is_some pubkey_bytes)) (λ _.
          and_then (fatal_utf8_decode gid_bytes) (λ gid.
            and_then (decode_relays (values_of tlv_relay tlv)) (λ relays. parsed (record {
              gid = gid;
              coordinator_pubkey = Option.map codecs.bytes_to_hex pubkey_bytes;
              relays = relays;
            }))))))

  unfoldable pub decode_group_ref : Code → Parsed GroupRef
  decode_group_ref code = and_then (decode_bech32 code) (λ decoded.
      if decoded.0 == group_ref_prefix
      then and_then (parse_tlv decoded.1) read_tlv
      else failed wrong_prefix)
