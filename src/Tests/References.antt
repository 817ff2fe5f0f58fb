-- ===== src/Tests/References.antt =====
-- Group references.
use cordn.Prelude.{
  String, ◌≡◌, refl, sym, Option, some, [], ◌∷◌, ◌++◌, if◌then◌else◌, ◌==◌, eq_of_==, string_eq,
  nat_eq, String_discrete,
}
use native.Mathlib.Decide.{ℕ_discrete}
use cordn.Core.GroupRef.{
  parsed, Bytes, Codecs, GroupRef, encode_group_ref, decode_group_ref, encode_entries,
  encode_tlv_entry, entries_of, pubkey_entries, and_then, check_gid, check_pubkey, check_relays,
  finish, parse_tlv,
}
use cordn.Core.GroupRef.Tlv.{IsDone, parse_tlv-IsDone}
use cordn.Core.GroupRef.Roundtrip.{IsLawful, decode_group_ref-encode_group_ref}

abbrev key : String
key = "ab"

abbrev key_bytes : Bytes
key_bytes =
    1 ∷ 2 ∷ 3 ∷ 4 ∷ 5 ∷ 6 ∷ 7 ∷ 8 ∷ 1 ∷ 2 ∷ 3 ∷ 4 ∷ 5 ∷ 6 ∷ 7 ∷ 8 ∷ 1 ∷ 2 ∷ 3 ∷ 4 ∷ 5 ∷ 6 ∷ 7 ∷ 8
    ∷ 1 ∷ 2 ∷ 3 ∷ 4 ∷ 5 ∷ 6 ∷ 7 ∷ 8 ∷ []

-- Three texts are known to these codecs, and a code keeps what it is made of.
abbrev text_bytes : String → Bytes
text_bytes text =
    if text == "g" then 103 ∷ [] else if text == "r1" then 114 ∷ 49 ∷ [] else 114 ∷ 50 ∷ []

abbrev bytes_text : Bytes → Option String
bytes_text (x ∷ y ∷ bytes) = if y == 49 then some "r1" else some "r2"
bytes_text bytes = some "g"

abbrev codecs : Codecs (String × Bytes)
codecs = record {
  utf8_encode = text_bytes;
  utf8_decode = bytes_text;
  is_hex_pubkey = λ h. h == key;
  hex_to_bytes = λ h. key_bytes;
  bytes_to_hex = λ bytes. key;
  bech32_encode = λ prefix bytes. some (prefix, bytes);
  bech32_decode = λ code. some code;
}

codecs-IsLawful : IsLawful codecs
codecs-IsLawful = record {
  pubkey_bytes = λ h e. refl;
  pubkey_hex = λ h e. sym (eq_of_== h key e);
  bech32 = λ prefix bytes code e. sym e;
}

abbrev reference : GroupRef
reference = record { gid = "g"; coordinator_pubkey = some key; relays = "r1" ∷ "r2" ∷ [] }

abbrev reference_bytes : Bytes
reference_bytes = 2 ∷ 2 ∷ 114 ∷ 49 ∷ 2 ∷ 2 ∷ 114 ∷ 50 ∷ 1 ∷ 32 ∷ key_bytes ++ 0 ∷ 1 ∷ 103 ∷ []

decode_group_ref-encode_group_ref_example :
    decode_group_ref codecs ("cordn", reference_bytes) ≡ parsed reference
unfolding encode_group_ref encode_entries encode_tlv_entry entries_of pubkey_entries and_then
    check_gid check_pubkey check_relays finish String_discrete ℕ_discrete
decode_group_ref-encode_group_ref_example =
    decode_group_ref-encode_group_ref codecs reference ("cordn", reference_bytes) codecs-IsLawful
      refl (refl, (refl, tt)) refl

parse_tlv-IsDone_example : IsDone (parse_tlv (0 ∷ 9 ∷ 103 ∷ []))
parse_tlv-IsDone_example = parse_tlv-IsDone (0 ∷ 9 ∷ 103 ∷ [])
