-- ===== src/Core/LastResortKeyPackage.antt =====
-- The mark of a last-resort key package (packages/core/src/lastResortKeyPackage.ts): an extension
-- that holds a dictionary of components. A byte is a natural number below 256. Offsets are integers,
-- since `decodeVarBytes` computes a length with the shifts of 32 bits, which may make it negative.
pub mod Roundtrip
pub mod Scan
pub mod Marking
use cordn.Prelude.{
  ℕ, zero, suc, min, Bool, true, false, ◌&&◌, Option, none, some, get_or, List, [], ◌∷◌, ◌++◌, ◌+◌,
  ◌-◌, ◌*◌, ◌/◌, ◌%◌, ◌^◌, if◌then◌else◌, ltb, ◌==◌, length, take, drop, get_elem?, string_eq,
  nat_eq,
}
use cordn.Prelude.Int.{ℤ, pos, negsuc, ◌+ℤ◌, is_above, is_nat}
use cordn.Result.{
  Result, ok, err, dictionary_entry_too_large, unexpected_end_of_dictionary,
  unexpected_end_of_length, unexpected_end_of_component, trailing_dictionary_data,
}

abbrev pub Bytes : Type 0
Bytes = List ℕ

abbrev pub app_data_dictionary_extension_type : ℕ
app_data_dictionary_extension_type = 6

abbrev pub last_resort_key_package_component_id : ℕ
last_resort_key_package_component_id = 4

pub record CustomExtension : Type 0 where
  pub extension_type : ℕ
  pub extension_data : Bytes

-- `bytes[offset]`: what stands outside the array counts as 0 in the operations on bits.
unfoldable pub byte_at : Bytes → ℤ → ℕ
byte_at bytes (pos i) = get_or (get_elem? bytes i) 0
byte_at bytes (negsuc i) = 0

-- An end of `bytes.slice`, counted from the end of the array where it is negative.
unfoldable pub slice_index : Bytes → ℤ → ℕ
slice_index bytes (pos i) = min i (length bytes)
slice_index bytes (negsuc i) = length bytes - suc i

unfoldable pub slice : Bytes → ℤ → ℤ → Bytes
slice bytes start end =
    let from = slice_index bytes start in take (slice_index bytes end - from) (drop from bytes)

unfoldable pub encode_uint16 : ℕ → Bytes
encode_uint16 value = (value / 256 % 256) ∷ (value % 256) ∷ []

unfoldable pub decode_uint16 : Bytes → ℤ → Result ℕ
decode_uint16 bytes offset =
    if is_above (length bytes) (offset +ℤ pos 2)
    then err unexpected_end_of_dictionary
    else ok (byte_at bytes offset * 256 + byte_at bytes (offset +ℤ pos 1))

unfoldable pub encode_var_bytes : Bytes → Result Bytes
encode_var_bytes bytes =
    let n = length bytes in
    if ltb n 64
    then ok (n ∷ bytes)
    else if ltb n 16384
    then ok ((64 + n / 256 % 64) ∷ (n % 256) ∷ bytes)
    else if ltb n 1073741824
    then ok ((128 + n / 16777216 % 64) ∷ (n / 65536 % 256) ∷ (n / 256 % 256) ∷ (n % 256) ∷ bytes)
    else err dictionary_entry_too_large

-- The loop over the other bytes of the length. The shift drops what leaves 32 bits.
unfoldable pub read_length : Bytes → ℤ → ℕ → ℕ → ℕ
read_length bytes offset zero n = n
read_length bytes offset (suc count) n =
    read_length bytes (offset +ℤ pos 1) count ((n * 256 + byte_at bytes offset) % 4294967296)

-- The number that 32 bits stand for.
unfoldable pub signed : ℕ → ℤ
signed n = if ltb n 2147483648 then pos n else negsuc (4294967295 - n)

-- `1 << ((firstByte & 0xc0) >> 6)`
unfoldable pub length_field_size : ℕ → ℕ
length_field_size first_byte = 2 ^ (first_byte / 64 % 4)

unfoldable pub decode_var_bytes : Bytes → ℤ → Result (Bytes × ℤ)
decode_var_bytes bytes offset =
    let first_byte = byte_at bytes offset in
    let size = length_field_size first_byte in
    let start = offset +ℤ pos size in
    let end = start +ℤ signed (read_length bytes (offset +ℤ pos 1) (size - 1) (first_byte % 64)) in
    if is_above (length bytes) (offset +ℤ pos 1)
    then err unexpected_end_of_dictionary
    else if is_above (length bytes) start
    then err unexpected_end_of_length
    else if is_above (length bytes) end
    then err unexpected_end_of_component
    else ok (slice bytes start end, end)

abbrev pub last_resort_key_package_extension : CustomExtension
last_resort_key_package_extension = record {
  extension_type = app_data_dictionary_extension_type;
  extension_data = 3 ∷ 0 ∷ 4 ∷ 0 ∷ [];
}

-- A component of the dictionary: its id, its data and where the next one starts.
unfoldable pub decode_component : Bytes → ℤ → Result (ℕ × Bytes × ℤ)
decode_component dictionary offset = elim (decode_uint16 dictionary offset) [
  | err e ↦ err e
  | ok component_id ↦ elim (decode_var_bytes dictionary (offset +ℤ pos 2)) [
    | err e ↦ err e
    | ok (component, next) ↦ ok (component_id, component, next)
  ]
]

abbrev pub marks_last_resort : ℕ → Bytes → Bool
marks_last_resort component_id component =
    (component_id == last_resort_key_package_component_id) && (length component == 0)

-- The loop over the dictionary, with `none` when the fuel is used up.
unfoldable pub scan : ℕ → Bytes → ℤ → Option (Result Bool)
scan zero dictionary offset = none
scan (suc fuel) dictionary offset =
    if is_above (length dictionary) (offset +ℤ pos 1)
    then some (ok false)
    else elim (decode_component dictionary offset) [
      | err e ↦ some (err e)
      | ok (component_id, component, next) ↦
          let rest = scan fuel dictionary next in
          if marks_last_resort component_id component then some (ok true) else rest
    ]

unfoldable pub is_last_resort_key_package_extension : ℕ → CustomExtension → Option (Result Bool)
is_last_resort_key_package_extension fuel extension =
    if extension.extension_type == app_data_dictionary_extension_type
    then (elim (decode_var_bytes extension.extension_data (pos 0)) [
      | err e ↦ some (err e)
      | ok (dictionary, end) ↦
          if is_nat (length extension.extension_data) end
          then scan fuel dictionary (pos 0)
          else some (err trailing_dictionary_data)
    ])
    else some (ok false)

-- `extensions.some(isLastResortKeyPackageExtension)`, which is `isLastResortKeyPackage`
unfoldable pub is_last_resort_key_package : ℕ → List CustomExtension → Option (Result Bool)
is_last_resort_key_package fuel [] = some (ok false)
is_last_resort_key_package fuel (e ∷ es) =
    let rest = is_last_resort_key_package fuel es in
    elim (is_last_resort_key_package_extension fuel e) [
      | none ↦ none
      | some (err x) ↦ some (err x)
      | some (ok b) ↦ if b then some (ok true) else rest
    ]

unfoldable pub ensure_last_resort_key_package_extension :
    ℕ → List CustomExtension → Option (Result (List CustomExtension))
ensure_last_resort_key_package_extension fuel extensions =
    elim (is_last_resort_key_package fuel extensions) [
      | none ↦ none
      | some (err e) ↦ some (err e)
      | some (ok b) ↦
          some (ok (if b then extensions else extensions ++ last_resort_key_package_extension ∷ []))
    ]
