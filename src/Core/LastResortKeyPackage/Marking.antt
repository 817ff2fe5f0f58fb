-- ===== src/Core/LastResortKeyPackage/Marking.antt =====
-- What marks a key package, and that the search for the mark ends.
use Prim.Native.Nat.{◌-◌}
use cordn.Prelude.{
  ◌+◌, subst, ◌<◌, append-nil, ℕ_discrete, ℕ, zero, suc, ◌≡◌, refl, ◌≢◌, inl, inr, Bool, true,
  false, none, some, List, [], ◌∷◌, ◌++◌, arith, ◌+◌, ◌*◌, ◌%◌, ◌≤◌, ◌==◌, Bool-cases, length, take,
  drop, get_elem?, All, string_eq, nat_eq,
}
use cordn.Prelude.Int.{ℤ, pos, ◌+ℤ◌, is_nat}
use cordn.Result.{Result, ok, err, Result-cases}
use cordn.Core.LastResortKeyPackage.{
  Bytes, CustomExtension, app_data_dictionary_extension_type, slice, slice_index, decode_var_bytes,
  length_field_size, scan, is_last_resort_key_package_extension, is_last_resort_key_package,
  ensure_last_resort_key_package_extension, last_resort_key_package_extension, decode_component,
  byte_at, encode_var_bytes, decode_uint16, length_field_size, signed, read_length,
  trailing_dictionary_data,
}
use cordn.Core.LastResortKeyPackage.Roundtrip.{decode_var_bytes-encode_var_bytes}
use cordn.Core.LastResortKeyPackage.Scan.{IsNarrow, looping, scan-IsDone, scan-looping}

extension-marked :
    (fuel : ℕ)
    → is_last_resort_key_package_extension (suc fuel) last_resort_key_package_extension
      ≡ some (ok true)
unfolding is_last_resort_key_package_extension decode_component decode_uint16 decode_var_bytes
    length_field_size read_length signed scan slice slice_index byte_at get_elem? take drop
    ℕ_discrete
extension-marked fuel = refl

key_package-marked :
    (fuel : ℕ) (extensions : List CustomExtension)
    → is_last_resort_key_package (suc fuel) extensions ≡ some (ok false)
    → is_last_resort_key_package (suc fuel) (extensions ++ last_resort_key_package_extension ∷ [])
      ≡ some (ok true)
unfolding is_last_resort_key_package
key_package-marked fuel [] h = ground (arith, extension-marked fuel)
key_package-marked fuel (e ∷ es) h = ground (arith, key_package-marked fuel es)

-- The extensions that the code returns are marked, and ensuring the mark again changes nothing.
pub ensure-marks :
    (fuel : ℕ) (extensions marked : List CustomExtension)
    → ensure_last_resort_key_package_extension (suc fuel) extensions ≡ some (ok marked)
    → (is_last_resort_key_package (suc fuel) marked ≡ some (ok true))
      × (ensure_last_resort_key_package_extension (suc fuel) marked ≡ some (ok marked))
unfolding ensure_last_resort_key_package_extension
ensure-marks fuel extensions marked h = ground (arith, key_package-marked fuel extensions)

All-take : (n : ℕ) (bytes : Bytes) → IsNarrow bytes → IsNarrow (take n bytes)
unfolding take
All-take zero bytes h = tt
All-take (suc n) [] h = tt
All-take (suc n) (b ∷ bytes) h = (h.0, All-take n bytes h.1)

All-drop : (n : ℕ) (bytes : Bytes) → IsNarrow bytes → IsNarrow (drop n bytes)
unfolding drop
All-drop zero bytes h = h
All-drop (suc n) [] h = tt
All-drop (suc n) (b ∷ bytes) h = All-drop n bytes h.1

length-take-le : (n : ℕ) (bytes : Bytes) → length (take n bytes) ≤ length bytes
unfolding take
length-take-le zero bytes = omega arith
length-take-le (suc n) [] = omega arith
length-take-le (suc n) (b ∷ bytes) = omega (arith, length-take-le n bytes)

length-drop-le : (n : ℕ) (bytes : Bytes) → length (drop n bytes) ≤ length bytes
unfolding drop
length-drop-le zero bytes = omega arith
length-drop-le (suc n) [] = omega arith
length-drop-le (suc n) (b ∷ bytes) = omega (arith, length-drop-le n bytes)

IsNarrow-slice : (bytes : Bytes) (start end : ℤ) → IsNarrow bytes → IsNarrow (slice bytes start end)
unfolding slice
IsNarrow-slice bytes start end h = All-take _ _ (All-drop (slice_index bytes start) bytes h)

length-slice-le : (bytes : Bytes) (start end : ℤ) → length (slice bytes start end) ≤ length bytes
unfolding slice
length-slice-le bytes start end =
    let from = slice_index bytes start in
    omega (
      arith,
      length-take-le (slice_index bytes end - from) (drop from bytes),
      length-drop-le from bytes,
    )

-- What is decoded is a part of the bytes.
decode_var_bytes-part :
    (bytes component : Bytes) (offset next : ℤ)
    → decode_var_bytes bytes offset ≡ ok (component, next)
    → (start : ℤ) × (end : ℤ) × (component ≡ slice bytes start end)
unfolding decode_var_bytes
decode_var_bytes-part bytes component offset next h =
    let first_byte = byte_at bytes offset in
    let start = offset +ℤ pos (length_field_size first_byte) in
    (
      start,
      start
          +ℤ signed (
              read_length bytes (offset +ℤ pos 1) (length_field_size first_byte - 1)
                (first_byte % 64)),
      ground arith,
    )

dictionary-IsDone :
    (fuel : ℕ) (bytes dictionary : Bytes) (offset next : ℤ)
    → IsNarrow bytes
    → length bytes ≤ fuel
    → decode_var_bytes bytes offset ≡ ok (dictionary, next)
    → (r : Result Bool) × (scan (suc fuel) dictionary (pos 0) ≡ some r)
dictionary-IsDone fuel bytes dictionary offset next h enough f =
    let (start, end, e) = decode_var_bytes-part bytes dictionary offset next f in
    rw e (
      scan-IsDone fuel 0 (slice bytes start end) (IsNarrow-slice bytes start end h)
        (omega (arith, length-slice-le bytes start end)))

extension-IsDone :
    (fuel : ℕ) (e : CustomExtension)
    → IsNarrow e.extension_data
    → length e.extension_data ≤ fuel
    → (r : Result Bool) × (is_last_resort_key_package_extension (suc fuel) e ≡ some r)
unfolding is_last_resort_key_package_extension
extension-IsDone fuel e h enough =
    elim (Bool-cases (e.extension_type == app_data_dictionary_extension_type)) [
      | inr other ↦ (ok false, ground arith)
      | inl here ↦ elim (Result-cases (decode_var_bytes e.extension_data (pos 0))) [
        | inr (x, f) ↦ (err x, ground arith)
        | inl ((dictionary, next), f) ↦
            let (r, g) =
              dictionary-IsDone fuel e.extension_data dictionary (pos 0) next h enough f in
            elim (Bool-cases (is_nat (length e.extension_data) next)) [
              | inl at_end ↦ (r, ground arith)
              | inr trailing ↦ (err trailing_dictionary_data, ground arith)
            ]
      ]
    ]

-- The search through extensions whose length fields have at most four bytes ends with a result,
-- when the loop over a dictionary may take as many steps as there are bytes, and one more.
pub is_last_resort_key_package-IsDone :
    (fuel : ℕ) (extensions : List CustomExtension)
    → All (λ e. IsNarrow e.extension_data × (length e.extension_data ≤ fuel)) extensions
    → (r : Result Bool) × (is_last_resort_key_package (suc fuel) extensions ≡ some r)
unfolding is_last_resort_key_package
is_last_resort_key_package-IsDone fuel [] h = (ok false, refl)
is_last_resort_key_package-IsDone fuel (e ∷ es) h =
    let (r, f) = extension-IsDone fuel e h.0.0 h.0.1 in
    let (rest, g) = is_last_resort_key_package-IsDone fuel es h.1 in
    elim (Result-cases r) [
      | inr (x, k) ↦ (err x, ground arith)
      | inl (b, k) ↦ elim (Bool-cases b) [
        | inl here ↦ (ok true, ground arith)
        | inr other ↦ (rest, ground arith)
      ]
    ]

-- The search for the mark does not end, whatever its fuel, on an extension whose dictionary starts
-- with a component of another id and with a length field of eight bytes that ends in the four bytes
-- of -10, whatever else the field holds and whatever follows.
pub is_last_resort_key_package_extension-looping :
    (fuel hi lo k x y z : ℕ) (rest encoding : Bytes)
    → k < 64
    → hi * 256 + lo ≢ 4
    → encode_var_bytes (looping hi lo k x y z rest) ≡ ok encoding
    → is_last_resort_key_package_extension fuel
        (record { extension_type = app_data_dictionary_extension_type; extension_data = encoding })
      ≡ none
unfolding is_last_resort_key_package_extension ℕ_discrete
is_last_resort_key_package_extension-looping fuel hi lo k x y z rest encoding h other encoded =
    let dictionary = looping hi lo k x y z rest in
    let e : decode_var_bytes encoding (pos 0) ≡ ok (dictionary, pos (0 + length encoding)) =
      subst (λ b. decode_var_bytes b (pos 0) ≡ ok (dictionary, pos (0 + length encoding)))
        (append-nil encoding)
        (decode_var_bytes-encode_var_bytes [] dictionary encoding [] encoded) in
    rw e (ground (arith, scan-looping fuel hi lo k x y z rest h other))
