-- ===== src/Core/GroupRef/Tlv.antt =====
-- The framing of entries: it never runs out of fuel, and it reads back what was written.
use cordn.Prelude.{
  ℕ, zero, suc, ◌≡◌, refl, ◌⊎◌, inl, inr, false, List, [], ◌∷◌, ◌++◌, arith, ◌≤◌, ltb, Bool-cases,
  length, take, drop, length-append, drop-append_self,
}
use cordn.Core.GroupRef.{
  GroupRefError, Parsed, parsed, failed, out_of_fuel, Bytes, Tlv, encode_tlv_entry, encode_entries,
  push_value, parse_from, parse_tlv,
}

abbrev pub IsDone : {A : Type 0} → Parsed A → Type 0
IsDone out_of_fuel = ⊥
IsDone _ = Unit

Parsed-cases :
    {A : Type 0} (x : Parsed A)
    → ((a : A) × (x ≡ parsed a)) ⊎ (((e : GroupRefError) × (x ≡ failed e)) ⊎ (x ≡ out_of_fuel))
Parsed-cases (parsed a) = inl (a, refl)
Parsed-cases (failed e) = inr (inl (e, refl))
Parsed-cases out_of_fuel = inr (inr refl)

length-drop : {A : Type 0} (n : ℕ) (xs : List A) → length (drop n xs) ≤ length xs
unfolding drop
length-drop zero [] = omega arith
length-drop (suc n) [] = omega arith
length-drop zero (x ∷ xs) = omega arith
length-drop (suc n) (x ∷ xs) = omega (arith, length-drop n xs)

take-append : {A : Type 0} (xs ys : List A) → take (length xs) (xs ++ ys) ≡ xs
unfolding take
take-append [] ys = refl
take-append (x ∷ xs) ys = ground (arith, take-append xs ys)

parse_from-IsDone :
    (fuel : ℕ) (bytes : Bytes) (tlv : Tlv)
    → length bytes ≤ fuel
    → IsDone (parse_from fuel bytes tlv)
unfolding parse_from
parse_from-IsDone fuel [] tlv h = tt
parse_from-IsDone zero (b ∷ bytes) tlv h = absurd (omega arith)
parse_from-IsDone (suc fuel) (type ∷ []) tlv h = tt
parse_from-IsDone (suc fuel) (type ∷ size ∷ bytes) tlv h =
    elim (Bool-cases (ltb (length bytes) size)) [
      | inl short ↦ rw short tt
      | inr long ↦ rw long (
          parse_from-IsDone fuel (drop size bytes) (push_value type (take size bytes) tlv)
            (omega (arith, h, length-drop size bytes)))
    ]

-- Parsing ends with the entries or an error, on any bytes.
pub parse_tlv-IsDone : (bytes : Bytes) → IsDone (parse_tlv bytes)
unfolding parse_tlv
parse_tlv-IsDone bytes = parse_from-IsDone (length bytes) bytes [] (omega arith)

-- The entries pushed one after the other.
unfoldable pub push_all : List (ℕ × Bytes) → Tlv → Tlv
push_all [] tlv = tlv
push_all ((type, value) ∷ entries) tlv = push_all entries (push_value type value tlv)

encode_entries-cons :
    (type : ℕ) (value : Bytes) (entries : List (ℕ × Bytes)) (bytes : Bytes)
    → encode_entries ((type, value) ∷ entries) ≡ parsed bytes
    → (rest : Bytes) × (encode_entries entries ≡ parsed rest)
      × (bytes ≡ type ∷ length value ∷ value ++ rest)
unfolding encode_entries encode_tlv_entry
encode_entries-cons type value entries bytes h = elim (Parsed-cases (encode_entries entries)) [
  | inl (rest, e) ↦ (rest, e, ground arith)
  | inr (inl (e, wrong)) ↦ absurd (ground arith)
  | inr (inr wrong) ↦ absurd (ground arith)
]

-- One step reads one entry.
parse_from-entry :
    (type : ℕ) (value rest : Bytes) (tlv : Tlv) (fuel : ℕ)
    → parse_from (suc fuel) (type ∷ length value ∷ value ++ rest) tlv
      ≡ parse_from fuel rest (push_value type value tlv)
unfolding parse_from
parse_from-entry type value rest tlv fuel =
    let fits : ltb (length (value ++ rest)) (length value) ≡ false =
      ground (arith, length-append value rest) in
    rw (fits, drop-append_self, take-append)

parse_from-encode_entries :
    (entries : List (ℕ × Bytes)) (bytes : Bytes) (tlv : Tlv) (fuel : ℕ)
    → encode_entries entries ≡ parsed bytes
    → length bytes ≤ fuel
    → parse_from fuel bytes tlv ≡ parsed (push_all entries tlv)
unfolding push_all
parse_from-encode_entries [] bytes tlv fuel h enough =
    let none_left : [] ≡ bytes = unfold encode_entries in (ground arith) in
    rw (← none_left) (unfold parse_from in refl)
parse_from-encode_entries ((type, value) ∷ entries) bytes tlv zero h enough =
    let (rest, e, eq) = encode_entries-cons type value entries bytes h in
    absurd (omega (arith, rw eq at enough))
parse_from-encode_entries ((type, value) ∷ entries) bytes tlv (suc fuel) h enough =
    let (rest, e, eq) = encode_entries-cons type value entries bytes h in
    let fits : suc (suc (length (value ++ rest))) ≤ suc fuel = rw eq at enough in
    rw (eq, parse_from-entry type value rest tlv fuel)
      (parse_from-encode_entries entries rest (push_value type value tlv) fuel e
        (omega (arith, fits, length-append value rest)))

-- Entries that can be encoded at all are read back, in order and under their types.
pub parse_tlv-encode_entries :
    (entries : List (ℕ × Bytes)) (bytes : Bytes)
    → encode_entries entries ≡ parsed bytes
    → parse_tlv bytes ≡ parsed (push_all entries [])
unfolding parse_tlv
parse_tlv-encode_entries entries bytes h =
    parse_from-encode_entries entries bytes [] (length bytes) h (omega arith)
