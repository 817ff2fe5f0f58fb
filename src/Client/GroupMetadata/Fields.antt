-- ===== src/Client/GroupMetadata/Fields.antt =====
-- A field that is encoded is read back, and the bytes after it are left for the next.
use cordn.Prelude.{
  dec_lt, ℕ, zero, suc, ◌≡◌, refl, sym, ap, ◌∙◌, some, [], ◌∷◌, ◌++◌, arith, ◌+◌, ◌-◌, ◌*◌, ◌/◌,
  ◌%◌, ◌≤◌, length, take, drop, get_elem?, length-append, drop-append_self, string_eq,
}
use cordn.Result.{Result, ◌>>=◌, ok}
use cordn.Core.LastResortKeyPackage.{Bytes}
use cordn.Client.GroupMetadata.{encode_uint16, decode_uint16, encode_field, decode_field}

get_elem?-drop : (n i : ℕ) (bytes : Bytes) → get_elem? (drop n bytes) i ≡ get_elem? bytes (n + i)
unfolding get_elem? drop
get_elem?-drop zero i bytes = ground arith
get_elem?-drop (suc n) i [] = ground arith
get_elem?-drop (suc n) i (b ∷ bytes) = ground (arith, get_elem?-drop n i bytes)

length-drop : (n : ℕ) (bytes : Bytes) → length (drop n bytes) ≡ length bytes - n
unfolding drop
length-drop zero bytes = omega arith
length-drop (suc n) [] = omega arith
length-drop (suc n) (b ∷ bytes) = omega (arith, length-drop n bytes)

drop_empty : (n : ℕ) → drop {A = ℕ} n [] ≡ []
unfolding drop
drop_empty zero = refl
drop_empty (suc n) = refl

drop-drop : (n k : ℕ) (bytes : Bytes) → drop k (drop n bytes) ≡ drop (n + k) bytes
unfolding drop
drop-drop zero k bytes = ground arith
drop-drop (suc n) zero [] = ground arith
drop-drop (suc n) (suc k) [] = sym (drop_empty (suc n + suc k))
drop-drop (suc n) k (b ∷ bytes) =
    let e : suc n + k ≡ suc (n + k) = omega arith in rw e (drop-drop n k bytes)

pub take-append_self : (xs ys : Bytes) → take (length xs) (xs ++ ys) ≡ xs
unfolding take
take-append_self [] ys = refl
take-append_self (x ∷ xs) ys = rw (take-append_self xs ys) refl

-- Two bytes and what follows them, from an offset on.
decode_uint16-at :
    (offset hi lo : ℕ) (bytes rest : Bytes)
    → drop offset bytes ≡ hi ∷ lo ∷ rest
    → (decode_uint16 bytes offset ≡ ok (hi * 256 + lo))
      × (offset + 2 + length rest ≡ length bytes)
      × (drop (offset + 2) bytes ≡ rest)
unfolding decode_uint16 get_elem? drop
decode_uint16-at offset hi lo bytes rest h =
    let first : get_elem? bytes offset ≡ some hi =
      ground (arith, get_elem?-drop offset 0 bytes, h) in
    let second : get_elem? bytes (offset + 1) ≡ some lo =
      ground (arith, get_elem?-drop offset 1 bytes, h) in
    let size : offset + 2 + length rest ≡ length bytes =
      omega (arith, sym (length-drop offset bytes) ∙ ap length h) in
    let left : drop (offset + 2) bytes ≡ rest = sym (drop-drop offset 2 bytes) ∙ rw h refl in
    (rw (first, second) (ground arith), size, left)

-- The encoding of a field.
unfoldable pub framed : Bytes → Bytes
framed field = (length field / 256 % 256) ∷ (length field % 256) ∷ field

pub decode_field-framed :
    (offset : ℕ) (bytes field rest : Bytes)
    → length field ≤ 65535
    → drop offset bytes ≡ framed field ++ rest
    → (decode_field bytes offset ≡ ok (field, offset + 2 + length field))
      × (drop (offset + 2 + length field) bytes ≡ rest)
unfolding decode_field framed
decode_field-framed offset bytes field rest small h =
    let (e, size, left) =
      decode_uint16-at offset (length field / 256 % 256) (length field % 256) bytes (field ++ rest)
        h in
    let n : length field / 256 % 256 * 256 + length field % 256 ≡ length field = omega arith in
    let taken : take (length field) (drop (offset + 2) bytes) ≡ field =
      rw left (take-append_self field rest) in
    let past : drop (offset + 2 + length field) bytes ≡ rest =
      sym (drop-drop (offset + 2) (length field) bytes) ∙ rw left (drop-append_self field rest) in
    (rw (e, n, taken) (ground (arith, size, length-append field rest)), past)

-- A field that is encoded on the way to a result fits, and the rest goes on with its encoding.
pub encode_field-framed {ℓ} :
    {A : Type ℓ} (field : Bytes) (next : Bytes → Result A) (a : A)
    → encode_field field >>= next ≡ ok a
    → (length field ≤ 65535) × (next (framed field) ≡ ok a)
unfolding encode_field encode_uint16 framed
encode_field-framed field next a h = elim (dec_lt 65535 (length field)) [
  | yes large ↦ absurd (ground arith)
  | no fits ↦ (omega arith, ground arith)
]
