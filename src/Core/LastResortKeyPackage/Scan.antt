-- ===== src/Core/LastResortKeyPackage/Scan.antt =====
-- Whether the loop over a dictionary ends.
use Prim.Native.Nat.{◌≤◌}
use cordn.Prelude.{
  ◌/◌, dec_lt, ℕ, zero, suc, ◌≡◌, refl, ◌≢◌, inl, inr, Bool, true, false, none, some, [], ◌∷◌,
  arith, ◌+◌, ◌-◌, ◌*◌, ◌%◌, ◌<◌, Bool-cases, length, take, get_elem?, All, string_eq, nat_eq,
}
use cordn.Prelude.Int.{ℤ, pos}
use cordn.Result.{Result, ok, err, Result-cases}
use cordn.Core.LastResortKeyPackage.{
  Bytes, byte_at, slice_index, slice, read_length, signed, length_field_size, decode_uint16,
  decode_var_bytes, decode_component, scan, marks_last_resort,
}

-- No byte starts a length field of eight bytes.
abbrev pub IsNarrow : Bytes → Type 0
IsNarrow = All (λ b. b < 192)

byte_at-lt : (bytes : Bytes) (i : ℕ) → IsNarrow bytes → byte_at bytes (pos i) < 192
unfolding byte_at get_elem?
byte_at-lt [] i h = omega arith
byte_at-lt (b ∷ bytes) zero h = h.0
byte_at-lt (b ∷ bytes) (suc i) h = byte_at-lt bytes i h.1

-- A length field of at most four bytes holds at most 30 bits.
read_length-lt :
    (bytes : Bytes) (i first : ℕ)
    → IsNarrow bytes
    → first < 192
    → read_length bytes (pos i) (length_field_size first - 1) (first % 64) < 1073741824
unfolding read_length length_field_size
read_length-lt bytes i first h small = elim (dec_lt first 64) [
  | yes one ↦ ground arith
  | no more ↦ elim (dec_lt first 128) [
    | yes two ↦ ground (arith, byte_at-lt bytes i h)
    | no larger ↦
        ground
          (arith, byte_at-lt bytes i h, byte_at-lt bytes (i + 1) h, byte_at-lt bytes (i + 1 + 1) h)
  ]
]

length_field_size-pos : (first : ℕ) → first < 192 → 0 < length_field_size first
unfolding length_field_size
length_field_size-pos first small = elim (dec_lt first 64) [
  | yes one ↦ ground arith
  | no more ↦ elim (dec_lt first 128) [ yes two ↦ ground arith | no larger ↦ ground arith ]
]

decode_var_bytes-next :
    (bytes : Bytes) (i : ℕ) (component : Bytes) (next : ℤ)
    → IsNarrow bytes
    → decode_var_bytes bytes (pos i) ≡ ok (component, next)
    → (j : ℕ) × (next ≡ pos j) × (i < j)
unfolding decode_var_bytes signed
decode_var_bytes-next bytes i component next h e =
    let first = byte_at bytes (pos i) in
    let n = read_length bytes (pos (i + 1)) (length_field_size first - 1) (first % 64) in
    (
      i + length_field_size first + n,
      ground (arith, byte_at-lt bytes i h, read_length-lt bytes (i + 1) first h),
      omega (arith, length_field_size-pos first (byte_at-lt bytes i h)),
    )

decode_component-next :
    (bytes : Bytes) (i id : ℕ) (component : Bytes) (next : ℤ)
    → IsNarrow bytes
    → decode_component bytes (pos i) ≡ ok (id, component, next)
    → (j : ℕ) × (next ≡ pos j) × (i < j)
unfolding decode_component
decode_component-next bytes i id component next h e =
    elim (Result-cases (decode_uint16 bytes (pos i))) [
      | inr (x, f) ↦ absurd (ground arith)
      | inl (a, f) ↦ elim (Result-cases (decode_var_bytes bytes (pos (i + 2)))) [
        | inr (x, g) ↦ absurd (ground arith)
        | inl ((c, m), g) ↦
            let (j, k, past) = decode_var_bytes-next bytes (i + 2) c m h g in
            (j, ground arith, omega arith)
      ]
    ]

-- The loop over a dictionary whose length fields have at most four bytes ends with a result, when
-- it may take as many steps as there are bytes, and one more.
pub scan-IsDone :
    (fuel i : ℕ) (bytes : Bytes)
    → IsNarrow bytes
    → length bytes ≤ fuel + i
    → (r : Result Bool) × (scan (suc fuel) bytes (pos i) ≡ some r)
unfolding scan
scan-IsDone zero i bytes h enough = (ok false, ground arith)
scan-IsDone (suc fuel) i bytes h enough = elim (dec_lt (length bytes) (i + 1)) [
  | yes at_end ↦ (ok false, ground arith)
  | no more ↦ elim (Result-cases (decode_component bytes (pos i))) [
    | inr (x, f) ↦ (err x, ground arith)
    | inl ((id, component, next), f) ↦
        let (j, e, past) = decode_component-next bytes i id component next h f in
        let (r, done) = scan-IsDone fuel j bytes h (omega arith) in
        elim (Bool-cases (marks_last_resort id component)) [
          | inl here ↦ (ok true, ground arith)
          | inr other ↦ (r, ground arith)
        ]
  ]
]

-- A dictionary whose first component has another id and a length of eight bytes that ends in -10,
-- whatever its other bytes are.
abbrev pub looping : ℕ → ℕ → ℕ → ℕ → ℕ → ℕ → Bytes → Bytes
looping hi lo k x y z rest = hi ∷ lo ∷ (192 + k) ∷ x ∷ y ∷ z ∷ 255 ∷ 255 ∷ 255 ∷ 246 ∷ rest

read_length-looping :
    (hi lo k x y z n : ℕ) (rest : Bytes)
    → read_length (looping hi lo k x y z rest) (pos 3) 7 n ≡ 4294967286
unfolding read_length byte_at get_elem?
read_length-looping hi lo k x y z n rest =
    let m = ((n * 256 + x) % 4294967296 * 256 + y) % 4294967296 * 256 + z in omega arith

length_field_size-looping : (k : ℕ) → k < 64 → length_field_size (192 + k) ≡ 8
unfolding length_field_size
length_field_size-looping k h = let e : (192 + k) / 64 % 4 ≡ 3 = omega arith in rw e refl

decode_component-looping :
    (hi lo k x y z : ℕ) (rest : Bytes)
    → k < 64
    → decode_component (looping hi lo k x y z rest) (pos 0) ≡ ok (hi * 256 + lo, [], pos 0)
unfolding decode_component decode_uint16 decode_var_bytes signed slice slice_index take byte_at
    get_elem?
decode_component-looping hi lo k x y z rest h =
    ground (
      arith,
      length_field_size-looping k h,
      read_length-looping hi lo k x y z ((192 + k) % 64) rest,
    )

-- The loop never ends on it.
pub scan-looping :
    (fuel hi lo k x y z : ℕ) (rest : Bytes)
    → k < 64
    → hi * 256 + lo ≢ 4
    → scan fuel (looping hi lo k x y z rest) (pos 0) ≡ none
unfolding scan
scan-looping zero hi lo k x y z rest h other = refl
scan-looping (suc fuel) hi lo k x y z rest h other = ground (
  arith,
  decode_component-looping hi lo k x y z rest h,
  scan-looping fuel hi lo k x y z rest h other,
)
