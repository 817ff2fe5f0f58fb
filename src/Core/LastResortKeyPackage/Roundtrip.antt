-- ===== src/Core/LastResortKeyPackage/Roundtrip.antt =====
-- Variable-length bytes that are encoded are read back at their place among others.
use Prim.Native.Nat.{min, ◌-◌}
use cordn.Prelude.{
  dec_lt, ℕ, ◌≡◌, refl, ◌∙◌, [], ◌∷◌, ◌++◌, append_assoc, arith, ◌+◌, ◌*◌, ◌/◌, ◌%◌, ◌≤◌, ◌<◌,
  length, take, get_elem?, length-append, drop-append_self, string_eq,
}
use cordn.Prelude.Int.{pos}
use cordn.Result.{ok}
use cordn.Core.LastResortKeyPackage.{
  Bytes, byte_at, slice_index, slice, encode_var_bytes, read_length, signed, length_field_size,
  decode_var_bytes,
}

byte_at-append :
    (i : ℕ) (before bytes : Bytes)
    → byte_at (before ++ bytes) (pos (length before + i)) ≡ byte_at bytes (pos i)
unfolding byte_at get_elem?
byte_at-append i [] bytes = ground arith
byte_at-append i (b ∷ before) bytes = ground (arith, byte_at-append i before bytes)

take-append : (xs ys : Bytes) → take (length xs) (xs ++ ys) ≡ xs
unfolding take
take-append [] ys = refl
take-append (x ∷ xs) ys = rw (take-append xs ys) refl

slice-append :
    (before bytes rest : Bytes) (start end : ℕ)
    → start ≡ length before
    → end ≡ length before + length bytes
    → slice (before ++ (bytes ++ rest)) (pos start) (pos end) ≡ bytes
unfolding slice slice_index
slice-append before bytes rest start end s e =
    let n : min start (length (before ++ (bytes ++ rest))) ≡ length before =
      omega (arith, s, length-append before (bytes ++ rest)) in
    let m : min end (length (before ++ (bytes ++ rest))) ≡ length before + length bytes =
      omega (arith, e, length-append before (bytes ++ rest), length-append bytes rest) in
    let d : length before + length bytes - length before ≡ length bytes = omega arith in
    rw (n, m, d, drop-append_self before (bytes ++ rest)) (take-append bytes rest)

-- A header before `bytes` whose length field is read as their length.
decode-header :
    (before header bytes rest : Bytes) (first : ℕ)
    → byte_at (before ++ ((header ++ bytes) ++ rest)) (pos (length before)) ≡ first
    → length_field_size first ≡ length header
    → read_length
        (before ++ ((header ++ bytes) ++ rest))
        (pos (length before + 1))
        (length header - 1)
        (first % 64)
      ≡ length bytes
    → length bytes < 2147483648
    → 1 ≤ length header
    → decode_var_bytes (before ++ ((header ++ bytes) ++ rest)) (pos (length before))
      ≡ ok (bytes, pos (length before + length header + length bytes))
unfolding decode_var_bytes signed
decode-header before header bytes rest first b size n small some_ =
    let all = before ++ ((header ++ bytes) ++ rest) in
    let long : length all ≡ length before + (length header + length bytes) + length rest = omega (
      arith,
      length-append before ((header ++ bytes) ++ rest),
      length-append (header ++ bytes) rest,
      length-append header bytes,
    ) in
    let moved : before ++ ((header ++ bytes) ++ rest) ≡ (before ++ header) ++ (bytes ++ rest) =
      simp append_assoc in
    let sliced : slice all (pos (length before + length header))
          (pos (length before + length header + length bytes))
        ≡ bytes =
      rw moved (
        slice-append (before ++ header) bytes rest (length before + length header)
          (length before + length header + length bytes)
          (omega (arith, length-append before header))
          (omega (arith, length-append before header))) in
    rw (b, size, n) (ground (arith, long, sliced, small))

-- `decode-header` for the three forms of the length field.
decode-one :
    (before bytes rest : Bytes)
    → length bytes < 64
    → decode_var_bytes (before ++ ((length bytes ∷ bytes) ++ rest)) (pos (length before))
      ≡ ok (bytes, pos (length before + 1 + length bytes))
unfolding byte_at get_elem? read_length length_field_size
decode-one before bytes rest small =
    let n = length bytes in
    decode-header before (n ∷ []) bytes rest n
      (ground (arith, byte_at-append 0 before ((n ∷ bytes) ++ rest))) (ground arith) (ground arith)
      (omega arith) (omega arith)

decode-two :
    (before bytes rest : Bytes) (a b : ℕ)
    → a < 64
    → b < 256
    → a * 256 + b ≡ length bytes
    → decode_var_bytes (before ++ (((64 + a) ∷ b ∷ bytes) ++ rest)) (pos (length before))
      ≡ ok (bytes, pos (length before + 2 + length bytes))
unfolding byte_at get_elem? read_length length_field_size
decode-two before bytes rest a b sa sb e =
    let all = ((64 + a) ∷ b ∷ bytes) ++ rest in
    decode-header before ((64 + a) ∷ b ∷ []) bytes rest (64 + a)
      (ground (arith, byte_at-append 0 before all)) (ground arith)
      (ground (arith, byte_at-append 1 before all)) (omega arith) (omega arith)

decode-four :
    (before bytes rest : Bytes) (a b c d : ℕ)
    → a < 64
    → b < 256
    → c < 256
    → d < 256
    → ((a * 256 + b) * 256 + c) * 256 + d ≡ length bytes
    → decode_var_bytes (before ++ (((128 + a) ∷ b ∷ c ∷ d ∷ bytes) ++ rest)) (pos (length before))
      ≡ ok (bytes, pos (length before + 4 + length bytes))
unfolding byte_at get_elem? read_length length_field_size
decode-four before bytes rest a b c d sa sb sc sd e =
    let all = ((128 + a) ∷ b ∷ c ∷ d ∷ bytes) ++ rest in
    decode-header before ((128 + a) ∷ b ∷ c ∷ d ∷ []) bytes rest (128 + a)
      (ground (arith, byte_at-append 0 before all)) (ground arith)
      (ground (
        arith,
        byte_at-append 1 before all,
        byte_at-append 2 before all,
        byte_at-append 3 before all,
      ))
      (omega arith) (omega arith)

-- Bytes that can be encoded are decoded to themselves, wherever the encoding stands, and the next
-- offset is that of its end.
pub decode_var_bytes-encode_var_bytes :
    (before bytes encoding rest : Bytes)
    → encode_var_bytes bytes ≡ ok encoding
    → decode_var_bytes (before ++ (encoding ++ rest)) (pos (length before))
      ≡ ok (bytes, pos (length before + length encoding))
unfolding encode_var_bytes
decode_var_bytes-encode_var_bytes before bytes encoding rest h =
    let n = length bytes in
    elim (dec_lt n 64) [
      | yes one ↦
          let e : n ∷ bytes ≡ encoding = ground arith in
          rw (← e) (decode-one before bytes rest one ∙ ground arith)
      | no more ↦ elim (dec_lt n 16384) [
        | yes two ↦
            let e : (64 + n / 256 % 64) ∷ (n % 256) ∷ bytes ≡ encoding = ground arith in
            rw (← e) (
              decode-two before bytes rest (n / 256 % 64) (n % 256) (omega arith) (omega arith)
                (omega arith)
              ∙ ground arith)
        | no larger ↦
            let small : n < 1073741824 = ground arith in
            let e : (128 + n / 16777216 % 64)
                  ∷ (n / 65536 % 256)
                  ∷ (n / 256 % 256)
                  ∷ (n % 256)
                  ∷ bytes
                ≡ encoding =
              ground arith in
            rw (← e) (
              decode-four before bytes rest (n / 16777216 % 64) (n / 65536 % 256) (n / 256 % 256)
                (n % 256) (omega arith) (omega arith) (omega arith) (omega arith) (omega arith)
              ∙ ground arith)
      ]
    ]
