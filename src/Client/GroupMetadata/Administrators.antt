-- ===== src/Client/GroupMetadata/Administrators.antt =====
-- The administrators' keys in the metadata.
use Prim.Native.Nat.{◌%◌, ◌/◌}
use cordn.Prelude.{
  ℕ_discrete, String, ◌≡◌, refl, subst, inl, inr, false, not, List, [], ◌∷◌, ◌++◌, map, arith, ◌*◌,
  if◌then◌else◌, ◌==◌, Bool-cases, eq_of_==, length, take, drop, filter, All, flat_map,
  length-append, drop-append_self, string_eq, nat_eq,
}
use cordn.Result.{ok, err, Result-cases, duplicate_admin_pubkeys}
use cordn.Client.Pubkey.{normalize_pubkey}
use cordn.Client.Pubkey.Normal.{IsNormalized, normalize_pubkey-IsNormalized}
use cordn.Client.GroupMetadata.{
  Platform, normalize_each, unique, pieces, normalize_admin_pubkeys, encode_admin_pubkeys,
  decode_admin_pubkeys,
}
use cordn.Client.GroupMetadata.Fields.{take-append_self}

-- What the code relies on for a key: it is 32 bytes in hexadecimal digits, with no space around.
pub record IsKept (platform : Platform) (q : String) : Type 0 where
  pub bytes : length (platform.hex_to_bytes q) ≡ 32
  pub hex : platform.bytes_to_hex (platform.hex_to_bytes q) ≡ q
  pub trim : platform.trim q ≡ q

normalize_each-All : (ps qs : List String) → normalize_each ps ≡ ok qs → All IsNormalized qs
unfolding normalize_each
normalize_each-All [] qs h = let e : [] ≡ qs = ground arith in subst (All IsNormalized) e tt
normalize_each-All (p ∷ ps) qs h = elim (Result-cases (normalize_pubkey p)) [
  | inr (x, e) ↦ absurd (ground arith)
  | inl (q, e) ↦ elim (Result-cases (normalize_each ps)) [
    | inr (x, f) ↦ absurd (ground arith)
    | inl (rs, f) ↦
        let g : q ∷ rs ≡ qs = ground arith in
        subst (All IsNormalized) g (normalize_pubkey-IsNormalized p q e, normalize_each-All ps rs f)
  ]
]

normalize_each-normalized : (qs : List String) → All IsNormalized qs → normalize_each qs ≡ ok qs
unfolding normalize_each
normalize_each-normalized [] h = refl
normalize_each-normalized (q ∷ qs) h = rw (h.0, normalize_each-normalized qs h.1) refl

IsNormalized-nonempty : (q : String) → IsNormalized q → (q == "") ≡ false
unfolding normalize_pubkey ℕ_discrete
IsNormalized-nonempty q h = elim (Bool-cases (q == "")) [
  | inr other ↦ other
  | inl empty ↦
      let e : normalize_pubkey "" ≡ ok "" =
        subst (λ t. normalize_pubkey t ≡ ok t) (eq_of_== q "" empty) h in
      cc
]

module _ (platform : Platform) where
  trim-normalized :
      (qs : List String)
      → All IsNormalized qs
      → All (IsKept platform) qs
      → filter (λ v. not (v == "")) (map platform.trim qs) ≡ qs
  unfolding filter
  trim-normalized [] h k = refl
  trim-normalized (q ∷ qs) h k =
      rw (k.0.trim, IsNormalized-nonempty q h.0, trim-normalized qs h.1 k.1) refl

  length-encode_admin_pubkeys :
      (qs : List String)
      → All IsNormalized qs
      → All (IsKept platform) qs
      → length (encode_admin_pubkeys platform qs) ≡ length qs * 32
  unfolding encode_admin_pubkeys flat_map
  length-encode_admin_pubkeys [] h k = omega arith
  length-encode_admin_pubkeys (q ∷ qs) h k = omega (
    arith,
    length-append (platform.hex_to_bytes q) (encode_admin_pubkeys platform qs),
    k.0.bytes,
    length-encode_admin_pubkeys qs h.1 k.1,
  )

  pieces-encode_admin_pubkeys :
      (qs : List String)
      → All IsNormalized qs
      → All (IsKept platform) qs
      → map platform.bytes_to_hex (pieces (length qs) (encode_admin_pubkeys platform qs)) ≡ qs
  unfolding encode_admin_pubkeys flat_map pieces
  pieces-encode_admin_pubkeys [] h k = refl
  pieces-encode_admin_pubkeys (q ∷ qs) h k =
      let bytes = platform.hex_to_bytes q in
      let rest = encode_admin_pubkeys platform qs in
      let e = k.0.bytes in
      let taken : take 32 (bytes ++ rest) ≡ bytes =
        subst (λ n. take n (bytes ++ rest) ≡ bytes) e (take-append_self bytes rest) in
      let dropped : drop 32 (bytes ++ rest) ≡ rest =
        subst (λ n. drop n (bytes ++ rest) ≡ rest) e (drop-append_self bytes rest) in
      rw (taken, dropped, k.0.hex, pieces-encode_admin_pubkeys qs h.1 k.1) refl

  -- The keys are read back, unless two of them are equal.
  pub decode_admin_pubkeys-encode :
      (qs : List String)
      → All IsNormalized qs
      → All (IsKept platform) qs
      → decode_admin_pubkeys platform (encode_admin_pubkeys platform qs)
        ≡ (if length (unique qs) == length qs then ok qs else err duplicate_admin_pubkeys)
  unfolding decode_admin_pubkeys normalize_admin_pubkeys ℕ_discrete
  decode_admin_pubkeys-encode qs h k =
      let whole : length qs * 32 % 32 ≡ 0 = omega arith in
      let count : length qs * 32 / 32 ≡ length qs = omega arith in
      rw (length-encode_admin_pubkeys qs h k, whole, count, pieces-encode_admin_pubkeys qs h k)
        (rw (trim-normalized qs h k, normalize_each-normalized qs h) refl)

  pub normalize_admin_pubkeys-All :
      (ps qs : List String) → normalize_admin_pubkeys platform ps ≡ ok qs → All IsNormalized qs
  unfolding normalize_admin_pubkeys
  normalize_admin_pubkeys-All ps qs h =
      normalize_each-All (filter (λ v. not (v == "")) (map platform.trim ps)) qs (ground arith)
