-- ===== src/Client/Pubkey/Normal.antt =====
-- A public key that is normalized stays as it is.
use Prim.Native.Char.{Char, code}
use Prim.Native.String.count
use Prim.Native.Nat.{suc}
use Prim.Native.String.{[], ◌∷◌, count}
use cordn.Prelude.{
  ℕ_discrete, String, ◌≡◌, refl, inl, inr, true, arith, ◌==◌, Bool-cases, string_eq, nat_eq,
}
use cordn.Result.{ok}
use cordn.Client.Pubkey.{is_hex_digit, lower_hex_digit, is_hex, lower_hex, normalize_pubkey}

abbrev pub IsNormalized : String → Type 0
IsNormalized q = normalize_pubkey q ≡ ok q

-- The two facts about a digit that the induction on a key needs.
abbrev IsLowered : Char → Char → Type 0
IsLowered c d = (lower_hex_digit d ≡ d) × (is_hex_digit c ≡ true → is_hex_digit d ≡ true)

lower_hex_digit-IsLowered : (c : Char) → IsLowered c (lower_hex_digit c)
unfolding ℕ_discrete
lower_hex_digit-IsLowered c = elim (Bool-cases (code c == 65)) [
  | inl e ↦ rw e (refl, λ h. refl)
  | inr a ↦ elim (Bool-cases (code c == 66)) [
    | inl e ↦ rw (a, e) (refl, λ h. refl)
    | inr b ↦ elim (Bool-cases (code c == 67)) [
      | inl e ↦ rw (a, b, e) (refl, λ h. refl)
      | inr d ↦ elim (Bool-cases (code c == 68)) [
        | inl e ↦ rw (a, b, d, e) (refl, λ h. refl)
        | inr f ↦ elim (Bool-cases (code c == 69)) [
          | inl e ↦ rw (a, b, d, f, e) (refl, λ h. refl)
          | inr g ↦ elim (Bool-cases (code c == 70)) [
            | inl e ↦ rw (a, b, d, f, g, e) (refl, λ h. refl)
            | inr k ↦ rw (a, b, d, f, g, k) (rw (a, b, d, f, g, k) refl, λ h. h)
          ]
        ]
      ]
    ]
  ]
]

lower_hex_idem : (s : String) → lower_hex (lower_hex s) ≡ lower_hex s
unfolding lower_hex
lower_hex_idem [] = refl
lower_hex_idem (c ∷ s) = rw ((lower_hex_digit-IsLowered c).0, lower_hex_idem s) refl

is_hex-lower : (s : String) → is_hex s ≡ true → is_hex (lower_hex s) ≡ true
unfolding is_hex lower_hex
is_hex-lower [] h = refl
is_hex-lower (c ∷ s) h = ground (arith, (lower_hex_digit-IsLowered c).1, is_hex-lower s)

count-cons : (c : Char) (s : String) → count (c ∷ s) ≡ suc (count s)
count-cons c s = λ i. count.cons c s i

count-lower : (s : String) → count (lower_hex s) ≡ count s
unfolding lower_hex
count-lower [] = refl
count-lower (c ∷ s) = rw (count-cons, count-cons, count-lower s) refl

pub normalize_pubkey-IsNormalized : (p q : String) → normalize_pubkey p ≡ ok q → IsNormalized q
unfolding normalize_pubkey
normalize_pubkey-IsNormalized p q h =
    ground (arith, lower_hex_idem p, is_hex-lower p, count-lower p)
