-- ===== src/Core/GroupRef/Values.antt =====
-- The values that a list of entries leaves under a type (`decodeGroupRef` of packages/core/src/
-- groupRef.ts reads them back).
use cordn.Prelude.{
  ℕ, ◌≡◌, refl, sym, ◌∙◌, inl, inr, List, [], ◌∷◌, ◌++◌, append-nil, append_assoc, arith,
  if◌then◌else◌, ◌==◌, Bool-cases, eq_of_==, string_eq, nat_eq,
}
use cordn.Prelude.Map.{get-set}
use cordn.Core.GroupRef.{Bytes, Tlv, push_value, values_of}
use cordn.Core.GroupRef.Tlv.{push_all}

-- The values of a type among entries.
unfoldable pub values : ℕ → List (ℕ × Bytes) → List Bytes
values type [] = []
values type ((t, value) ∷ entries) =
    if t == type then value ∷ values type entries else values type entries

values_of-push_value :
    (type t : ℕ) (value : Bytes) (tlv : Tlv)
    → values_of type (push_value t value tlv)
      ≡ (if t == type then values_of type tlv ++ value ∷ [] else values_of type tlv)
unfolding push_value
values_of-push_value type t value tlv = elim (Bool-cases (t == type)) [
  | inl here ↦
      ground (arith, get-set t type (values_of t tlv ++ value ∷ []) tlv, eq_of_== t type here, here)
  | inr other ↦ ground (arith, get-set t type (values_of t tlv ++ value ∷ []) tlv, other)
]

pub values_of-push_all :
    (type : ℕ) (entries : List (ℕ × Bytes)) (tlv : Tlv)
    → values_of type (push_all entries tlv) ≡ values_of type tlv ++ values type entries
unfolding push_all values
values_of-push_all type [] tlv = sym (append-nil _)
values_of-push_all type ((t, value) ∷ entries) tlv =
    values_of-push_all type entries (push_value t value tlv)
    ∙ rw (values_of-push_value type t value tlv) (elim (Bool-cases (t == type)) [
      | inl here ↦ rw here (append_assoc (values_of type tlv) (value ∷ []) (values type entries))
      | inr other ↦ rw other refl
    ])

pub values-append :
    (type : ℕ) (xs ys : List (ℕ × Bytes))
    → values type (xs ++ ys) ≡ values type xs ++ values type ys
unfolding values
values-append type [] ys = refl
values-append type ((t, value) ∷ xs) ys = ground (arith, values-append type xs ys)
