-- ===== src/Storage/Inbox.antt =====
-- What the methods on welcomes and on join requests share: a map from an owner (an identity, a
-- group) to the list of its pending records.
pub mod Laws
pub mod Handled
use cordn.Prelude.{
  ℕ, ◌+◌, ◌-◌, Bool, not, get_or, List, [], ◌∷◌, Eq, if◌then◌else◌, length, filter, any, leb,
}
use cordn.Prelude.Map
use cordn.Prelude.Map.{Map}

abbrev pub Inbox {ℓ} : Type ℓ → Type ℓ → Type ℓ
Inbox K R = Map K (List R)

-- `map.get(key) ?? []`
unfoldable pub pending {ℓ} : {K R : Type ℓ} ⦃e : Eq K⦄ → K → Inbox K R → List R
pending k m = get_or (Map.get k m) []

-- An owner with no record left has no entry.
unfoldable pub put {ℓ} : {K R : Type ℓ} ⦃e : Eq K⦄ → K → List R → Inbox K R → Inbox K R
put k [] m = Map.delete k m
put k (r ∷ rs) m = Map.set k (r ∷ rs) m

-- The records that none of the consumed references names.
unfoldable pub unconsumed {ℓ κ} :
    {R : Type ℓ} {C : Type κ} → (C → R → Bool) → List C → List R → List R
unconsumed names consumed = filter (λ r. not (any (λ c. names c r) consumed))

-- `fetchPending…`: with consumed references, the records that they name are dropped for good;
-- without, nothing changes. What remains is returned.
unfoldable pub fetch {ℓ κ} :
    {K R : Type ℓ} ⦃e : Eq K⦄ {C : Type κ}
    → (C → R → Bool)
    → K
    → List C
    → Inbox K R
    → List R × Inbox K R
fetch names k [] m = (pending k m, m)
fetch names k (c ∷ cs) m =
    let remaining = unconsumed names (c ∷ cs) (pending k m) in (remaining, put k remaining m)

module _ {ℓ} {K R : Type ℓ} where
  unfoldable pub put_front : K → List R → Inbox K R → Inbox K R
  put_front k [] m = m
  put_front k (r ∷ rs) m = (k, r ∷ rs) ∷ m

  -- The loop of `deleteExpired…` over the entries of the map, with the count of what it deletes.
  unfoldable pub sweep : (R → Bool) → Inbox K R → ℕ × Inbox K R
  sweep keep [] = (0, [])
  sweep keep ((k, rs) ∷ m) =
      let kept = filter keep rs in
      let rest = sweep keep m in (length rs - length kept + rest.0, put_front k kept rest.1)

  -- `deleteExpired…(maxAgeThreshold)`: nothing happens at a threshold of 0 (or below).
  unfoldable pub delete_expired : (R → ℕ) → ℕ → Inbox K R → ℕ × Inbox K R
  delete_expired created_at threshold m =
      if leb threshold 0 then (0, m) else sweep (λ r. leb threshold (created_at r)) m
