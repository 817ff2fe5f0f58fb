-- ===== src/Server/Adapter/Counts.antt =====
-- The key packages under the methods: one record to a reference, and each identity within its quota.
use Prim.Native.Nat.{min, ℕ, ◌+◌}
use cordn.Prelude.{
  String, ◌≡◌, refl, inl, inr, Bool, true, false, ◌&&◌, Option, none, List, [], ◌∷◌, ◌++◌, arith,
  ◌≤◌, ◌<◌, ltb, ◌==◌, Bool-cases, Option-cases, length, filter, find?, length-append, string_eq,
  nat_eq,
}
use cordn.Result.{Result, ok, err, Result-cases}
use cordn.Storage.Inbox.{pending}
use cordn.Storage.Inbox.Laws.{pending-set}
use cordn.Storage.KeyPackages.{
  PublishedKeyPackageRecord, KeyPackageIndex, list_all_key_packages, get_key_package,
  remove_key_package, consume_key_package, publish_key_package, list_key_packages_for_identity,
}
use cordn.Storage.KeyPackages.Removal.{
  erase_first, list-remove_key_package, get_key_package-eq-find?,
}
use cordn.Storage.KeyPackages.Uniqueness.{IsValid, remove_key_package-IsValid}
use cordn.Storage.KeyPackages.Consumption.{consume_nothing, consume_key_package-Consumed}
use cordn.Storage.KeyPackages.Ownership.{publish_key_package-IsValid}
use cordn.Server.Methods.{
  KeyPackageQuota, remove_each, superseded, require_client_pubkey, authorise, verify_binding,
  new_key_package, enforce_key_package_quota, remove_key_packages, publish,
}
use cordn.Server.Methods.Quota.{IsLimiting, length-remove_le, enforce_key_package_quota-room}

module _ {P E : Type 0} where
  -- The map `m'` is valid and has no more than `m`, for each identity and each reference.
  pub record Shrunk (m m' : KeyPackageIndex P E) : Type 0 where
    pub valid : IsValid m'
    pub counts : (k : String) → length (pending k m') ≤ length (pending k m)
    pub missing : (ref : String) → get_key_package ref m ≡ none → get_key_package ref m' ≡ none

  pub Shrunk-refl : (m : KeyPackageIndex P E) → IsValid m → Shrunk m m
  Shrunk-refl m v = record { valid = v; counts = λ k. omega arith; missing = λ ref h. h }

  pub Shrunk-trans : (a b c : KeyPackageIndex P E) → Shrunk a b → Shrunk b c → Shrunk a c
  Shrunk-trans a b c f g = record {
    valid = g.valid;
    counts = λ k. omega (arith, f.counts k, g.counts k);
    missing = λ ref h. g.missing ref (f.missing ref h);
  }

  erase_first-missing :
      (p q : PublishedKeyPackageRecord P E → Bool) (rs : List (PublishedKeyPackageRecord P E))
      → find? p rs ≡ none
      → find? p (erase_first q rs) ≡ none
  unfolding find? erase_first
  erase_first-missing p q [] h = refl
  erase_first-missing p q (r ∷ rs) h = ground (arith, erase_first-missing p q rs)

  pub remove_key_package-Shrunk :
      (ref : String) (m : KeyPackageIndex P E) → IsValid m → Shrunk m (remove_key_package ref m).1
  remove_key_package-Shrunk ref m v = record {
    valid = remove_key_package-IsValid ref m v;
    counts = λ k. length-remove_le ref k m v.distinct;
    missing = λ other h.
        rw (get_key_package-eq-find?, list-remove_key_package ref m v.distinct)
          (erase_first-missing _ _ (list_all_key_packages m) (rw get_key_package-eq-find? at h));
  }

  pub remove_each-Shrunk :
      (rs : List (PublishedKeyPackageRecord P E)) (m : KeyPackageIndex P E)
      → IsValid m
      → Shrunk m (remove_each rs m)
  unfolding remove_each
  remove_each-Shrunk [] m v = Shrunk-refl m v
  remove_each-Shrunk (r ∷ rs) m v =
      let once = remove_key_package-Shrunk r.key_package_ref m v in
      Shrunk-trans m _ _ once (remove_each-Shrunk rs _ once.valid)

  pub consume_key_package-Shrunk :
      (id : String) (m : KeyPackageIndex P E) → IsValid m → Shrunk m (consume_key_package id m).1
  consume_key_package-Shrunk id m v = elim (Option-cases (consume_key_package id m).0) [
    | inl e ↦ rw (consume_nothing id m e) (Shrunk-refl m v)
    | inr (r, e) ↦ elim (consume_key_package-Consumed id m r v e) [
      | inl c ↦ rw c.1 (Shrunk-refl m v)
      | inr c ↦ rw c.1 (remove_key_package-Shrunk r.key_package_ref m v)
    ]
  ]

  pub enforce-Shrunk :
      (quota : KeyPackageQuota) (k : String) (last_resort : Bool) (m : KeyPackageIndex P E)
      → IsValid m
      → Shrunk m (enforce_key_package_quota quota k last_resort m).1
  unfolding enforce_key_package_quota
  enforce-Shrunk quota k false m v =
      let e : (enforce_key_package_quota quota k false m).1 ≡ m = ground arith in
      rw e (Shrunk-refl m v)
  enforce-Shrunk quota k true m v =
      let existing : List (PublishedKeyPackageRecord P E) =
        filter (λ r. r.is_last_resort) (list_key_packages_for_identity k m) in
      let gone = remove_each-Shrunk (superseded quota existing) m v in
      elim (Bool-cases (
        ltb 0 quota.max_per_identity
        && ltb (quota.max_per_identity + length existing) (
            length (list_key_packages_for_identity k (remove_each (superseded quota existing) m))
            + min (length existing + 1) quota.max_last_resort_per_identity))) [
              | inl full ↦ rw (full, enforce_key_package_quota) gone
              | inr free ↦ rw (free, enforce_key_package_quota) gone
            ]

  pub remove_key_packages-Shrunk :
      (client : Option String) (refs : List String) (m : KeyPackageIndex P E)
      → IsValid m
      → Shrunk m (remove_key_packages client refs m).1
  unfolding remove_key_packages
  remove_key_packages-Shrunk client refs m v = elim (Result-cases (require_client_pubkey client)) [
    | inr (x, e) ↦ rw (e, remove_key_packages) (Shrunk-refl m v)
    | inl (pubkey, e) ↦ elim (Result-cases (authorise pubkey refs m)) [
      | inr (x, f) ↦ rw (e, remove_key_packages) (rw f (Shrunk-refl m v))
      | inl (rs, f) ↦ rw (e, remove_key_packages) (rw f (remove_each-Shrunk rs m v))
    ]
  ]

  -- One record to a reference, and no identity over its quota.
  pub record IsWithin (quota : KeyPackageQuota) (m : KeyPackageIndex P E) : Type 0 where
    pub valid : IsValid m
    pub counts : (k : String) → length (pending k m) ≤ quota.max_per_identity

  pub Shrunk-IsWithin :
      (quota : KeyPackageQuota) (m m' : KeyPackageIndex P E)
      → IsWithin quota m
      → Shrunk m m'
      → IsWithin quota m'
  Shrunk-IsWithin quota m m' w f = record {
    valid = f.valid;
    counts = λ k. omega (arith, w.counts k, f.counts k);
  }

  publish_key_package-IsWithin :
      (quota : KeyPackageQuota) (r : PublishedKeyPackageRecord P E) (m : KeyPackageIndex P E)
      → IsWithin quota m
      → length (pending r.stable_pubkey m) < quota.max_per_identity
      → get_key_package r.key_package_ref m ≡ none
      → IsWithin quota (publish_key_package r m)
  unfolding publish_key_package
  publish_key_package-IsWithin quota r m w room fresh = record {
    valid = publish_key_package-IsValid r m w.valid (rw get_key_package-eq-find? at fresh);
    counts = λ k.
        rw (pending-set r.stable_pubkey k (pending r.stable_pubkey m ++ r ∷ []) m)
          (elim (Bool-cases (r.stable_pubkey == k)) [
            | inl here ↦
                rw here (omega (arith, room, length-append (pending r.stable_pubkey m) (r ∷ [])))
            | inr other ↦ rw other (w.counts k)
          ]);
  }

  module _ (decode_key_package : String → Option P) (identity : P → Option String)
      (is_last_resort : P → Bool) (signer : E → String) where
    -- The end of a publication, from the quota on.
    allowed-IsWithin :
        (quota : KeyPackageQuota) (stable ref : String) (decoded : P) (signed : E) (now : ℕ)
        (m : KeyPackageIndex P E)
        → IsLimiting quota
        → IsWithin quota m
        → get_key_package ref m ≡ none
        → let checked = enforce_key_package_quota quota stable (is_last_resort decoded) m in
          let new =
            new_key_package decode_key_package identity is_last_resort signer stable ref decoded
              signed now in
          let done : Result (PublishedKeyPackageRecord P E) × KeyPackageIndex P E = elim checked.0 [
            | err e ↦ (err e, checked.1)
            | ok _ ↦ (ok new, publish_key_package new checked.1)
          ] in
          IsWithin quota done.1
    unfolding new_key_package
    allowed-IsWithin quota stable ref decoded signed now m limits w fresh =
        let checked = enforce_key_package_quota quota stable (is_last_resort decoded) m in
        let kept = enforce-Shrunk quota stable (is_last_resort decoded) m w.valid in
        let within = Shrunk-IsWithin quota m checked.1 w kept in
        elim (Result-cases checked.0) [
          | inr (x, c) ↦ rw c within
          | inl (u, c) ↦ rw c (
              publish_key_package-IsWithin quota
                (new_key_package decode_key_package identity is_last_resort signer stable ref
                  decoded signed now)
                checked.1 within
                (enforce_key_package_quota-room quota stable (is_last_resort decoded) m checked.1
                  limits w.valid (w.counts stable) (λ i. (c i, checked.1)))
                (kept.missing ref fresh))
        ]

    -- A publication under a new reference keeps every identity within a limiting quota.
    pub publish-IsWithin :
        (quota : KeyPackageQuota) (client : Option String) (kp_64 ref : String) (event : Option E)
        (now : ℕ) (m : KeyPackageIndex P E)
        → IsLimiting quota
        → IsWithin quota m
        → get_key_package ref m ≡ none
        → IsWithin quota
            (publish decode_key_package identity is_last_resort signer quota client kp_64 ref event
              now m).1
    unfolding publish new_key_package
    publish-IsWithin quota client kp_64 ref event now m limits w fresh =
        elim (Result-cases (require_client_pubkey client)) [
          | inr (x, e) ↦ rw (e, publish) w
          | inl (pubkey, e) ↦ elim (Option-cases (decode_key_package kp_64)) [
            | inl f ↦ rw (e, publish) (rw f w)
            | inr (decoded, f) ↦ elim (Option-cases event) [
              | inl g ↦ rw (e, publish) (rw f (rw g w))
              | inr (signed, g) ↦
                  elim (Result-cases (
                    verify_binding decode_key_package identity is_last_resort signer pubkey signed
                      decoded)) [
                        | inr (x, h) ↦ rw (e, publish) (rw f (rw g (rw h w)))
                        | inl (stable, h) ↦
                            rw (e, publish)
                              (rw f (
                                rw g (
                                  rw h (
                                    allowed-IsWithin quota stable ref decoded signed now m limits w
                                      fresh))))
                      ]
            ]
          ]
        ]
