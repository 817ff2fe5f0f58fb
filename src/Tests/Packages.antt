-- ===== src/Tests/Packages.antt =====
-- Key packages, in the storage and behind the methods of the server.
use cordn.Prelude.{
  if◌then◌else◌, any, ◌==◌, String, ◌≡◌, refl, ◌⊎◌, Bool, true, false, Option, none, some, [], ◌∷◌,
  arith, ◌<◌, length, take, get_elem?, filter, find?, All, string_eq, String_discrete, nat_eq,
}
use cordn.Prelude.Map
use cordn.Result.{err, Error, ok}
use cordn.Storage.Inbox.{pending}
use cordn.Storage.KeyPackages.{
  PublishedKeyPackageRecord, KeyPackageIndex, has_ref, is_regular, last?, list_all_key_packages,
  find_key_package, get_key_package, remove_key_package, consume_key_package, consume_by_reference,
  consume_by_identity, publish_key_package, find_index, list_key_packages_for_identity, remove_at,
  put_back,
}
use cordn.Storage.KeyPackages.Removal.{erase_first}
use cordn.Storage.KeyPackages.Uniqueness
use cordn.Storage.KeyPackages.Uniqueness.{get-remove_key_package}
use cordn.Storage.KeyPackages.Consumption.{
  consume_key_package-last_resort, consume_key_package-regular, consume_key_package-identity,
}
use cordn.Server.Methods.{
  KeyPackageQuota, publish, remove_key_packages, require_client_pubkey, verify_binding,
  enforce_key_package_quota, new_key_package, superseded, remove_each,
}
use cordn.Server.Methods.Quota.{enforce_key_package_quota-room}
use cordn.Server.Methods.Authorisation.{owner_of, publish-bound, remove_key_packages-owner_of}

abbrev Package : Type 0
Package = PublishedKeyPackageRecord (String × Bool) String

abbrev kp_of : String → String → Bool → Package
kp_of owner ref last_resort = record {
  stable_pubkey = owner;
  key_package = (owner, last_resort);
  key_package_ref = ref;
  is_last_resort = last_resort;
  published_at = 1;
  publication_event = owner;
}

abbrev packages : KeyPackageIndex (String × Bool) String
packages =
    ("alice", kp_of "alice" "a1" false ∷ kp_of "alice" "a2" true ∷ [])
    ∷ ("bob", kp_of "bob" "b1" true ∷ [])
    ∷ []

packages-IsValid : Uniqueness.IsValid packages
unfolding Map.get find? list_all_key_packages String_discrete
packages-IsValid = record { distinct = (refl, (refl, tt)); unique = (refl, (refl, (refl, tt))) }

consume_key_package-regular_example :
    (list_all_key_packages (consume_key_package "alice" packages).1
      ≡ erase_first (has_ref "a1") (list_all_key_packages packages))
    × (get_key_package "a1" (consume_key_package "alice" packages).1 ≡ none)
unfolding consume_key_package consume_by_reference consume_by_identity get_key_package
    find_key_package remove_key_package find_index pending Map.get find? get_elem? String_discrete
consume_key_package-regular_example =
    consume_key_package-regular "alice" packages (kp_of "alice" "a1" false) packages-IsValid refl
      refl

consume_key_package-last_resort_example : (consume_key_package "b1" packages).1 ≡ packages
unfolding consume_key_package consume_by_reference get_key_package find_key_package find_index
    get_elem? String_discrete
consume_key_package-last_resort_example =
    consume_key_package-last_resort "b1" packages (kp_of "bob" "b1" true) packages-IsValid refl refl

consume_key_package-identity_example :
    (consume_key_package "bob" packages).0 ≡ elim (find? is_regular (pending "bob" packages)) [
      | some r ↦ some r
      | none ↦ last? (pending "bob" packages)
    ]
unfolding get_key_package find_key_package find_index String_discrete
consume_key_package-identity_example =
    consume_key_package-identity "bob" packages packages-IsValid refl

remove_key_packages-owner_of_example :
    ((e : Error) × (remove_key_packages (some "alice") ("a1" ∷ []) packages ≡ (err e, packages)))
    ⊎ ((m' : KeyPackageIndex (String × Bool) String) × (remove_key_packages
            (some "alice")
            ("a1" ∷ [])
            packages
          ≡ (ok ("a1" ∷ []), m'))
        × All (λ ref. owner_of packages ref ≡ some "alice") ("a1" ∷ [])
        × ((ref : String)
            → get_key_package ref m'
              ≡ (if any (λ k. k == ref) ("a1" ∷ []) then none else get_key_package ref packages)))
remove_key_packages-owner_of_example =
    remove_key_packages-owner_of "alice" ("a1" ∷ []) packages packages-IsValid

abbrev decode : String → Option (String × Bool)
decode kp_64 = some (kp_64, false)

abbrev identity : String × Bool → Option String
identity p = some p.0

abbrev last_resort : String × Bool → Bool
last_resort p = p.1

abbrev signer : String → String
signer event = event

abbrev quota : KeyPackageQuota
quota = record { max_per_identity = 50; max_last_resort_per_identity = 1 }

abbrev published : Package
published =
    new_key_package decode identity last_resort signer "alice" "a3" ("alice", false) "alice" 2

publish-bound_example :
    (some "alice" ≡ some published.stable_pubkey)
    × (identity published.key_package ≡ some published.stable_pubkey)
    × (signer published.publication_event ≡ published.stable_pubkey)
    × (published.is_last_resort ≡ last_resort published.key_package)
unfolding publish require_client_pubkey verify_binding enforce_key_package_quota
    list_key_packages_for_identity pending Map.get String_discrete
publish-bound_example =
    publish-bound decode identity last_resort signer quota (some "alice") "alice" "a3"
      (some "alice") 2 packages (publish_key_package published packages) published refl

abbrev alice_left : KeyPackageIndex (String × Bool) String
alice_left = (remove_key_package "a2" packages).1

enforce_key_package_quota-room_example :
    length (pending "alice" alice_left) < quota.max_per_identity
unfolding enforce_key_package_quota list_key_packages_for_identity superseded remove_each
    remove_key_package find_key_package find_index remove_at put_back pending Map.get Map.set filter
    take String_discrete
enforce_key_package_quota-room_example =
    enforce_key_package_quota-room quota "alice" true packages alice_left
      (record { total = omega arith; last_resorts = omega arith }) packages-IsValid (omega arith)
      refl
