-- ===== src/Client/AdminPolicy/Authorisation.antt =====
-- Who may change a group's membership and settings.
use mathlib.Core.Bool.{Bool}
use cordn.Prelude.{
  String, ◌≡◌, refl, sym, ap, ◌∙◌, ◌⊎◌, inl, inr, true, false, ◌||◌, Option, some, List, [], ◌∷◌,
  arith, if◌then◌else◌, ◌==◌, Bool-cases, Option-cases, eq_of_==, any, find?, find?-Contains,
  find?-true, Contains, string_eq, nat_eq,
}
use cordn.Result.{Result, ok, err, ◌>>=◌}
use cordn.Client.Pubkey.{normalize_pubkey}
use cordn.Client.AdminPolicy.{
  GroupMetadata, GroupMember, ProposalTypes, Incoming, accept, reject, get_group_admin_pubkeys,
  is_group_admin, is_empty, requires_admin, sender_leaf_index, authorize_sender, authorize, Error,
}

-- The group has no admins, or the normalized key is one of them.
abbrev pub Administers : Option GroupMetadata → String → Type 0
Administers metadata stable_pubkey =
    (pubkey : String) × (admins : List String) × (normalize_pubkey stable_pubkey ≡ ok pubkey)
    × (get_group_admin_pubkeys metadata ≡ ok admins)
    × ((admins ≡ []) ⊎ Contains pubkey admins)

any-Contains :
    (pubkey : String) (admins : List String)
    → any (λ admin. admin == pubkey) admins ≡ true
    → Contains pubkey admins
unfolding any
any-Contains pubkey [] h = cc
any-Contains pubkey (a ∷ admins) h = elim (Bool-cases (a == pubkey)) [
  | inl here ↦ inl (eq_of_== a pubkey here)
  | inr other ↦ inr (any-Contains pubkey admins (ground (arith, other, h)))
]

listed :
    (pubkey : String) (admins : List String)
    → (is_empty admins || any (λ admin. admin == pubkey) admins) ≡ true
    → (admins ≡ []) ⊎ Contains pubkey admins
listed pubkey [] h = inl refl
listed pubkey (a ∷ admins) h = inr (any-Contains pubkey (a ∷ admins) h)

Result-cases : {A : Type 0} (r : Result A) → ((a : A) × (r ≡ ok a)) ⊎ ((e : Error) × (r ≡ err e))
Result-cases (ok a) = inl (a, refl)
Result-cases (err e) = inr (e, refl)

is_group_admin-Administers :
    (metadata : Option GroupMetadata) (stable_pubkey : String)
    → is_group_admin metadata stable_pubkey ≡ ok true
    → Administers metadata stable_pubkey
unfolding is_group_admin
is_group_admin-Administers metadata stable_pubkey h =
    elim (Result-cases (normalize_pubkey stable_pubkey)) [
      | inr (e, f) ↦ absurd (ground (arith, h, f))
      | inl (pubkey, f) ↦ elim (Result-cases (get_group_admin_pubkeys metadata)) [
        | inr (e, g) ↦ absurd (ground (arith, h, f, g))
        | inl (admins, g) ↦ (pubkey, admins, f, g, listed pubkey admins (ground (arith, h, f, g)))
      ]
    ]

accepted :
    (admin : Result Bool)
    → (admin >>= λ a. ok (if a then accept else reject)) ≡ ok accept
    → admin ≡ ok true
accepted (ok true) h = refl
accepted (ok false) h = cc
accepted (err e) h = cc

-- If the callback accepts a commit or a proposal that adds or removes a member or changes the group's
-- settings, then its sender is known, stands in the group as a member, and is one of the group's admins
-- unless the group has none.
pub authorize-Administers :
    (types : ProposalTypes) (metadata : Option GroupMetadata) (members : List GroupMember)
    (incoming : Incoming)
    → authorize types metadata members incoming ≡ ok accept
    → requires_admin types incoming ≡ true
    → (sender : GroupMember) × Contains sender members
      × (sender_leaf_index types incoming ≡ some sender.leaf_index)
      × Administers metadata sender.stable_pubkey
unfolding authorize authorize_sender
authorize-Administers types metadata members incoming h r =
    elim (Option-cases (sender_leaf_index types incoming)) [
      | inl e ↦ absurd (ground (arith, h, r, e))
      | inr (leaf, e) ↦ elim (Option-cases (find? (λ member. member.leaf_index == leaf) members)) [
        | inl f ↦ absurd (ground (arith, h, r, e, f))
        | inr (sender, f) ↦
            let named =
              eq_of_== sender.leaf_index leaf
                (find?-true (λ member. member.leaf_index == leaf) sender members f) in
            (
              sender,
              find?-Contains (λ member. member.leaf_index == leaf) sender members f,
              e ∙ ap some (sym named),
              is_group_admin-Administers metadata sender.stable_pubkey (
                  accepted (is_group_admin metadata sender.stable_pubkey)
                    (ground (arith, h, r, e, f))),
            )
      ]
    ]
