-- ===== src/Storage/Groups/Log.antt =====
-- The log of a group: cursors count its messages from 1, and a fetch is a suffix.
use cordn.Prelude.{
  dec_lt, ℕ, suc, String, ◌≡◌, refl, sym, ap, ◌∙◌, subst, inl, inr, Option, none, some, get_or,
  List, [], ◌∷◌, ◌++◌, append-nil, append_assoc, arith, ◌+◌, ◌-◌, if◌then◌else◌, ltb, ◌==◌,
  Bool-cases, Option-cases, eq_of_==, length, drop, filter, length-append, drop_zero, drop-suc,
  drop_all, drop-append_self, string_eq, nat_eq,
}
use native.Mathlib.Nat.{sub-zero}
use cordn.Prelude.Map
use cordn.Prelude.Map.{get-set}
use cordn.Storage.Groups.{
  GroupMessageRecord, GroupLog, AppendGroupMessageParams, Groups, create_group_log,
  append_group_message, messages_of, fetch_group_messages, push_message, next_message,
}

-- The messages are those of the group, with the cursors `n`, `n + 1`, ….
abbrev pub Numbered : String → ℕ → List GroupMessageRecord → Type 0
Numbered g n [] = Unit
Numbered g n (r ∷ rs) = (r.cursor ≡ n) × (r.group_id ≡ g) × Numbered g (suc n) rs

pub record IsLog (g : String) (group : GroupLog) : Type 0 where
  pub next : group.next_cursor ≡ length group.messages + 1
  pub last : group.routing.last_message_cursor ≡ length group.messages
  pub routed : group.routing.group_id ≡ g
  pub numbered : Numbered g 1 group.messages

pub record IsValid (m : Groups) : Type 0 where
  pub logs : (g : String) (group : GroupLog) → Map.get g m ≡ some group → IsLog g group

Numbered-append :
    (g : String) (n : ℕ) (rs : List GroupMessageRecord) (r : GroupMessageRecord)
    → Numbered g n rs
    → r.cursor ≡ n + length rs
    → r.group_id ≡ g
    → Numbered g n (rs ++ r ∷ [])
Numbered-append g n [] r h c e = (omega arith, e, tt)
Numbered-append g n (x ∷ rs) r h c e =
    (h.0, h.1, Numbered-append g (suc n) rs r h.2 (omega arith) e)

create_group_log-IsLog : (g : String) → IsLog g (create_group_log g)
unfolding create_group_log
create_group_log-IsLog g = record { next = omega arith; last = refl; routed = refl; numbered = tt }

-- The group as `appendGroupMessage` finds or creates it.
abbrev pub group_of : String → Groups → GroupLog
group_of g m = get_or (Map.get g m) (create_group_log g)

pub group_of-IsLog : (g : String) (m : Groups) → IsValid m → IsLog g (group_of g m)
group_of-IsLog g m v = elim (Option-cases (Map.get g m)) [
  | inl e ↦ rw e (create_group_log-IsLog g)
  | inr (group, e) ↦ rw e (v.logs g group e)
]

pub messages_of-group_of : (g : String) (m : Groups) → messages_of g m ≡ (group_of g m).messages
unfolding messages_of create_group_log
messages_of-group_of g m = ground arith

-- The message that an append makes.
abbrev pub appended : AppendGroupMessageParams → Groups → GroupMessageRecord
appended p m = (append_group_message p m).0

pub appended-group :
    (p : AppendGroupMessageParams) (m : Groups) → (appended p m).group_id ≡ p.group_id
unfolding append_group_message next_message
appended-group p m = refl

-- The new message's cursor is one more than the number of the group's messages.
pub appended-cursor :
    (p : AppendGroupMessageParams) (m : Groups)
    → IsValid m
    → (appended p m).cursor ≡ length (messages_of p.group_id m) + 1
unfolding append_group_message next_message
appended-cursor p m v = rw messages_of-group_of (group_of-IsLog p.group_id m v).next

pub get-append :
    (g : String) (p : AppendGroupMessageParams) (m : Groups)
    → Map.get g (append_group_message p m).1 ≡ (
        if p.group_id == g
        then some (push_message (appended p m) (group_of p.group_id m))
        else Map.get g m)
unfolding append_group_message
get-append g p m = get-set p.group_id g _ m

-- An append adds its message at the end of its group, and changes no other group.
pub messages_of-append :
    (g : String) (p : AppendGroupMessageParams) (m : Groups)
    → messages_of g (append_group_message p m).1
      ≡ (if p.group_id == g then messages_of g m ++ appended p m ∷ [] else messages_of g m)
unfolding messages_of push_message
messages_of-append g p m = ground (arith, get-append g p m, messages_of-group_of g m)

push_message-IsLog :
    (g : String) (group : GroupLog) (r : GroupMessageRecord)
    → IsLog g group
    → r.cursor ≡ group.next_cursor
    → r.group_id ≡ g
    → IsLog g (push_message r group)
unfolding push_message
push_message-IsLog g group r v c e = record {
  next = omega (arith, v.next, length-append group.messages (r ∷ []));
  last = omega (arith, v.next, c, length-append group.messages (r ∷ []));
  routed = v.routed;
  numbered = Numbered-append g 1 group.messages r v.numbered (omega (arith, v.next, c)) e;
}

grown-IsLog :
    (p : AppendGroupMessageParams) (m : Groups)
    → IsValid m
    → IsLog p.group_id (push_message (appended p m) (group_of p.group_id m))
unfolding append_group_message next_message
grown-IsLog p m v =
    push_message-IsLog p.group_id (group_of p.group_id m) _ (group_of-IsLog p.group_id m v) refl
      refl

-- An append keeps every group's cursors counting its messages from 1, in order, with the next and
-- the last cursor in step.
pub append_group_message-IsValid :
    (p : AppendGroupMessageParams) (m : Groups) → IsValid m → IsValid (append_group_message p m).1
append_group_message-IsValid p m v = record {
  logs = λ g group e. elim (Bool-cases (p.group_id == g)) [
    | inl here ↦ subst (IsLog g) (ground (arith, get-append g p m)) (
        subst (λ k. IsLog k (push_message (appended p m) (group_of p.group_id m)))
          (eq_of_== p.group_id g here) (grown-IsLog p m v))
    | inr other ↦ v.logs g group (ground (arith, get-append g p m))
  ];
}

pub messages_of-Numbered : (g : String) (m : Groups) → IsValid m → Numbered g 1 (messages_of g m)
messages_of-Numbered g m v = rw messages_of-group_of (group_of-IsLog g m v).numbered

-- Of messages numbered from `n + 1`, those after the cursor `c` are all but the first `c - n`.
after-drop :
    (g : String) (n c : ℕ) (rs : List GroupMessageRecord)
    → Numbered g (suc n) rs
    → filter (λ r. ltb c r.cursor) rs ≡ drop (c - n) rs
unfolding filter
after-drop g n c [] h = sym (drop_all (c - n) [] (omega arith))
after-drop g n c (r ∷ rs) h = elim (dec_lt n c) [
  | yes p ↦
      let e : c - n ≡ suc (c - suc n) = omega arith in
      rw e (ground (arith, after-drop g (suc n) c rs h.2, drop-suc (c - suc n) r rs))
  | no p ↦
      let e : c - n ≡ 0 = omega arith in
      let f : c - suc n ≡ 0 = omega arith in
      rw (e, drop_zero)
        (ground (arith, drop_zero rs, ap (λ k. drop k rs) f, after-drop g (suc n) c rs h.2))
]

-- In valid groups, a fetch after a cursor returns the messages of the group from that number on,
-- in order, and a fetch without a cursor returns them all.
pub fetch_group_messages-drop :
    (g : String) (after_cursor : Option ℕ) (m : Groups)
    → IsValid m
    → fetch_group_messages (record { group_id = g; after_cursor = after_cursor }) m
      ≡ drop (get_or after_cursor 0) (messages_of g m)
unfolding fetch_group_messages
fetch_group_messages-drop g none m v = sym (drop_zero (messages_of g m))
fetch_group_messages-drop g (some c) m v =
    after-drop g 0 c (messages_of g m) (messages_of-Numbered g m v)
    ∙ ap (λ k. drop k (messages_of g m)) (sub-zero c)

-- In a run of appends, the messages that went to the group `g`, in order.
abbrev pub sent_to : String → List AppendGroupMessageParams → Groups → List GroupMessageRecord
sent_to g [] m = []
sent_to g (p ∷ ps) m =
    (if p.group_id == g then appended p m ∷ [] else []) ++ sent_to g ps (append_group_message p m).1

unfoldable pub append_all : List AppendGroupMessageParams → Groups → Groups
append_all [] m = m
append_all (p ∷ ps) m = append_all ps (append_group_message p m).1

pub append_all-IsValid :
    (ps : List AppendGroupMessageParams) (m : Groups) → IsValid m → IsValid (append_all ps m)
unfolding append_all
append_all-IsValid [] m v = v
append_all-IsValid (p ∷ ps) m v =
    append_all-IsValid ps (append_group_message p m).1 (append_group_message-IsValid p m v)

pub messages_of-append_all :
    (g : String) (ps : List AppendGroupMessageParams) (m : Groups)
    → messages_of g (append_all ps m) ≡ messages_of g m ++ sent_to g ps m
unfolding append_all
messages_of-append_all g [] m = sym (append-nil (messages_of g m))
messages_of-append_all g (p ∷ ps) m = elim (Bool-cases (p.group_id == g)) [
  | inl here ↦
      rw (messages_of-append_all g ps (append_group_message p m).1, messages_of-append g p m, here)
        (simp append_assoc)
  | inr other ↦
      rw (messages_of-append_all g ps (append_group_message p m).1, messages_of-append g p m, other)
]

-- In valid groups, a client that has read a group up to its last message and fetches after that
-- cursor, when any messages have been appended to any groups, receives exactly the messages that
-- went to this group since, in the order in which they were appended.
pub fetch_group_messages-append_all :
    (g : String) (ps : List AppendGroupMessageParams) (m : Groups)
    → IsValid m
    → fetch_group_messages
        (record { group_id = g; after_cursor = some (length (messages_of g m)) })
        (append_all ps m)
      ≡ sent_to g ps m
fetch_group_messages-append_all g ps m v =
    rw
      (
        fetch_group_messages-drop g (some (length (messages_of g m))) (append_all ps m)
            (append_all-IsValid ps m v),
        messages_of-append_all,
      )
      (drop-append_self (messages_of g m) (sent_to g ps m))
