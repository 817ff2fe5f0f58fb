-- ===== src/Server/Streaming/Closed.antt =====
-- The stream's handler once its subscription is cleaned up, and what it has left to do.
use cordn.Prelude.{
  ℕ, String, ◌≡◌, refl, sym, ap, ◌∙◌, subst, inl, inr, Bool, true, false, Option, none, some, List,
  ◌++◌, arith, ◌+◌, ◌*◌, ◌≤◌, ◌==◌, Option-cases, length, get_elem?, any, string_eq, nat_eq,
}
use cordn.Prelude.Map
use cordn.Coordinator.MessageQueue
use cordn.Coordinator.MessageQueue.{value, done, rejected}
use cordn.Coordinator.MessageQueue.Delivery.{contents, contents-next, returned}
use cordn.Coordinator.Subscriptions.{Hub, LiveQueue, read_next, post_group_message}
use cordn.Coordinator.Subscriptions.Membership.{ids_of}
use cordn.Coordinator.Subscriptions.Fanout.{among}
use cordn.Coordinator.Subscriptions.Calls.{IsValid, step-IsValid}
use cordn.Coordinator.Subscriptions.Calls as Calls
use cordn.Storage.Groups.{GroupMessageRecord, AppendGroupMessageParams}
use cordn.Server.Streaming.{
  Reply, Phase, starting, waiting, settled, writing, leaving, failing, closing, aborting, finished,
  Streaming, is_waiting, close_queue, cleanup_subscriptions, read, fail, finish, complete, leave,
}
use cordn.Server.Streaming.Phases.{queue_at, read_next-queue, close_queue-queue}

-- No set of the groups has the subscriber.
abbrev pub Gone : List String → ℕ → Hub → Type 0
Gone gs id hub = (g : String) → any (λ k. k == g) gs ≡ true → among id (ids_of g hub) ≡ false

abbrev pub unread : LiveQueue → ℕ
unread q = length (contents q)

-- How often the handler may still resume, when its queue takes nothing more.
unfoldable pub rank : Phase → ℕ → ℕ
rank starting n = 4 + 2 * n
rank waiting n = 0
rank (settled (value message)) n = 5 + 2 * n
rank (settled done) n = 3
rank (settled (rejected error)) n = 2
rank (writing message) n = 4 + 2 * n
rank leaving n = 3
rank (failing error) n = 2
rank closing n = 2
rank (aborting error) n = 1
rank (finished outcome) n = 0

pub record Closed (q : LiveQueue) (s : Streaming) : Type 0 where
  pub valid : IsValid s.hub
  pub entry : queue_at s.id s.hub ≡ some q
  pub closed : q.closed ≡ true
  pub cleaned : s.cleaned_up ≡ true
  pub gone : Gone s.group_ids s.id s.hub

abbrev pub Ending : ℕ → Streaming → Type 0
Ending n s =
    (q : LiveQueue) × Closed q s × (is_waiting s.phase ≡ false) × (rank s.phase (unread q) ≤ n)

unread-next :
    (q : LiveQueue) (v : GroupMessageRecord)
    → get_elem? q.values q.next_value_index ≡ some v
    → unread (MessageQueue.next 0 q).1 + 1 ≡ unread q
unfolding MessageQueue.next
unread-next q v e =
    let got : (MessageQueue.next 0 q).0 ≡ some (value v) = rw (e, MessageQueue.next) refl in
    omega (
      arith,
      ap length (
          subst (λ x. returned x ++ contents (MessageQueue.next 0 q).1 ≡ contents q) got
            (contents-next 0 q)),
    )

-- A closed queue answers at once.
next-closed :
    (q : LiveQueue)
    → q.closed ≡ true
    → (r : Reply) × ((MessageQueue.next 0 q).0 ≡ some r)
      × ((MessageQueue.next 0 q).1.closed ≡ true)
      × (rank (settled r) (unread (MessageQueue.next 0 q).1) + 1 ≤ 4 + 2 * unread q)
unfolding MessageQueue.next MessageQueue.compact rank
next-closed q h = elim (Option-cases (get_elem? q.values q.next_value_index)) [
  | inl e ↦ elim (Option-cases q.aborted) [
    | inl f ↦ (done, ground arith, ground arith, ground arith)
    | inr (x, f) ↦ (rejected x, ground arith, ground arith, ground arith)
  ]
  | inr (v, e) ↦ (value v, ground arith, ground arith, ground (arith, unread-next q v e))
]

read_next-sets :
    (g : String) (id promise : ℕ) (hub : Hub) → ids_of g (read_next id promise hub).1 ≡ ids_of g hub
unfolding read_next
read_next-sets g id promise hub = ground arith

pub read_next-IsValid :
    (id promise : ℕ) (hub : Hub) → IsValid hub → IsValid (read_next id promise hub).1
unfolding Calls.step
read_next-IsValid id promise hub = step-IsValid id (Calls.reads id promise) hub

pub post_group_message-IsValid :
    (p : AppendGroupMessageParams) (hub : Hub) → IsValid hub → IsValid (post_group_message p hub).2
unfolding Calls.step
post_group_message-IsValid p hub = step-IsValid 0 (Calls.posts p) hub

pub close_queue-same :
    (id : ℕ) (hub : Hub)
    → ((close_queue id hub).groups ≡ hub.groups)
      × ((close_queue id hub).group_subscribers ≡ hub.group_subscribers)
unfolding close_queue
close_queue-same id hub = ground arith

pub close_queue-IsValid : (id : ℕ) (hub : Hub) → IsValid hub → IsValid (close_queue id hub)
unfolding close_queue
close_queue-IsValid id hub v = elim (Option-cases (Map.get id hub.subscribers)) [
  | inl e ↦ rw (e, close_queue) v
  | inr (s, e) ↦ rw (e, close_queue) (record { groups = v.groups; sets = v.sets })
]

close-closed : (q : LiveQueue) → q.closed ≡ true → (MessageQueue.close q).1 ≡ q
unfolding MessageQueue.close MessageQueue.has_ended
close-closed q h = ground arith

module _ (q : LiveQueue) (s : Streaming) (c : Closed q s) where
  pub Closed-phase : (p : Phase) → Closed q (record s { phase = p })
  Closed-phase p = record {
    valid = c.valid;
    entry = c.entry;
    closed = c.closed;
    cleaned = c.cleaned;
    gone = c.gone;
  }

  pub cleanup_subscriptions-same : cleanup_subscriptions s ≡ s
  unfolding cleanup_subscriptions
  cleanup_subscriptions-same = rw (c.cleaned) refl

  pub fail-Ending : (n : ℕ) (e : String) → 1 ≤ n → Ending n (fail e s)
  unfolding fail rank is_waiting
  fail-Ending n e le = rw cleanup_subscriptions-same (q, Closed-phase (aborting e), refl, le)

  pub finish-Ending : (n : ℕ) (o : Option String) → Ending n (finish o s)
  unfolding finish rank is_waiting
  finish-Ending n o =
      rw cleanup_subscriptions-same (q, Closed-phase (finished o), refl, omega arith)

  pub complete-Ending : (n : ℕ) (a : Bool) → 2 ≤ n → Ending n (complete a s)
  unfolding complete rank is_waiting
  complete-Ending n true le = rw cleanup_subscriptions-same (q, Closed-phase closing, refl, le)
  complete-Ending n false le = finish-Ending n none

  pub leave-Ending :
      (n : ℕ) (p : Phase) → is_waiting p ≡ false → rank p (unread q) ≤ n → Ending n (leave p s)
  unfolding leave
  leave-Ending n p awake le = (
    q,
    record {
      valid = close_queue-IsValid s.id s.hub c.valid;
      entry = (close_queue-queue s.id s.hub q c.entry).0 ∙ ap some (close-closed q c.closed);
      closed = c.closed;
      cleaned = c.cleaned;
      gone = rw (close_queue-same s.id s.hub).1 c.gone;
    },
    awake,
    le,
  )

  pub read-Ending : (n : ℕ) → 4 + 2 * unread q ≤ n + 1 → Ending n (read s)
  unfolding read is_waiting
  read-Ending n le =
      let (r, e, closed, less) = next-closed q c.closed in
      let (entry, got) = read_next-queue s.id 0 s.hub q c.entry in
      let reply : (read_next s.id 0 s.hub).0 ≡ some r = got ∙ e in
      let phase : (read s).phase ≡ settled r = rw (reply, read) refl in
      (
        (MessageQueue.next 0 q).1,
        record {
          valid = read_next-IsValid s.id 0 s.hub c.valid;
          entry = entry;
          closed = closed;
          cleaned = c.cleaned;
          gone = λ g named. ap (among s.id) (read_next-sets g s.id 0 s.hub) ∙ c.gone g named;
        },
        ap is_waiting phase,
        subst (λ x. rank x (unread (MessageQueue.next 0 q).1) ≤ n) (sym phase) (omega arith),
      )
