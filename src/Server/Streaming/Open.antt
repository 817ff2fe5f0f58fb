-- ===== src/Server/Streaming/Open.antt =====
-- The stream's handler before its subscription is cleaned up, and from then on.
use cordn.Prelude.{
  ℕ, ◌≡◌, refl, sym, subst, ap, ◌∙◌, ◌⊎◌, inl, inr, Bool, true, false, none, some, [], ◌∷◌, map,
  arith, ◌+◌, ◌*◌, ◌≤◌, length, Bool-cases, Option-cases, get_elem?, if◌then◌else◌, string_eq,
  nat_eq,
}
use cordn.Coordinator.MessageQueue
use cordn.Coordinator.MessageQueue.{value, done, rejected}
use cordn.Coordinator.MessageQueue.Delivery.{contents-close, delivered}
use cordn.Coordinator.Subscriptions.{LiveQueue, unsubscribe}
use cordn.Coordinator.Subscriptions.Departure.{unsubscribe-IsValid, remove_from_groups-gone}
use cordn.Coordinator.Subscriptions.Calls.{IsValid}
use cordn.Storage.Groups.{GroupMessageRecord}
use cordn.Server.Streaming.{
  Phase, starting, waiting, settled, writing, leaving, failing, closing, aborting, finished,
  Streaming, is_waiting, settle, cleanup_subscriptions,
}
use cordn.Server.Streaming.Phases.{queue_at, close_queue-queue, unsubscribe-queue}
use cordn.Server.Streaming.Closed.{Closed, Ending, rank, unread}

-- The phases in which the handler still has to clean up.
unfoldable pub loops : Phase → Bool
loops closing = false
loops (aborting error) = false
loops (finished outcome) = false
loops _ = true

pub record Opened (q : LiveQueue) (s : Streaming) : Type 0 where
  pub valid : IsValid s.hub
  pub entry : queue_at s.id s.hub ≡ some q
  pub aborted : q.aborted ≡ none
  pub uncleaned : s.cleaned_up ≡ false

-- The queue has the handler's promise exactly when the handler waits.
abbrev pub Fits : LiveQueue → Phase → Type 0
Fits q p =
    (loops p ≡ true)
    × (q.waiters ≡ (if is_waiting p then 0 ∷ [] else []))
    × (is_waiting p ≡ true → q.closed ≡ false)

abbrev pub Open : Streaming → Type 0
Open s = (q : LiveQueue) × Opened q s × Fits q s.phase

abbrev pub Reached : Streaming → Type 0
Reached s = Open s ⊎ ((n : ℕ) × Ending n s)

pub rank-bound : (p : Phase) (n : ℕ) → rank p n ≤ 5 + 2 * n
unfolding rank
rank-bound starting n = omega arith
rank-bound waiting n = omega arith
rank-bound (settled (value message)) n = omega arith
rank-bound (settled done) n = omega arith
rank-bound (settled (rejected error)) n = omega arith
rank-bound (writing message) n = omega arith
rank-bound leaving n = omega arith
rank-bound (failing error) n = omega arith
rank-bound closing n = omega arith
rank-bound (aborting error) n = omega arith
rank-bound (finished outcome) n = omega arith

pub close-open :
    (q : LiveQueue)
    → q.aborted ≡ none
    → ((MessageQueue.close q).1.closed ≡ true) × ((MessageQueue.close q).1.aborted ≡ none)
unfolding MessageQueue.close MessageQueue.has_ended
close-open q h = ground arith

pub close-waiters : (q : LiveQueue) → q.waiters ≡ [] → (MessageQueue.close q).1.waiters ≡ []
unfolding MessageQueue.close
close-waiters q h = ground arith

-- Closing the queue settles the promise of a handler that waits.
close-awake :
    (q : LiveQueue) (p : Phase)
    → q.aborted ≡ none
    → Fits q p
    → is_waiting (settle (map (λ x. x.1) (MessageQueue.close q).0) p) ≡ false
unfolding MessageQueue.close MessageQueue.has_ended settle is_waiting
close-awake q p h (loop, w, running) = elim (Bool-cases (is_waiting p)) [
  | inl e ↦ ground (arith, e, w, running e)
  | inr e ↦ ground (arith, e, w)
]

pub next-open :
    (q : LiveQueue)
    → q.aborted ≡ none
    → q.waiters ≡ []
    → ((MessageQueue.next 0 q).1.aborted ≡ none)
      × Fits
          (MessageQueue.next 0 q).1
          (elim (MessageQueue.next 0 q).0 [ none ↦ waiting | some r ↦ settled r ])
unfolding MessageQueue.next MessageQueue.compact is_waiting loops
next-open q h w = elim (Option-cases (get_elem? q.values q.next_value_index)) [
  | inl e ↦ ground (arith, e)
  | inr (v, e) ↦ ground (arith, e)
]

pub push-Fits :
    (m : GroupMessageRecord) (q : LiveQueue) (p : Phase)
    → q.aborted ≡ none
    → Fits q p
    → ((MessageQueue.push m q).1.aborted ≡ none)
      × Fits (MessageQueue.push m q).1 (settle (map value (delivered (MessageQueue.push m q).0)) p)
unfolding MessageQueue.push MessageQueue.has_ended MessageQueue.hand_out settle is_waiting loops
push-Fits m q p h (loop, w, running) = elim (Bool-cases (is_waiting p)) [
  | inl e ↦ ground (arith, e, w, running e)
  | inr e ↦ ground (arith, e, w)
]

pub cleanup_subscriptions-Ending :
    (q : LiveQueue) (s : Streaming)
    → Opened q s
    → Fits q s.phase
    → Closed (MessageQueue.close q).1 (cleanup_subscriptions s)
      × Ending (5 + 2 * unread q) (cleanup_subscriptions s)
unfolding cleanup_subscriptions unsubscribe
cleanup_subscriptions-Ending q s o f =
    let queue = unsubscribe-queue s.group_ids s.id s.hub q o.entry in
    let settles = (close_queue-queue s.id s.hub q o.entry).1 in
    let phase : (cleanup_subscriptions s).phase
        ≡ settle (map (λ x. x.1) (MessageQueue.close q).0) s.phase =
      rw (o.uncleaned, cleanup_subscriptions, settles) refl in
    let closed : Closed (MessageQueue.close q).1 (cleanup_subscriptions s) =
      rw (o.uncleaned, cleanup_subscriptions)
        (record {
          valid = unsubscribe-IsValid s.group_ids s.id s.hub o.valid;
          entry = queue;
          closed = (close-open q o.aborted).0;
          cleaned = refl;
          gone = λ g named. remove_from_groups-gone g s.group_ids s.id _ named;
        }) in
    (
      closed,
      (
        (MessageQueue.close q).1,
        closed,
        ap is_waiting phase ∙ close-awake q s.phase o.aborted f,
        subst (λ l. rank (cleanup_subscriptions s).phase (length l) ≤ 5 + 2 * unread q)
            (sym (contents-close q)) (rank-bound (cleanup_subscriptions s).phase (unread q)),
      ),
    )
