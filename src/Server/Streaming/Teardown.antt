-- ===== src/Server/Streaming/Teardown.antt =====
-- The end of the stream's handler: that it comes, and what it leaves behind.
use cordn.Prelude.{
  ℕ, String, ◌≡◌, refl, ap, inl, inr, true, false, some, List, [], ◌∷◌, ◌++◌, arith, ◌+◌, ◌*◌, ◌≤◌,
  length, any, ◌==◌, string_eq, nat_eq,
}
use cordn.Coordinator.MessageQueue.{value, done, rejected}
use cordn.Coordinator.MessageQueue.Delivery.{contents}
use cordn.Coordinator.Subscriptions.{Hub, LiveQueue}
use cordn.Coordinator.Subscriptions.Stream
use cordn.Coordinator.Subscriptions.Stream.{subscribe_many-IsValid}
use cordn.Coordinator.Subscriptions.Membership.{ids_of}
use cordn.Coordinator.Subscriptions.Fanout.{among}
use cordn.Coordinator.Subscriptions.Calls.{IsValid}
use cordn.Storage.Groups.{FetchGroupMessagesInput}
use cordn.Server.Streaming.{
  Phase, starting, waiting, settled, writing, leaving, failing, closing, aborting, finished,
  Streaming, Event, terminates, is_waiting, has_finished, step, run, start,
}
use cordn.Server.Streaming.Phases.{queue_at}
use cordn.Server.Streaming.Reached.{run-Reached}
use cordn.Server.Streaming.Closed.{Ending, rank, unread, cleanup_subscriptions-same}
use cordn.Server.Streaming.Ending.{resumptions, run-Ending}
use cordn.Server.Streaming.Open.{Reached, loops, cleanup_subscriptions-Ending, rank-bound}
use cordn.Server.Streaming.Start.{start-Open, run-group_ids, among_keys, initial_cursors-named}

waiting-contents :
    (id : ℕ) (hub : Hub) (q : LiveQueue)
    → queue_at id hub ≡ some q
    → Stream.waiting id hub ≡ contents q
unfolding Stream.waiting
waiting-contents id hub q h = ground (arith, h)

terminates-Ending :
    (s : Streaming)
    → Reached s
    → (q : LiveQueue) × (queue_at s.id s.hub ≡ some q)
      × Ending (5 + 2 * unread q) (step terminates s)
unfolding step
terminates-Ending s (inl (q, o, f)) = (q, o.entry, (cleanup_subscriptions-Ending q s o f).1)
terminates-Ending s (inr (n, (q, c, awake, le))) =
    (q, c.entry, rw (cleanup_subscriptions-same q s c) (q, c, awake, rank-bound s.phase (unread q)))

loops-unfinished : (p : Phase) → loops p ≡ true → has_finished p ≡ true → ⊥
unfolding loops has_finished
loops-unfinished (finished o) h e = cc
loops-unfinished starting h e = cc
loops-unfinished waiting h e = cc
loops-unfinished (settled r) h e = cc
loops-unfinished (writing m) h e = cc
loops-unfinished leaving h e = cc
loops-unfinished (failing x) h e = cc
loops-unfinished closing h e = cc
loops-unfinished (aborting x) h e = cc

rank-has_finished :
    (p : Phase) (n : ℕ) → is_waiting p ≡ false → rank p n ≤ 0 → has_finished p ≡ true
unfolding is_waiting has_finished rank
rank-has_finished (finished o) n awake le = refl
rank-has_finished starting n awake le = absurd (omega arith)
rank-has_finished waiting n awake le = cc
rank-has_finished (settled (value m)) n awake le = absurd (omega arith)
rank-has_finished (settled done) n awake le = absurd (omega arith)
rank-has_finished (settled (rejected e)) n awake le = absurd (omega arith)
rank-has_finished (writing m) n awake le = absurd (omega arith)
rank-has_finished leaving n awake le = absurd (omega arith)
rank-has_finished (failing e) n awake le = absurd (omega arith)
rank-has_finished closing n awake le = absurd (omega arith)
rank-has_finished (aborting e) n awake le = absurd (omega arith)

run-append : (es fs : List Event) (s : Streaming) → run (es ++ fs) s ≡ run fs (run es s)
unfolding run
run-append [] fs s = refl
run-append (e ∷ es) fs s = run-append es fs (step e s)

Ending-has_finished : (n : ℕ) (s : Streaming) → Ending n s → n ≤ 0 → has_finished s.phase ≡ true
Ending-has_finished n s (q, c, awake, le) none_left =
    rank-has_finished s.phase (unread q) awake (omega arith)

-- When a stream on a valid hub has been terminated, whatever came before, its handler has ended
-- once it has been resumed five times, and twice for each message that waited to be read, whatever
-- the outcomes of its calls, and whatever is posted meanwhile.
pub terminates-has_finished :
    (inputs : List FetchGroupMessagesInput) (hub : Hub) (before after : List Event)
    → IsValid hub
    → (let s = run before (start inputs hub) in
        5 + 2 * length (Stream.waiting s.id s.hub) ≤ resumptions after)
    → has_finished (run (before ++ terminates ∷ after) (start inputs hub)).phase ≡ true
unfolding run step
terminates-has_finished inputs hub before after v enough =
    let s = run before (start inputs hub) in
    let (q, entry, ending) =
      terminates-Ending s (run-Reached before (start inputs hub) (inl (start-Open inputs hub v))) in
    rw (run-append before (terminates ∷ after) (start inputs hub), run)
      (Ending-has_finished _ _ (run-Ending after (5 + 2 * unread q) (step terminates s) ending)
        (omega (arith, enough, ap length (waiting-contents s.id s.hub q entry))))

-- From a valid hub, when the handler of a stream has ended, by whatever events, the set of no group
-- that the stream named has its subscriber.
pub finished-gone :
    (inputs : List FetchGroupMessagesInput) (hub : Hub) (es : List Event) (g : String)
    → IsValid hub
    → has_finished (run es (start inputs hub)).phase ≡ true
    → any (λ i. i.group_id == g) inputs ≡ true
    → (let s = run es (start inputs hub) in among s.id (ids_of g s.hub) ≡ false)
unfolding start
finished-gone inputs hub es g v ended named =
    elim (run-Reached es (start inputs hub) (inl (start-Open inputs hub v))) [
      | inl (q, o, f) ↦ absurd (loops-unfinished _ f.0 ended)
      | inr (n, (q, c, awake, le)) ↦ c.gone g (
          rw (run-group_ids es (start inputs hub), start)
            (unfold among_keys in initial_cursors-named g inputs [] (inr named)))
    ]
