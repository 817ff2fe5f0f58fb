-- ===== src/Server/Streaming/Ending.antt =====
-- The steps of the stream's handler once its subscription is cleaned up.
use cordn.Prelude.{
  ℕ, suc, String, ◌≡◌, refl, sym, ap, ◌∙◌, subst, inl, inr, Bool, true, false, Option, none, some,
  List, [], ◌∷◌, arith, ◌-◌, ◌≤◌, string_eq, nat_eq,
}
use cordn.Coordinator.MessageQueue
use cordn.Coordinator.MessageQueue.{value, done, rejected}
use cordn.Coordinator.MessageQueue.Delivery.{delivered}
use cordn.Coordinator.Subscriptions.{Hub, LiveQueue, post_group_message, publish_live_group_message}
use cordn.Coordinator.Subscriptions.Fanout.{delivered_to}
use cordn.Coordinator.Subscriptions.Calls.{IsValid}
use cordn.Storage.Groups.{GroupMessageRecord, AppendGroupMessageParams}
use cordn.Storage.Groups.Log.{appended}
use cordn.Server.Streaming.{
  Phase, starting, waiting, settled, writing, leaving, failing, closing, aborting, finished,
  resume_settled, settle, or_fail, Streaming, Event, resumes, terminates, posts, is_waiting,
  cleanup_subscriptions, resume, step, run, or_fail, resume_settled,
}
use cordn.Server.Streaming.Phases.{queue_at, post_group_message-queue}
use cordn.Server.Streaming.Closed.{
  Closed, Ending, unread, rank, Closed-phase, post_group_message-IsValid, fail-Ending,
  finish-Ending, complete-Ending, leave-Ending, read-Ending, cleanup_subscriptions-same,
}

pub resume-Ending :
    (p : Phase) (failure : Option String) (is_active : Bool) (q : LiveQueue) (n : ℕ) (s : Streaming)
    → Closed q s
    → s.phase ≡ p
    → is_waiting p ≡ false
    → rank p (unread q) ≤ n
    → Ending (n - 1) (resume p failure is_active s)
unfolding resume or_fail rank is_waiting resume_settled
resume-Ending starting none a q n s c e awake le = read-Ending q s c (n - 1) (omega arith)
resume-Ending starting (some x) a q n s c e awake le = fail-Ending q s c (n - 1) x (omega arith)
resume-Ending waiting f a q n s c e awake le = cc
resume-Ending (settled (value m)) f true q n s c e awake le =
    (q, Closed-phase q s c (writing m), refl, omega arith)
resume-Ending (settled (value m)) f false q n s c e awake le =
    leave-Ending q s c (n - 1) leaving refl (omega arith)
resume-Ending (settled done) f a q n s c e awake le = complete-Ending q s c (n - 1) a (omega arith)
resume-Ending (settled (rejected x)) f a q n s c e awake le =
    fail-Ending q s c (n - 1) x (omega arith)
resume-Ending (writing m) none a q n s c e awake le = read-Ending q s c (n - 1) (omega arith)
resume-Ending (writing m) (some x) a q n s c e awake le =
    leave-Ending q s c (n - 1) (failing x) refl (omega arith)
resume-Ending leaving f a q n s c e awake le = complete-Ending q s c (n - 1) a (omega arith)
resume-Ending (failing x) f a q n s c e awake le = fail-Ending q s c (n - 1) x (omega arith)
resume-Ending closing none a q n s c e awake le = finish-Ending q s c (n - 1) none
resume-Ending closing (some x) a q n s c e awake le = fail-Ending q s c (n - 1) x (omega arith)
resume-Ending (aborting x) f a q n s c e awake le = finish-Ending q s c (n - 1) (some x)
resume-Ending (finished o) f a q n s c e awake le =
    (q, c, ap is_waiting e, subst (λ x. rank x (unread q) ≤ n - 1) (sym e) (omega arith))

push-closed :
    (m : GroupMessageRecord) (q : LiveQueue) → q.closed ≡ true → MessageQueue.push m q ≡ ([], q)
unfolding MessageQueue.push MessageQueue.has_ended
push-closed m q h = ground arith

post-quiet :
    (p : AppendGroupMessageParams) (id : ℕ) (hub : Hub) (q : LiveQueue)
    → IsValid hub
    → queue_at id hub ≡ some q
    → q.closed ≡ true
    → (queue_at id (post_group_message p hub).2 ≡ some q)
      × (delivered_to id (post_group_message p hub).1 ≡ [])
post-quiet p id hub q v h closed =
    let (r, entry, pushed) = post_group_message-queue p id hub q v h in
    let same = push-closed (appended p hub.groups) q closed in
    elim pushed [
      | inl (e, d) ↦ (entry ∙ ap some e, d)
      | inr (e, d) ↦ (entry ∙ ap some (e ∙ ap (λ x. x.1) same), d ∙ ap (λ x. delivered x.0) same)
    ]

pub post-Ending :
    (p : AppendGroupMessageParams) (n : ℕ) (s : Streaming)
    → Ending n s
    → Ending n (step (posts p) s)
unfolding step settle post_group_message publish_live_group_message
post-Ending p n s (q, c, awake, le) =
    let (entry, quiet) = post-quiet p s.id s.hub q c.valid c.entry c.closed in
    let phase : (step (posts p) s).phase ≡ s.phase = rw (quiet, step) refl in
    (
      q,
      record {
        valid = post_group_message-IsValid p s.hub c.valid;
        entry = entry;
        closed = c.closed;
        cleaned = c.cleaned;
        gone = c.gone;
      },
      ap is_waiting phase ∙ awake,
      subst (λ x. rank x (unread q) ≤ n) (sym phase) le,
    )

-- How many events resume the handler.
unfoldable pub resumptions : List Event → ℕ
resumptions [] = 0
resumptions (resumes failure is_active ∷ es) = suc (resumptions es)
resumptions (terminates ∷ es) = resumptions es
resumptions (posts params ∷ es) = resumptions es

pub run-Ending :
    (es : List Event) (n : ℕ) (s : Streaming) → Ending n s → Ending (n - resumptions es) (run es s)
unfolding run resumptions step
run-Ending [] n s h = subst (λ k. Ending k s) (omega arith) h
run-Ending (resumes f a ∷ es) n s (q, c, awake, le) =
    subst (λ k. Ending k (run es (resume s.phase f a s))) (omega arith)
      (run-Ending es (n - 1) (resume s.phase f a s)
        (resume-Ending s.phase f a q n s c refl awake le))
run-Ending (terminates ∷ es) n s (q, c, awake, le) =
    run-Ending es n (cleanup_subscriptions s)
      (rw (cleanup_subscriptions-same q s c) (q, c, awake, le))
run-Ending (posts p ∷ es) n s h = run-Ending es n (step (posts p) s) (post-Ending p n s h)
