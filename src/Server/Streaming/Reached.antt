-- ===== src/Server/Streaming/Reached.antt =====
-- Every step of the stream's handler, before the clean-up and after it.
use cordn.Prelude.{
  String, ◌≡◌, refl, sym, subst, ap, ◌∙◌, inl, inr, Bool, true, false, Option, none, some, List, [],
  ◌∷◌, map, arith, ◌+◌, ◌-◌, ◌*◌, string_eq, nat_eq,
}
use cordn.Coordinator.MessageQueue
use cordn.Coordinator.MessageQueue.{value, done, rejected}
use cordn.Coordinator.Subscriptions.{LiveQueue}
use cordn.Storage.Groups.{AppendGroupMessageParams}
use cordn.Storage.Groups.Log.{appended}
use cordn.Server.Streaming.{
  Phase, starting, waiting, settled, writing, leaving, failing, closing, aborting, finished,
  Streaming, Event, resumes, terminates, posts, is_waiting, resume_settled, settle, or_fail,
  cleanup_subscriptions, read, fail, finish, complete, leave, resume, step, run,
}
use cordn.Server.Streaming.Phases.{read_next-queue, close_queue-queue, post_group_message-queue}
use cordn.Server.Streaming.Closed.{
  Closed, rank, unread, Closed-phase, read_next-IsValid, close_queue-IsValid,
  post_group_message-IsValid,
}
use cordn.Server.Streaming.Ending.{resumptions, run-Ending}
use cordn.Server.Streaming.Open.{
  Opened, Fits, Open, Reached, loops, close-open, close-waiters, next-open, push-Fits,
  cleanup_subscriptions-Ending,
}

module _ (q : LiveQueue) (s : Streaming) (o : Opened q s) where
  read-Open : q.waiters ≡ [] → Open (read s)
  unfolding read
  read-Open w =
      let (aborted, fits) = next-open q o.aborted w in
      let (entry, got) = read_next-queue s.id 0 s.hub q o.entry in
      (
        (MessageQueue.next 0 q).1,
        record {
          valid = read_next-IsValid s.id 0 s.hub o.valid;
          entry = entry;
          aborted = aborted;
          uncleaned = o.uncleaned;
        },
        subst
            (λ r.
              Fits (MessageQueue.next 0 q).1
                (elim r [ none ↦ waiting | some reply ↦ settled reply ]))
            (sym got) fits,
      )

  leave-Open :
      (p : Phase) → q.waiters ≡ [] → loops p ≡ true → is_waiting p ≡ false → Open (leave p s)
  unfolding leave
  leave-Open p w loop awake = (
    (MessageQueue.close q).1,
    record {
      valid = close_queue-IsValid s.id s.hub o.valid;
      entry = (close_queue-queue s.id s.hub q o.entry).0;
      aborted = (close-open q o.aborted).1;
      uncleaned = o.uncleaned;
    },
    (loop, close-waiters q w ∙ rw awake refl, λ h. cc),
  )

  module _ (f : Fits q s.phase) where
    cleaned : Closed (MessageQueue.close q).1 (cleanup_subscriptions s)
    cleaned = (cleanup_subscriptions-Ending q s o f).0

    to_phase :
        (p : Phase)
        → is_waiting p ≡ false
        → Reached (record (cleanup_subscriptions s) { phase = p })
    to_phase p awake =
        let c = cleaned in
        inr (
          rank p (unread (MessageQueue.close q).1),
          (
            (MessageQueue.close q).1,
            Closed-phase (MessageQueue.close q).1 (cleanup_subscriptions s) c p,
            awake,
            omega arith,
          ),
        )

    complete-Reached : (a : Bool) → Reached (complete a s)
    unfolding complete finish is_waiting
    complete-Reached true = to_phase closing refl
    complete-Reached false = to_phase (finished none) refl

    fail-Reached : (e : String) → Reached (fail e s)
    unfolding fail is_waiting
    fail-Reached e = to_phase (aborting e) refl

  with_phase : (p : Phase) → Opened q (record s { phase = p })
  with_phase p = record {
    valid = o.valid;
    entry = o.entry;
    aborted = o.aborted;
    uncleaned = o.uncleaned;
  }

resume-Reached :
    (p : Phase) (failure : Option String) (is_active : Bool) (q : LiveQueue) (s : Streaming)
    → Opened q s
    → s.phase ≡ p
    → Fits q p
    → Fits q s.phase
    → Reached (resume p failure is_active s)
unfolding resume or_fail resume_settled is_waiting loops
resume-Reached starting none a q s o e f g = inl (read-Open q s o f.1)
resume-Reached starting (some x) a q s o e f g = fail-Reached q s o g x
resume-Reached waiting x a q s o e f g = inl (q, o, g)
resume-Reached (settled (value m)) x true q s o e f g =
    inl (q, with_phase q s o (writing m), (refl, f.1, λ h. cc))
resume-Reached (settled (value m)) x false q s o e f g =
    inl (leave-Open q s o leaving f.1 refl refl)
resume-Reached (settled done) x a q s o e f g = complete-Reached q s o g a
resume-Reached (settled (rejected y)) x a q s o e f g = fail-Reached q s o g y
resume-Reached (writing m) none a q s o e f g = inl (read-Open q s o f.1)
resume-Reached (writing m) (some x) a q s o e f g = inl (leave-Open q s o (failing x) f.1 refl refl)
resume-Reached leaving x a q s o e f g = complete-Reached q s o g a
resume-Reached (failing y) x a q s o e f g = fail-Reached q s o g y
resume-Reached closing x a q s o e f g = cc
resume-Reached (aborting y) x a q s o e f g = cc
resume-Reached (finished y) x a q s o e f g = cc

post-Reached :
    (p : AppendGroupMessageParams) (q : LiveQueue) (s : Streaming)
    → Opened q s
    → Fits q s.phase
    → Open (step (posts p) s)
unfolding step settle
post-Reached p q s o f =
    let (r, entry, pushed) = post_group_message-queue p s.id s.hub q o.valid o.entry in
    let m = appended p s.hub.groups in
    let valid = post_group_message-IsValid p s.hub o.valid in
    elim pushed [
      | inl (e, d) ↦ (
        q,
        record {
          valid = valid;
          entry = entry ∙ ap some e;
          aborted = o.aborted;
          uncleaned = o.uncleaned;
        },
        subst (λ l. Fits q (settle (map value l) s.phase)) (sym d) f,
      )
      | inr (e, d) ↦
          let (aborted, fits) = push-Fits m q s.phase o.aborted f in
          (
            (MessageQueue.push m q).1,
            record {
              valid = valid;
              entry = entry ∙ ap some e;
              aborted = aborted;
              uncleaned = o.uncleaned;
            },
            subst (λ l. Fits (MessageQueue.push m q).1 (settle (map value l) s.phase)) (sym d) fits,
          )
    ]

step-Reached : (e : Event) (s : Streaming) → Reached s → Reached (step e s)
unfolding step run
step-Reached (resumes x a) s (inl (q, o, f)) = resume-Reached s.phase x a q s o refl f f
step-Reached terminates s (inl (q, o, f)) =
    inr (5 + 2 * unread q, (cleanup_subscriptions-Ending q s o f).1)
step-Reached (posts p) s (inl (q, o, f)) = inl (post-Reached p q s o f)
step-Reached e s (inr (n, h)) = inr (n - resumptions (e ∷ []), run-Ending (e ∷ []) n s h)

pub run-Reached : (es : List Event) (s : Streaming) → Reached s → Reached (run es s)
unfolding run
run-Reached [] s h = h
run-Reached (e ∷ es) s h = run-Reached es (step e s) (step-Reached e s h)
