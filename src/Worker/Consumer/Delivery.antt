-- ===== src/Worker/Consumer/Delivery.antt =====
-- internal/worker/events.go: no message is lost between the queue and the deadline index.
use dispute_router.Common.{
  ℕ, ◌≡◌, ◌≢◌, refl, Option, none, str_eq, eq_iff, ◌∙◌, subst, ◌⊎◌, inl, inr, Bool, true, false,
  ◌||◌, List, [], ◌∷◌, some, ◌==◌, arith, All, filter_where, Bool-cases,
}
use dispute_router.Common.Bytes.{Bytes}
use dispute_router.Database.Transaction.{Fate, works, fails, unseen}
use dispute_router.Worker.Deadlines.{of_id, ZSet, member_eq, schedule, zadd, entry_at, unix}
use dispute_router.Worker.Deadlines.Index.{score_of, score_of-zadd}
use dispute_router.Worker.Consumer.{
  Codec, Envelope, DisputeReceived, received_task, envelope_task, Delivered, Task, unhandled,
  nothing_to_do, to_schedule, task_of, process, delete, Station, handle, handle_all,
}

-- The message is in the queue, by its receipt handle.
abbrev pub is_queued : ℕ → List Delivered → Bool
is_queued h [] = false
is_queued h (m ∷ ms) = m.receipt_handle == h || is_queued h ms

-- What a message asks for is done: the dispute has a deadline in the index, if it names one.
abbrev pub Met : Task → ZSet → Type 0
Met unhandled z = ⊥
Met nothing_to_do z = Unit
Met (to_schedule id at) z = (s : ℕ) × (score_of (of_id id) z ≡ some s)

-- ZADD of one dispute forgets no other.
zadd-keeps :
    (k id at : ℕ) (z : ZSet) (s : ℕ)
    → score_of (of_id k) z ≡ some s
    → (s' : ℕ) × (score_of (of_id k) (zadd (entry_at id at) z) ≡ some s')
unfolding entry_at
zadd-keeps k id at z s h = elim (Bool-cases (member_eq (of_id id) (of_id k))) [
  | inl e ↦ (
    unix at,
    score_of-zadd (of_id k) (record { member = of_id id; score = unix at }) z ∙ rw e refl,
  )
  | inr e ↦ (s, score_of-zadd (of_id k) (record { member = of_id id; score = unix at }) z ∙ rw e h)
]

schedule-Met :
    (t : Task) (id at : ℕ) (redis : Fate) (z : ZSet) → Met t z → Met t (schedule id at redis z).1
unfolding schedule entry_at
schedule-Met unhandled id at redis z h = absurd h
schedule-Met nothing_to_do id at redis z h = tt
schedule-Met (to_schedule k u) id at fails z h = h
schedule-Met (to_schedule k u) id at works z (s, h) = zadd-keeps k id at z s h
schedule-Met (to_schedule k u) id at unseen z (s, h) = zadd-keeps k id at z s h

process-Met : (t t' : Task) (redis : Fate) (z : ZSet) → Met t z → Met t (process t' redis z).1
unfolding process
process-Met t unhandled redis z h = h
process-Met t nothing_to_do redis z h = h
process-Met t (to_schedule id at) redis z h = schedule-Met t id at redis z h

member_eq-same : (id : ℕ) → member_eq (of_id id) (of_id id) ≡ true
unfolding member_eq
member_eq-same id = ground arith

zadd-there : (id at : ℕ) (z : ZSet) → score_of (of_id id) (zadd (entry_at id at) z) ≡ some (unix at)
unfolding entry_at
zadd-there id at z =
    score_of-zadd (of_id id) (record { member = of_id id; score = unix at }) z
    ∙ rw (member_eq-same id) refl

process-done :
    (t : Task) (redis : Fate) (z : ZSet)
    → (process t redis z).0 ≡ true
    → Met t (process t redis z).1
unfolding process schedule
process-done unhandled redis z h = ground arith
process-done nothing_to_do redis z h = tt
process-done (to_schedule id at) works z h = (unix at, zadd-there id at z)
process-done (to_schedule id at) fails z h = ground arith
process-done (to_schedule id at) unseen z h = ground arith

delete-other :
    (sqs : Fate) (h k : ℕ) (queue : List Delivered)
    → (k == h) ≡ false
    → is_queued h (delete sqs k queue) ≡ is_queued h queue
unfolding delete filter_where
delete-other fails h k queue e = refl
delete-other works h k [] e = refl
delete-other works h k (m ∷ ms) e = ground (arith, delete-other works h k ms e)
delete-other unseen h k [] e = refl
delete-other unseen h k (m ∷ ms) e = ground (arith, delete-other unseen h k ms e)

-- What an event of a message asks for is done: its payload is read, and unless its type is another than dispute.received, that
-- names a dispute and a deadline, and the dispute has a deadline in the index.
abbrev pub HasEffect : Codec → Envelope → ZSet → Type 0
HasEffect c env z =
    (env.event_type ≢ "dispute.received")
    ⊎ ((p : DisputeReceived) × (c.decode_received env.payload ≡ some p)
        × (p.dispute_id ≢ 0)
        × (p.deadline_at ≢ 0)
        × ((s : ℕ) × (score_of (of_id p.dispute_id) z ≡ some s)))

-- The message has a body, that is an envelope, and what its event asks for is done.
abbrev pub Served : Codec → Delivered → ZSet → Type 0
Served c m z =
    (body : Bytes) × (m.body ≡ some body)
    × ((env : Envelope) × (c.decode_envelope body ≡ some env) × HasEffect c env z)

received_task-HasEffect :
    (c : Codec) (env : Envelope) (z : ZSet) (o : Option DisputeReceived)
    → c.decode_received env.payload ≡ o
    → Met (received_task o) z
    → HasEffect c env z
unfolding received_task
received_task-HasEffect c env z none e h = absurd h
received_task-HasEffect c env z (some p) e h =
    elim (Bool-cases (p.dispute_id == 0 || p.deadline_at == 0)) [
      | inl b ↦ absurd (rw (b, received_task) at h)
      | inr b ↦ inr (
        p,
        e,
        (λ q. ground (arith, b, q)),
        (λ q. ground (arith, b, q)),
        (rw (b, received_task) at h),
      )
    ]

envelope_task-HasEffect :
    (c : Codec) (env : Envelope) (z : ZSet) → Met (envelope_task c (some env)) z → HasEffect c env z
unfolding envelope_task
envelope_task-HasEffect c env z h = elim (Bool-cases (str_eq env.event_type "dispute.received")) [
  | inl e ↦
      received_task-HasEffect c env z (c.decode_received env.payload) refl
        (rw (e, envelope_task) at h)
  | inr e ↦ inl λ same. ground (arith, e, (eq_iff env.event_type "dispute.received").1 same)
]

task_of-Served : (c : Codec) (m : Delivered) (z : ZSet) → Met (task_of c m) z → Served c m z
unfolding task_of envelope_task
task_of-Served c m z h = by_body m.body refl
  where
    by_envelope :
        (body : Bytes) (o : Option Envelope)
        → c.decode_envelope body ≡ o
        → Met (envelope_task c o) z
        → (env : Envelope) × (c.decode_envelope body ≡ some env) × HasEffect c env z
    by_envelope body none e k = absurd k
    by_envelope body (some env) e k = (env, e, envelope_task-HasEffect c env z k)

    by_body : (o : Option Bytes) → m.body ≡ o → Served c m z
    by_body none e = absurd (rw (e, task_of) at h)
    by_body (some body) e =
        (body, e, by_envelope body (c.decode_envelope body) refl (rw (e, task_of) at h))

-- Not lost: still in the queue, or what it asks for is done.
Kept : Codec → Station → Delivered → Type 0
Kept c s m = (is_queued m.receipt_handle s.queue ≡ true) ⊎ Met (task_of c m) s.index

abbrev pub Safe : Codec → Station → Delivered → Type 0
Safe c s m = (is_queued m.receipt_handle s.queue ≡ true) ⊎ Served c m s.index

handle-Kept :
    (c : Codec) (msg m : Delivered) (redis sqs : Fate) (s : Station)
    → (msg.receipt_handle ≡ m.receipt_handle → msg ≡ m)
    → Kept c s m
    → Kept c (handle c (msg, redis, sqs) s) m
unfolding handle Kept
handle-Kept c msg m redis sqs s same (inr h) =
    inr (process-Met (task_of c m) (task_of c msg) redis s.index h)
handle-Kept c msg m redis sqs s same (inl h) =
    elim (Bool-cases (process (task_of c msg) redis s.index).0) [
      | inr e ↦ inl (rw e h)
      | inl e ↦ elim (Bool-cases (msg.receipt_handle == m.receipt_handle)) [
        | inr other ↦
            inl (rw e (delete-other sqs m.receipt_handle msg.receipt_handle s.queue other ∙ h))
        | inl one ↦ inr (
            subst (λ x. Met (task_of c x) (process (task_of c msg) redis s.index).1)
              (same (ground arith)) (process-done (task_of c msg) redis s.index e))
      ]
    ]

-- After the messages of a receive are handled, with any fates of the writes and the deletes, where a receipt handle names
-- one message: a message that was in the queue is there still, or it has a body that is an envelope, and then its event is of
-- another type than dispute.received, or its payload names a dispute and a deadline that are not zero, and that dispute
-- has a deadline in the index.
pub handle_all-Safe :
    (c : Codec) (ms : List (Delivered × Fate × Fate)) (s : Station) (m : Delivered)
    → All (λ d. d.0.receipt_handle ≡ m.receipt_handle → d.0 ≡ m) ms
    → is_queued m.receipt_handle s.queue ≡ true
    → Safe c (handle_all c ms s) m
unfolding handle_all Kept
handle_all-Safe c ms s m same h = served (kept ms s same (inl h))
  where
    served : Kept c (handle_all c ms s) m → Safe c (handle_all c ms s) m
    served (inl q) = inl q
    served (inr q) = inr (task_of-Served c m (handle_all c ms s).index q)

    kept :
        (ms : List (Delivered × Fate × Fate)) (s : Station)
        → All (λ d. d.0.receipt_handle ≡ m.receipt_handle → d.0 ≡ m) ms
        → Kept c s m
        → Kept c (handle_all c ms s) m
    kept [] s same h = h
    kept ((msg, redis, sqs) ∷ ms) s (one, same) h =
        kept ms (handle c (msg, redis, sqs) s) same (handle-Kept c msg m redis sqs s one h)
