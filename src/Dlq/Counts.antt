-- ===== src/Dlq/Counts.antt =====
-- internal/dlq/redrive.go: how many messages Replay takes, that its loop ends, and the errors it reports.
use dispute_router.Common.{
  ℕ, zero, suc, ◌+◌, ◌<◌, ◌≡◌, refl, sym, subst, ◌∙◌, ◌⊎◌, inl, inr, Bool, true, false, List, [],
  ◌∷◌, ◌++◌, Option, none, some, arith, length, if◌then◌else◌,
}
use dispute_router.Common.Int.{ℤ, pos, ◌<ℤ◌, ltb_ℤ, leb_ℤ}
use dispute_router.Database.Transaction.{Fate, works, fails, unseen}
use dispute_router.Dlq.{
  Message, Stats, Sqs, Work, Outcome, Failure, send_failed, delete_failed, batch_max, total,
  move_message, replay_message, replay_batch, dry_batch, after_receive, replay_loop, idle, replay,
  skip,
}
use dispute_router.Dlq.Outcomes.{Ends, if-Ends}

length-snoc : (errs : List Failure) (f : Failure) → length (errs ++ (f ∷ [])) ≡ length errs + 1
length-snoc [] f = refl
length-snoc (x ∷ errs) f = ground (arith, length-snoc errs f)

-- Each failure so far has its reason in `errs`, and none is in the Stats yet.
record Tallied (w : Work) : Type 0 where
  reasons : length w.errs ≡ w.stats.failed
  unreported : w.stats.errors ≡ []

move_message-Tallied :
    (s d : Fate) (msg : Message) (w : Work) → Tallied w → Tallied (move_message s d msg w)
unfolding move_message
move_message-Tallied works works msg w h = record { reasons = h.reasons; unreported = h.unreported }
move_message-Tallied works fails msg w h = record {
  reasons = ground (arith, length-snoc w.errs (delete_failed msg), h.reasons);
  unreported = h.unreported;
}
move_message-Tallied works unseen msg w h = record {
  reasons = ground (arith, length-snoc w.errs (delete_failed msg), h.reasons);
  unreported = h.unreported;
}
move_message-Tallied fails d msg w h = record {
  reasons = ground (arith, length-snoc w.errs (send_failed msg), h.reasons);
  unreported = h.unreported;
}
move_message-Tallied unseen d msg w h = record {
  reasons = ground (arith, length-snoc w.errs (send_failed msg), h.reasons);
  unreported = h.unreported;
}

move_message-total :
    (s d : Fate) (msg : Message) (w : Work) → total (move_message s d msg w) ≡ total w + 1
unfolding move_message
move_message-total works works msg w = omega arith
move_message-total works fails msg w = omega arith
move_message-total works unseen msg w = omega arith
move_message-total fails d msg w = omega arith
move_message-total unseen d msg w = omega arith

if-Work : (P : Work → Type 0) (b : Bool) (x y : Work) → P x → P y → P (if b then x else y)
if-Work P true x y h k = h
if-Work P false x y h k = k

replay_batch-Tallied :
    (sqs : Sqs) (round : ℕ) (max_redrives : ℤ) (batch : List Message) (w : Work)
    → Tallied w
    → Tallied (replay_batch sqs round max_redrives batch w)
unfolding replay_batch replay_message
replay_batch-Tallied sqs round m [] w h = h
replay_batch-Tallied sqs round m (msg ∷ batch) w h = replay_batch-Tallied sqs round m batch _ (
    if-Work Tallied (leb_ℤ m msg.redrives) (skip msg w) _
      (record { reasons = h.reasons; unreported = h.unreported })
      (move_message-Tallied (sqs.send_message round msg) (sqs.delete_message round msg) msg w h))

replay_message-total :
    (sqs : Sqs) (round : ℕ) (max_redrives : ℤ) (msg : Message) (w : Work)
    → total (replay_message sqs round max_redrives msg w) ≡ total w + 1
unfolding replay_message
replay_message-total sqs round m msg w =
    if-Work (λ v. total v ≡ total w + 1) (leb_ℤ m msg.redrives) (skip msg w) _ (omega arith)
      (move_message-total (sqs.send_message round msg) (sqs.delete_message round msg) msg w)

pub replay_batch-total :
    (sqs : Sqs) (round : ℕ) (max_redrives : ℤ) (batch : List Message) (w : Work)
    → total (replay_batch sqs round max_redrives batch w) ≡ total w + length batch
unfolding replay_batch
replay_batch-total sqs round m [] w = omega arith
replay_batch-total sqs round m (msg ∷ batch) w = omega (
  arith,
  replay_batch-total sqs round m batch (replay_message sqs round m msg w),
  replay_message-total sqs round m msg w,
)

pub dry_batch-failed :
    (max_redrives : ℤ) (batch : List Message) (s : Stats)
    → ((dry_batch max_redrives batch s).failed ≡ s.failed)
      × ((dry_batch max_redrives batch s).errors ≡ s.errors)
      × ((dry_batch max_redrives batch s).replayed + (dry_batch max_redrives batch s).skipped
          ≡ s.replayed + s.skipped + length batch)
unfolding dry_batch
dry_batch-failed m [] s = (refl, refl, omega arith)
dry_batch-failed m (msg ∷ batch) s = ground (
  arith,
  dry_batch-failed m batch (
      if leb_ℤ m msg.redrives
      then record s { skipped = s.skipped + 1 }
      else record s { replayed = s.replayed + 1 }),
)

-- What the loop does in a round, by cases on the answer: it returns, or goes on with more counted.
after_receive-stops :
    (sqs : Sqs) (round : ℕ) (max_redrives : ℤ) (dry_run : Bool) (again : Work → Option Outcome)
    (answer : Option (List Message)) (w : Work)
    → ((v : Work) → total w < total v → (o : Outcome) × (again v ≡ some o))
    → (o : Outcome) × (after_receive sqs round max_redrives dry_run again answer w ≡ some o)
unfolding after_receive
after_receive-stops sqs round m dry again none w k = (_, refl)
after_receive-stops sqs round m dry again (some []) w k = (_, refl)
after_receive-stops sqs round m true again (some (msg ∷ batch)) w k = (_, refl)
after_receive-stops sqs round m false again (some (msg ∷ batch)) w k =
    k (replay_batch sqs round m (msg ∷ batch) w)
      (omega (arith, replay_batch-total sqs round m (msg ∷ batch) w))

if-stops :
    (b : Bool) (x : Option Outcome) (y : Outcome)
    → (b ≡ true → (o : Outcome) × (x ≡ some o))
    → (o : Outcome) × ((if b then x else some y) ≡ some o)
if-stops true x y h = h refl
if-stops false x y h = (y, refl)

replay_loop-stops :
    (fuel : ℕ) (sqs : Sqs) (limit max_redrives : ℤ) (dry_run : Bool) (w : Work)
    → limit <ℤ pos (total w + fuel)
    → 0 < fuel
    → (o : Outcome) × (replay_loop fuel sqs limit max_redrives dry_run w ≡ some o)
unfolding replay_loop
replay_loop-stops zero sqs l m dry w h p = absurd (omega arith)
replay_loop-stops (suc fuel) sqs l m dry w h p = if-stops (ltb_ℤ (pos (total w)) l) _ _ (λ e.
    after_receive-stops sqs fuel m dry _ (sqs.receive_message fuel (batch_max l)) w
      (λ v lt. replay_loop-stops fuel sqs l m dry v (ground arith) (ground arith)))

-- Replay ends, whatever the queues answer: each round but the last counts a message, so one more round
-- than the limit is enough.
pub replay-stops :
    (fuel : ℕ) (sqs : Sqs) (limit max_redrives : ℤ) (dry_run : Bool)
    → limit <ℤ pos fuel
    → 0 < fuel
    → (o : Outcome) × (replay fuel sqs limit max_redrives dry_run ≡ some o)
unfolding replay
replay-stops fuel sqs l m dry h p = replay_loop-stops fuel sqs l m dry idle (ground arith) p

-- What the returned Stats say of the errors.
abbrev pub Reported : Outcome → Type 0
Reported o =
    ((o.receive_failed ≡ false) × (length o.result.errors ≡ o.result.failed))
    ⊎ ((o.receive_failed ≡ true) × (o.result.errors ≡ []))

after_receive-Reported :
    (sqs : Sqs) (round : ℕ) (max_redrives : ℤ) (dry_run : Bool) (again : Work → Option Outcome)
    (answer : Option (List Message)) (w : Work)
    → ((v : Work) → Tallied v → Ends Reported (again v))
    → Tallied w
    → Ends Reported (after_receive sqs round max_redrives dry_run again answer w)
unfolding Ends after_receive
after_receive-Reported sqs round m dry again none w k h = inr (refl, h.unreported)
after_receive-Reported sqs round m dry again (some []) w k h = inl (refl, h.reasons)
after_receive-Reported sqs round m true again (some (msg ∷ batch)) w k h =
    inl (refl, h.reasons ∙ sym ((dry_batch-failed m (msg ∷ batch) w.stats).0))
after_receive-Reported sqs round m false again (some (msg ∷ batch)) w k h =
    k _ (replay_batch-Tallied sqs round m (msg ∷ batch) w h)

replay_loop-Reported :
    (fuel : ℕ) (sqs : Sqs) (limit max_redrives : ℤ) (dry_run : Bool) (w : Work)
    → Tallied w
    → Ends Reported (replay_loop fuel sqs limit max_redrives dry_run w)
unfolding Ends replay_loop
replay_loop-Reported zero sqs l m dry w h = tt
replay_loop-Reported (suc fuel) sqs l m dry w h =
    if-Ends Reported (ltb_ℤ (pos (total w)) l) _ _
      (λ e.
        after_receive-Reported sqs fuel m dry _ (sqs.receive_message fuel (batch_max l)) w
          (λ v. replay_loop-Reported fuel sqs l m dry v) h)
      (inl (refl, h.reasons))

-- When Replay returns without an error, its Stats carry exactly one reason for each message that failed.
-- When a receive fails, they carry none, however many messages failed before.
pub replay-Reported :
    (fuel : ℕ) (sqs : Sqs) (limit max_redrives : ℤ) (dry_run : Bool) (o : Outcome)
    → replay fuel sqs limit max_redrives dry_run ≡ some o
    → Reported o
unfolding replay Ends
replay-Reported fuel sqs l m dry o e =
    subst (Ends Reported) e
      (replay_loop-Reported fuel sqs l m dry idle (record { reasons = refl; unreported = refl }))
