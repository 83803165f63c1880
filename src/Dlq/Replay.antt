-- ===== src/Dlq/Replay.antt =====
-- internal/dlq/redrive.go: what Replay moves, counts and reports.
use dispute_router.Common.{
  ℕ, zero, suc, ◌≡◌, refl, subst, Bool, true, false, List, [], ◌∷◌, Option, none, some, All,
  All-map, if◌then◌else◌,
}
use mathlib.Core.List.{Memᴰ}
use dispute_router.Common.Int.{ℤ, pos, ltb_ℤ, leb_ℤ}
use dispute_router.Database.Transaction.{Fate, works, fails, unseen}
use dispute_router.Dlq.{
  Message, Sqs, Resent, Work, Outcome, batch_max, total, put_back, move_message, replay_message,
  replay_batch, after_receive, replay_loop, idle, replay, skip,
}
use dispute_router.Dlq.Outcomes.{Ends, if-Ends}

-- Every message that was deleted was sent.
abbrev pub SentFirst : Work → Type 0
SentFirst w = All (λ msg. Memᴰ (put_back msg) w.sent) w.deleted

later :
    (x : Resent) (sent : List Resent) (deleted : List Message)
    → All (λ msg. Memᴰ (put_back msg) sent) deleted
    → All (λ msg. Memᴰ (put_back msg) (x ∷ sent)) deleted
later x sent deleted h = All-map _ _ deleted (λ msg m. Memᴰ.tail m) h

move_message-SentFirst :
    (s d : Fate) (msg : Message) (w : Work) → SentFirst w → SentFirst (move_message s d msg w)
unfolding move_message
move_message-SentFirst works works msg w h = (Memᴰ.head refl, later _ w.sent w.deleted h)
move_message-SentFirst works fails msg w h = later _ w.sent w.deleted h
move_message-SentFirst works unseen msg w h = (Memᴰ.head refl, later _ w.sent w.deleted h)
move_message-SentFirst fails d msg w h = h
move_message-SentFirst unseen d msg w h = later _ w.sent w.deleted h

if-SentFirst : (b : Bool) (x y : Work) → SentFirst x → SentFirst y → SentFirst (if b then x else y)
if-SentFirst true x y h k = h
if-SentFirst false x y h k = k

replay_batch-SentFirst :
    (sqs : Sqs) (round : ℕ) (max_redrives : ℤ) (batch : List Message) (w : Work)
    → SentFirst w
    → SentFirst (replay_batch sqs round max_redrives batch w)
unfolding replay_batch replay_message
replay_batch-SentFirst sqs round m [] w h = h
replay_batch-SentFirst sqs round m (msg ∷ batch) w h = replay_batch-SentFirst sqs round m batch _ (
    if-SentFirst (leb_ℤ m msg.redrives) (skip msg w) _ h
      (move_message-SentFirst (sqs.send_message round msg) (sqs.delete_message round msg) msg w h))

after_receive-SentFirst :
    (sqs : Sqs) (round : ℕ) (max_redrives : ℤ) (dry_run : Bool) (again : Work → Option Outcome)
    (answer : Option (List Message)) (w : Work)
    → ((v : Work) → SentFirst v → Ends (λ o. SentFirst o.work) (again v))
    → SentFirst w
    → Ends (λ o. SentFirst o.work) (after_receive sqs round max_redrives dry_run again answer w)
unfolding Ends after_receive
after_receive-SentFirst sqs round m dry again none w k h = h
after_receive-SentFirst sqs round m dry again (some []) w k h = h
after_receive-SentFirst sqs round m true again (some (msg ∷ batch)) w k h = h
after_receive-SentFirst sqs round m false again (some (msg ∷ batch)) w k h =
    k _ (replay_batch-SentFirst sqs round m (msg ∷ batch) w h)

replay_loop-SentFirst :
    (fuel : ℕ) (sqs : Sqs) (limit max_redrives : ℤ) (dry_run : Bool) (w : Work)
    → SentFirst w
    → Ends (λ o. SentFirst o.work) (replay_loop fuel sqs limit max_redrives dry_run w)
unfolding Ends replay_loop
replay_loop-SentFirst zero sqs l m dry w h = tt
replay_loop-SentFirst (suc fuel) sqs l m dry w h =
    if-Ends _ (ltb_ℤ (pos (total w)) l) _ _
      (λ e.
        after_receive-SentFirst sqs fuel m dry _ (sqs.receive_message fuel (batch_max l)) w
          (λ v. replay_loop-SentFirst fuel sqs l m dry v) h)
      h

-- Nothing is lost: whatever the queues answer, each message that Replay has deleted from the dead-letter
-- queue has been sent to the main queue, with its redrive count raised by one.
pub replay-SentFirst :
    (fuel : ℕ) (sqs : Sqs) (limit max_redrives : ℤ) (dry_run : Bool) (o : Outcome)
    → replay fuel sqs limit max_redrives dry_run ≡ some o
    → SentFirst o.work
unfolding replay Ends
replay-SentFirst fuel sqs l m dry o e =
    subst (Ends (λ o. SentFirst o.work)) e (replay_loop-SentFirst fuel sqs l m dry idle tt)
