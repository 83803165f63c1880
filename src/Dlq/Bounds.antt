-- ===== src/Dlq/Bounds.antt =====
-- internal/dlq/redrive.go: how far Replay goes beyond its limit.
use dispute_router.Common.{
  ℕ, zero, suc, ◌+◌, ◌≤◌, ◌≡◌, refl, subst, Bool, true, false, List, [], ◌∷◌, Option, none, some,
  arith, length,
}
use dispute_router.Common.Int.{ℤ, pos, ◌≤ℤ◌, ltb_ℤ}
use dispute_router.Dlq.{
  Message, Stats, Sqs, Work, Outcome, batch_max, total, after_receive, replay_loop, idle, replay,
}
use dispute_router.Dlq.Outcomes.{Ends, if-Ends}
use dispute_router.Dlq.Counts.{replay_batch-total, dry_batch-failed}

-- The messages that the returned Stats count.
abbrev pub counted : Stats → ℕ
counted s = s.replayed + s.skipped + s.failed

after_receive-counted :
    (sqs : Sqs) (round : ℕ) (max_redrives : ℤ) (dry_run : Bool) (again : Work → Option Outcome)
    (answer : Option (List Message)) (w : Work) (bound : ℕ)
    → ((batch : List Message) → answer ≡ some batch → total w + length batch ≤ bound)
    → ((v : Work) → total v ≤ bound → Ends (λ o. counted o.result ≤ bound) (again v))
    → total w ≤ bound
    → Ends
        (λ o. counted o.result ≤ bound)
        (after_receive sqs round max_redrives dry_run again answer w)
unfolding Ends after_receive
after_receive-counted sqs round m dry again none w b s k h = h
after_receive-counted sqs round m dry again (some []) w b s k h = h
after_receive-counted sqs round m true again (some (msg ∷ batch)) w b s k h =
    ground (arith, s (msg ∷ batch) refl, dry_batch-failed m (msg ∷ batch) w.stats)
after_receive-counted sqs round m false again (some (msg ∷ batch)) w b s k h =
    k _ (omega (arith, s (msg ∷ batch) refl, replay_batch-total sqs round m (msg ∷ batch) w))

batch_max-le : (limit : ℤ) → batch_max limit ≤ℤ pos 10
unfolding batch_max
batch_max-le l = ground arith

room :
    (limit : ℕ) (w : Work) (n : ℕ) (most : ℤ)
    → ltb_ℤ (pos (total w)) (pos limit) ≡ true
    → pos n ≤ℤ most
    → most ≤ℤ pos 10
    → total w + n ≤ limit + 9
room l w n most e a b = ground arith

replay_loop-counted :
    (fuel : ℕ) (sqs : Sqs) (limit : ℕ) (max_redrives : ℤ) (dry_run : Bool) (w : Work)
    → ((round : ℕ) (batch : List Message)
        → sqs.receive_message round (batch_max (pos limit)) ≡ some batch
        → pos (length batch) ≤ℤ batch_max (pos limit))
    → total w ≤ limit + 9
    → Ends
        (λ o. counted o.result ≤ limit + 9)
        (replay_loop fuel sqs (pos limit) max_redrives dry_run w)
unfolding Ends replay_loop
replay_loop-counted zero sqs l m dry w s h = tt
replay_loop-counted (suc fuel) sqs l m dry w s h =
    if-Ends _ (ltb_ℤ (pos (total w)) (pos l)) _ _
      (λ e.
        after_receive-counted sqs fuel m dry _ (sqs.receive_message fuel (batch_max (pos l))) w
          (l + 9)
          (λ batch eq.
            room l w (length batch) (batch_max (pos l)) e (s fuel batch eq) (batch_max-le (pos l)))
          (λ v. replay_loop-counted fuel sqs l m dry v s) h)
      h

-- If no batch is larger than what was asked for, Replay counts at most nine messages more than its limit.
pub replay-counted :
    (fuel : ℕ) (sqs : Sqs) (limit : ℕ) (max_redrives : ℤ) (dry_run : Bool) (o : Outcome)
    → ((round : ℕ) (batch : List Message)
        → sqs.receive_message round (batch_max (pos limit)) ≡ some batch
        → pos (length batch) ≤ℤ batch_max (pos limit))
    → replay fuel sqs (pos limit) max_redrives dry_run ≡ some o
    → counted o.result ≤ limit + 9
unfolding replay Ends
replay-counted fuel sqs l m dry o s e =
    subst (Ends (λ o. counted o.result ≤ l + 9)) e
      (replay_loop-counted fuel sqs l m dry idle s (omega arith))
