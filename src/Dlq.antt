-- ===== src/Dlq.antt =====
-- internal/dlq/redrive.go: Replay, which moves dead letters back to the main queue.
-- The SQS client is a parameter: in each round it answers ReceiveMessage with a batch or an error, and
-- each send and each delete has a fate. A release is best effort and its answer is not read; the text of
-- an error is not modelled.
pub mod Outcomes
pub mod Replay
pub mod Counts
pub mod Bounds
use dispute_router.Common.{
  ℕ, zero, suc, ◌+◌, Bool, true, false, List, [], ◌∷◌, ◌++◌, Option, none, some, String, ltb,
  if◌then◌else◌,
}
use dispute_router.Common.Int.{ℤ, pos, negsuc, ◌+ℤ◌, ◌-ℤ◌, ltb_ℤ, leb_ℤ}
use dispute_router.Database.Transaction.{Fate, works, fails, unseen}

pub record Message : Type 0 where
  pub receipt_handle : String
  pub body : String
  pub receives : ℤ
  pub redrives : ℤ
  pub first_seen : ℕ

pub data Failure : Type 0 where
  send_failed delete_failed : Message → Failure

pub record Stats : Type 0 where
  pub replayed : ℕ
  pub skipped : ℕ
  pub failed : ℕ
  pub errors : List Failure

-- What SQS does: the round comes first.
pub record Sqs : Type 0 where
  pub receive_message : ℕ → ℤ → Option (List Message)
  pub send_message : ℕ → Message → Fate
  pub delete_message : ℕ → Message → Fate

-- A message as it is sent again.
pub record Resent : Type 0 where
  pub body : String
  pub redrive_count : ℤ

-- Replay's locals and its effects: `errs` and `kept` (its `skipped`), and what was sent and deleted.
pub record Work : Type 0 where
  pub stats : Stats
  pub errs : List Failure
  pub kept : List Message
  pub sent : List Resent
  pub deleted : List Message

-- What Replay returns and leaves behind: `receive_failed` is its error.
pub record Outcome : Type 0 where
  pub result : Stats
  pub receive_failed : Bool
  pub work : Work
  pub released : List Message

-- The conversion int32(limit), for a limit of less than 2^32 + 2^31.
unfoldable pub int32 : ℤ → ℤ
int32 z = if ltb_ℤ z (pos 2147483648) then z else z -ℤ pos 4294967296

-- MaxNumberOfMessages of `receive`.
unfoldable pub batch_max : ℤ → ℤ
batch_max limit = let l = int32 limit in if ltb_ℤ l (pos 10) then l else pos 10

abbrev pub total : Work → ℕ
total w = w.stats.replayed + w.stats.skipped + w.stats.failed

abbrev fail : Failure → Work → Work
fail f w = record w {
  stats = record w.stats { failed = w.stats.failed + 1 };
  errs = w.errs ++ (f ∷ []);
}

abbrev pub put_back : Message → Resent
put_back msg = record { body = msg.body; redrive_count = msg.redrives +ℤ pos 1 }

abbrev add_sent : Message → Work → Work
add_sent msg w = record w { sent = put_back msg ∷ w.sent }

abbrev add_deleted : Message → Work → Work
add_deleted msg w = record w { deleted = msg ∷ w.deleted }

abbrev count_replayed : Work → Work
count_replayed w = record w { stats = record w.stats { replayed = w.stats.replayed + 1 } }

-- SendMessage, then DeleteMessage.
unfoldable pub move_message : Fate → Fate → Message → Work → Work
move_message works works msg w = count_replayed (add_deleted msg (add_sent msg w))
move_message works fails msg w = fail (delete_failed msg) (add_sent msg w)
move_message works unseen msg w = fail (delete_failed msg) (add_deleted msg (add_sent msg w))
move_message fails d msg w = fail (send_failed msg) w
move_message unseen d msg w = fail (send_failed msg) (add_sent msg w)

abbrev skip : Message → Work → Work
skip msg w = record w {
  kept = w.kept ++ (msg ∷ []);
  stats = record w.stats { skipped = w.stats.skipped + 1 };
}

-- One round of the inner loop.
unfoldable pub replay_message : Sqs → ℕ → ℤ → Message → Work → Work
unfolding move_message
replay_message sqs round max_redrives msg w =
    if leb_ℤ max_redrives msg.redrives
    then skip msg w
    else move_message (sqs.send_message round msg) (sqs.delete_message round msg) msg w

unfoldable pub replay_batch : Sqs → ℕ → ℤ → List Message → Work → Work
replay_batch sqs round max_redrives [] w = w
replay_batch sqs round max_redrives (msg ∷ batch) w =
    replay_batch sqs round max_redrives batch (replay_message sqs round max_redrives msg w)

-- The loop of a dry run, which only counts.
unfoldable pub dry_batch : ℤ → List Message → Stats → Stats
dry_batch max_redrives [] stats = stats
dry_batch max_redrives (msg ∷ batch) stats = dry_batch max_redrives batch (
    if leb_ℤ max_redrives msg.redrives
    then record stats { skipped = stats.skipped + 1 }
    else record stats { replayed = stats.replayed + 1 })

-- The end after the loop, and the deferred release.
abbrev finish : Work → List Message → Outcome
finish w batch = record {
  result = record w.stats { errors = w.errs };
  receive_failed = false;
  work = w;
  released = batch ++ w.kept;
}

-- The early return when a receive fails.
abbrev abort : Work → Outcome
abort w = record { result = w.stats; receive_failed = true; work = w; released = w.kept }

-- A round of the loop after its receive; `again` is the next round.
unfoldable pub after_receive :
    Sqs → ℕ → ℤ → Bool → (Work → Option Outcome) → Option (List Message) → Work → Option Outcome
after_receive sqs round max_redrives dry_run again none w = some (abort w)
after_receive sqs round max_redrives dry_run again (some []) w = some (finish w [])
after_receive sqs round max_redrives true again (some (msg ∷ batch)) w =
    some (finish (record w { stats = dry_batch max_redrives (msg ∷ batch) w.stats }) (msg ∷ batch))
after_receive sqs round max_redrives false again (some (msg ∷ batch)) w =
    again (replay_batch sqs round max_redrives (msg ∷ batch) w)

-- Replay's loop, on fuel; `none` means that the fuel ran out.
unfoldable pub replay_loop : ℕ → Sqs → ℤ → ℤ → Bool → Work → Option Outcome
replay_loop zero sqs limit max_redrives dry_run w = none
replay_loop (suc fuel) sqs limit max_redrives dry_run w =
    let next =
      after_receive sqs fuel max_redrives dry_run (replay_loop fuel sqs limit max_redrives dry_run)
        (sqs.receive_message fuel (batch_max limit)) w in
    if ltb_ℤ (pos (total w)) limit then next else some (finish w [])

abbrev pub idle : Work
idle = record {
  stats = record { replayed = 0; skipped = 0; failed = 0; errors = [] };
  errs = [];
  kept = [];
  sent = [];
  deleted = [];
}

-- `Replay`.
unfoldable pub replay : ℕ → Sqs → ℤ → ℤ → Bool → Option Outcome
replay fuel sqs limit max_redrives dry_run = replay_loop fuel sqs limit max_redrives dry_run idle
