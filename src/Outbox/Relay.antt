-- ===== src/Outbox/Relay.antt =====
-- internal/outbox/relay.go: the relay that publishes committed rows, at least once each.
-- The publisher is a parameter: in one pass it accepts or refuses each message. `locked` are the rows
-- that another relay has locked, and `queue` is what the publisher has accepted so far.
-- Scan errors and a failing SELECT are one fate; the live broadcast never changes a result.
pub mod Delivery
pub mod Progress
use dispute_router.Common.{
  ℕ, zero, suc, Bool, true, false, not, ◌&&◌, ◌||◌, List, [], ◌∷◌, ◌++◌, map, Option, none, some,
  length, take, filter_where, update_where, ltb, ◌==◌, if◌then◌else◌,
}
use dispute_router.Database.Schema.{OutboxRow}
use dispute_router.Database.Transaction.{driver_error, Result, ok, err, Fate, works, fails, unseen}

-- The table and the queue.
pub record Feed : Type 0 where
  pub outbox : List OutboxRow
  pub queue : List OutboxRow

abbrev is_none {ℓ} : {A : Type ℓ} → Option A → Bool
is_none none = true
is_none (some a) = false

unfoldable pub unpublished : OutboxRow → Bool
unpublished row = is_none row.published_at

unfoldable pub has_id : ℕ → List OutboxRow → Bool
has_id id [] = false
has_id id (row ∷ rows) = row.id == id || has_id id rows

-- The fates of a pass's round trips, its clock, and the two choices of the outside.
pub record Pass : Type 0 where
  pub begin_fate : Fate
  pub select_fate : Fate
  pub mark_fate : Fate
  pub commit_fate : Fate
  pub now : ℕ
  pub locked : ℕ → Bool
  pub publish : OutboxRow → Bool

-- SELECT ... WHERE published_at IS NULL ORDER BY id LIMIT $1 FOR UPDATE SKIP LOCKED; the table is kept
-- in the order of its ids.
unfoldable pub select_batch : (ℕ → Bool) → ℕ → List OutboxRow → List OutboxRow
select_batch locked batch_size outbox =
    take batch_size (filter_where (λ row. unpublished row && not (locked row.id)) outbox)

-- The publishing loop: it stops at the first failure.
unfoldable pub accepted : (OutboxRow → Bool) → List OutboxRow → List OutboxRow
accepted publish [] = []
accepted publish (msg ∷ batch) =
    let rest = msg ∷ accepted publish batch in if publish msg then rest else []

-- UPDATE outbox SET published_at = now() WHERE id = ANY($1).
unfoldable pub mark_published : ℕ → List OutboxRow → List OutboxRow → List OutboxRow
mark_published now sent =
    update_where (λ row. has_id row.id sent) (λ row. record row { published_at = some now })

-- The UPDATE and the commit, of what was sent.
settle : Fate → Fate → ℕ → List OutboxRow → Feed → Result ℕ × Feed
settle works works now sent feed =
    (ok (length sent), record feed { outbox = mark_published now sent feed.outbox })
settle works unseen now sent feed =
    (err driver_error, record feed { outbox = mark_published now sent feed.outbox })
settle works fails now sent feed = (err driver_error, feed)
settle fails c now sent feed = (err driver_error, feed)
settle unseen c now sent feed = (err driver_error, feed)

-- What follows the publishing loop.
after_publish : Pass → Feed → List OutboxRow → Result ℕ × Feed
unfolding settle
after_publish p feed [] = (err driver_error, feed)
after_publish p feed (msg ∷ sent) =
    settle p.mark_fate p.commit_fate p.now (msg ∷ sent)
      (record feed { queue = feed.queue ++ (msg ∷ sent) })

-- What follows the SELECT.
after_select : Pass → Feed → List OutboxRow → Result ℕ × Feed
unfolding after_publish
after_select p feed [] = (ok 0, feed)
after_select p feed (msg ∷ batch) = after_publish p feed (accepted p.publish (msg ∷ batch))

begin_select : Fate → Fate → Pass → ℕ → Feed → Result ℕ × Feed
unfolding after_select
begin_select works works p batch_size feed =
    after_select p feed (select_batch p.locked batch_size feed.outbox)
begin_select works fails p batch_size feed = (err driver_error, feed)
begin_select works unseen p batch_size feed = (err driver_error, feed)
begin_select fails s p batch_size feed = (err driver_error, feed)
begin_select unseen s p batch_size feed = (err driver_error, feed)

-- `Relay.drainOnce`.
unfoldable pub drain_once : Pass → ℕ → Feed → Result ℕ × Feed
unfolding begin_select
drain_once p batch_size feed = begin_select p.begin_fate p.select_fate p batch_size feed

-- What the loop does after a pass; `again` is its next round.
after_drain : ℕ → (Feed → Option Feed) → Result ℕ × Feed → Option Feed
after_drain batch_size again (err e, feed) = some feed
after_drain batch_size again (ok n, feed) =
    let next = again feed in if ltb n batch_size then some feed else next

-- The loop of one tick of `Relay.Run`, on fuel; `none` means that the fuel ran out. Before each round the
-- rows have come in that other services inserted since the last.
unfoldable pub drain_loop : ℕ → (ℕ → Pass) → (ℕ → List OutboxRow) → ℕ → Feed → Option Feed
unfolding after_drain
drain_loop zero passes arrivals batch_size feed = none
drain_loop (suc fuel) passes arrivals batch_size feed =
    after_drain batch_size (drain_loop fuel passes arrivals batch_size)
      (drain_once (passes fuel) batch_size (record feed { outbox = feed.outbox ++ arrivals fuel }))
