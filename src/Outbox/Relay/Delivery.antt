-- ===== src/Outbox/Relay/Delivery.antt =====
-- internal/outbox/relay.go: no row is marked published that the publisher has not accepted.
use dispute_router.Common.{
  ℕ, ◌≡◌, refl, Bool, true, ◌||◌, List, [], ◌∷◌, ◌++◌, some, arith, All, All-map, All-update_where,
}
use dispute_router.Database.Schema.{OutboxRow}
use dispute_router.Database.Transaction.{Fate, works, fails, unseen}
use dispute_router.Outbox.Relay.{
  Feed, Pass, unpublished, has_id, select_batch, accepted, mark_published, settle, after_publish,
  after_select, begin_select, drain_once,
}

-- A row is still to be published, or its message is in the queue.
abbrev pub is_delivered : List OutboxRow → OutboxRow → Bool
is_delivered queue row = unpublished row || has_id row.id queue

abbrev pub Delivered : Feed → Type 0
Delivered feed = All (λ row. is_delivered feed.queue row ≡ true) feed.outbox

has_id-append :
    (id : ℕ) (xs ys : List OutboxRow) → has_id id (xs ++ ys) ≡ (has_id id xs || has_id id ys)
unfolding has_id
has_id-append id [] ys = refl
has_id-append id (x ∷ xs) ys = ground (arith, has_id-append id xs ys)

grow :
    (queue sent : List OutboxRow) (row : OutboxRow)
    → is_delivered queue row ≡ true
    → is_delivered (queue ++ sent) row ≡ true
grow queue sent row h = ground (arith, has_id-append row.id queue sent)

mark :
    (queue sent : List OutboxRow) (now : ℕ) (row : OutboxRow)
    → has_id row.id sent ≡ true
    → is_delivered queue row ≡ true
    → is_delivered (queue ++ sent) (record row { published_at = some now }) ≡ true
unfolding unpublished
mark queue sent now row h k = ground (arith, has_id-append row.id queue sent)

-- More in the queue keeps the rows delivered.
queued-Delivered :
    (feed : Feed) (sent : List OutboxRow)
    → Delivered feed
    → Delivered (record feed { queue = feed.queue ++ sent })
queued-Delivered feed sent h = All-map _ _ feed.outbox (grow feed.queue sent) h

marked-Delivered :
    (feed : Feed) (sent : List OutboxRow) (now : ℕ)
    → Delivered feed
    → Delivered
        (record feed { queue = feed.queue ++ sent; outbox = mark_published now sent feed.outbox })
unfolding mark_published
marked-Delivered feed sent now h =
    All-update_where _ _ (λ row. has_id row.id sent) _ feed.outbox (mark feed.queue sent now)
      (λ row e. grow feed.queue sent row) h

after_publish-Delivered :
    (p : Pass) (feed : Feed) (sent : List OutboxRow) (m c : Fate)
    → p.mark_fate ≡ m
    → p.commit_fate ≡ c
    → Delivered feed
    → Delivered (after_publish p feed sent).1
unfolding after_publish
after_publish-Delivered p feed [] m c e f h = h
after_publish-Delivered p feed (x ∷ sent) fails c e f h =
    rw (e, settle) (queued-Delivered feed (x ∷ sent) h)
after_publish-Delivered p feed (x ∷ sent) unseen c e f h =
    rw (e, settle) (queued-Delivered feed (x ∷ sent) h)
after_publish-Delivered p feed (x ∷ sent) works works e f h =
    rw (e, f, settle) (marked-Delivered feed (x ∷ sent) p.now h)
after_publish-Delivered p feed (x ∷ sent) works unseen e f h =
    rw (e, f, settle) (marked-Delivered feed (x ∷ sent) p.now h)
after_publish-Delivered p feed (x ∷ sent) works fails e f h =
    rw (e, f, settle) (queued-Delivered feed (x ∷ sent) h)

after_select-Delivered :
    (p : Pass) (feed : Feed) (batch : List OutboxRow)
    → Delivered feed
    → Delivered (after_select p feed batch).1
unfolding after_select
after_select-Delivered p feed [] h = h
after_select-Delivered p feed (x ∷ batch) h =
    after_publish-Delivered p feed (accepted p.publish (x ∷ batch)) _ _ refl refl h

begin_select-Delivered :
    (b s : Fate) (p : Pass) (batch_size : ℕ) (feed : Feed)
    → Delivered feed
    → Delivered (begin_select b s p batch_size feed).1
unfolding begin_select
begin_select-Delivered works works p n feed h =
    after_select-Delivered p feed (select_batch p.locked n feed.outbox) h
begin_select-Delivered works fails p n feed h = h
begin_select-Delivered works unseen p n feed h = h
begin_select-Delivered fails s p n feed h = h
begin_select-Delivered unseen s p n feed h = h

-- At least once: if every row that is marked published has its message in the queue, this still holds
-- after a pass, however the pass goes, and also if the commit's answer is lost.
pub drain_once-Delivered :
    (p : Pass) (batch_size : ℕ) (feed : Feed)
    → Delivered feed
    → Delivered (drain_once p batch_size feed).1
unfolding drain_once
drain_once-Delivered p n feed h = begin_select-Delivered p.begin_fate p.select_fate p n feed h
