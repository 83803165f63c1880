-- ===== src/Outbox/Relay/Progress.antt =====
-- internal/outbox/relay.go: what a tick of the relay gets done, and what stops it.
use dispute_router.Common.{
  ℕ, zero, suc, ◌+◌, ◌++◌, ◌<◌, ◌≤◌, ◌≡◌, refl, ◌⊎◌, inl, inr, Bool, true, false, not, ◌&&◌, List,
  [], ◌∷◌, Option, some, arith, All, filter_where, update_where, length, take, ltb, if◌then◌else◌,
  Bool-cases,
}
use dispute_router.Database.Schema.{OutboxRow}
use dispute_router.Database.Transaction.{Result, ok, err, Fate, works, fails, unseen, driver_error}
use dispute_router.Outbox.Relay.{
  Feed, Pass, unpublished, has_id, select_batch, accepted, mark_published, settle, after_publish,
  after_select, begin_select, drain_once, after_drain, drain_loop,
}

-- A message at the head of the batch that the publisher refuses.
pub record StuckHead (p : Pass) (batch_size : ℕ) (feed : Feed) (msg : OutboxRow) : Type 0 where
  pub rest : List OutboxRow
  pub heads : select_batch p.locked batch_size feed.outbox ≡ msg ∷ rest
  pub refused : p.publish msg ≡ false

refused-drain_once :
    (p : Pass) (batch_size : ℕ) (feed : Feed) (msg : OutboxRow) (b s : Fate)
    → p.begin_fate ≡ b
    → p.select_fate ≡ s
    → StuckHead p batch_size feed msg
    → drain_once p batch_size feed ≡ (err driver_error, feed)
unfolding drain_once accepted
refused-drain_once p n feed msg works works e f r = ground (arith, r.heads, r.refused)
refused-drain_once p n feed msg works fails e f r = ground arith
refused-drain_once p n feed msg works unseen e f r = ground arith
refused-drain_once p n feed msg fails s e f r = ground arith
refused-drain_once p n feed msg unseen s e f r = ground arith

-- Passes one after the other.
unfoldable pub run_passes : List Pass → ℕ → Feed → Feed
run_passes [] n feed = feed
run_passes (p ∷ ps) n feed = run_passes ps n (drain_once p n feed).1

-- A message that the publisher refuses whenever it is first in line blocks all those behind it: after
-- any number of such passes nothing is published and no row is marked.
pub refused_first-blocks :
    (ps : List Pass) (batch_size : ℕ) (feed : Feed) (msg : OutboxRow)
    → All (λ p. StuckHead p batch_size feed msg) ps
    → run_passes ps batch_size feed ≡ feed
unfolding run_passes
refused_first-blocks [] n feed msg h = refl
refused_first-blocks (p ∷ ps) n feed msg (r, h) =
    rw (refused-drain_once p n feed msg p.begin_fate p.select_fate refl refl r)
      (refused_first-blocks ps n feed msg h)

-- The rows that are still to be published.
unfoldable pub backlog : Feed → ℕ
backlog feed = length (filter_where unpublished feed.outbox)

mark_published-le :
    (now : ℕ) (sent rows : List OutboxRow)
    → length (filter_where unpublished (mark_published now sent rows))
      ≤ length (filter_where unpublished rows)
unfolding mark_published filter_where update_where unpublished
mark_published-le now sent [] = omega arith
mark_published-le now sent (x ∷ rows) = ground (arith, mark_published-le now sent rows)

-- Marking a row that was unpublished lowers the backlog.
mark_published-lt :
    (now : ℕ) (sent rows : List OutboxRow) (msg : OutboxRow) (rest : List OutboxRow)
    (locked : ℕ → Bool)
    → filter_where (λ row. unpublished row && not (locked row.id)) rows ≡ msg ∷ rest
    → has_id msg.id sent ≡ true
    → length (filter_where unpublished (mark_published now sent rows))
      < length (filter_where unpublished rows)
unfolding mark_published filter_where update_where unpublished
mark_published-lt now sent [] msg rest locked h k = absurd (ground arith)
mark_published-lt now sent (x ∷ rows) msg rest locked h k =
    ground (arith, mark_published-lt now sent rows msg rest locked, mark_published-le now sent rows)

take-head :
    (n : ℕ) (rows : List OutboxRow) (msg : OutboxRow) (rest : List OutboxRow)
    → take n rows ≡ msg ∷ rest
    → (rest' : List OutboxRow) × (rows ≡ msg ∷ rest')
take-head zero rows msg rest h = absurd (ground arith)
take-head (suc n) [] msg rest h = absurd (ground arith)
take-head (suc n) (x ∷ rows) msg rest h = (rows, ground arith)

accepted-head :
    (publish : OutboxRow → Bool) (x : OutboxRow) (batch : List OutboxRow) (y : OutboxRow)
    (sent : List OutboxRow)
    → accepted publish (x ∷ batch) ≡ y ∷ sent
    → has_id x.id (y ∷ sent) ≡ true
unfolding accepted has_id
accepted-head publish x batch y sent h = ground arith

-- A pass that returns a count returns 0 or lowers the backlog.
Progress : Feed → Result ℕ × Feed → Type 0
Progress feed (err e, feed') = Unit
Progress feed (ok k, feed') = (k ≡ 0) ⊎ (backlog feed' < backlog feed)

settle-Progress :
    (m c : Fate) (now : ℕ) (sent : List OutboxRow) (old feed : Feed)
    → length (filter_where unpublished (mark_published now sent feed.outbox)) < backlog old
    → Progress old (settle m c now sent feed)
unfolding settle Progress backlog
settle-Progress works works now sent old feed h = inr h
settle-Progress works fails now sent old feed h = tt
settle-Progress works unseen now sent old feed h = tt
settle-Progress fails c now sent old feed h = tt
settle-Progress unseen c now sent old feed h = tt

after_publish-Progress :
    (p : Pass) (feed : Feed) (msg : OutboxRow) (rest sent : List OutboxRow)
    → filter_where (λ row. unpublished row && not (p.locked row.id)) feed.outbox ≡ msg ∷ rest
    → ((y : OutboxRow) (ys : List OutboxRow) → sent ≡ y ∷ ys → has_id msg.id (y ∷ ys) ≡ true)
    → Progress feed (after_publish p feed sent)
unfolding after_publish Progress backlog
after_publish-Progress p feed msg rest [] h k = tt
after_publish-Progress p feed msg rest (y ∷ ys) h k =
    settle-Progress p.mark_fate p.commit_fate p.now (y ∷ ys) feed _
      (mark_published-lt p.now (y ∷ ys) feed.outbox msg rest p.locked h (k y ys refl))

after_select-Progress :
    (p : Pass) (batch_size : ℕ) (feed : Feed) (batch : List OutboxRow)
    → select_batch p.locked batch_size feed.outbox ≡ batch
    → Progress feed (after_select p feed batch)
unfolding after_select select_batch Progress
after_select-Progress p n feed [] h = inl refl
after_select-Progress p n feed (x ∷ batch) h =
    let (rest, e) = take-head n _ x batch h in
    after_publish-Progress p feed x rest (accepted p.publish (x ∷ batch)) e
      (λ y ys e'. accepted-head p.publish x batch y ys e')

begin_select-Progress :
    (b s : Fate) (p : Pass) (batch_size : ℕ) (feed : Feed)
    → Progress feed (begin_select b s p batch_size feed)
unfolding begin_select Progress
begin_select-Progress works works p n feed = after_select-Progress p n feed _ refl
begin_select-Progress works fails p n feed = tt
begin_select-Progress works unseen p n feed = tt
begin_select-Progress fails s p n feed = tt
begin_select-Progress unseen s p n feed = tt

after_drain_cases :
    (n c : ℕ) (next last : Feed) (rest : Option Feed)
    → rest ≡ some last
    → (feed' : Feed) × ((if ltb c n then some next else rest) ≡ some feed')
after_drain_cases n c next last rest e = elim (Bool-cases (ltb c n)) [
  | inl h ↦ (next, ground (arith, h))
  | inr h ↦ (last, ground (arith, h, e))
]

after_drain-stops :
    (n : ℕ) (again : Feed → Option Feed) (feed : Feed) (r : Result ℕ × Feed)
    → 0 < n
    → Progress feed r
    → ((next : Feed) → backlog next < backlog feed → (feed' : Feed) × (again next ≡ some feed'))
    → (feed' : Feed) × (after_drain n again r ≡ some feed')
unfolding after_drain Progress
after_drain-stops n again feed (err e, next) pos h k = (next, refl)
after_drain-stops n again feed (ok c, next) pos (inl e) k = (next, ground (arith, e))
after_drain-stops n again feed (ok c, next) pos (inr lt) k =
    let (last, e) = k next lt in after_drain_cases n c next last (again next) e

-- The rows that come in during so many rounds.
unfoldable pub arriving : ℕ → (ℕ → List OutboxRow) → ℕ
arriving zero arrivals = 0
arriving (suc rounds) arrivals = length (arrivals rounds) + arriving rounds arrivals

filter_where-append_le :
    (rows more : List OutboxRow)
    → length (filter_where unpublished (rows ++ more))
      ≤ length (filter_where unpublished rows) + length more
unfolding filter_where
filter_where-append_le [] [] = omega arith
filter_where-append_le [] (x ∷ more) = ground (arith, filter_where-append_le [] more)
filter_where-append_le (x ∷ rows) more = ground (arith, filter_where-append_le rows more)

-- The loop of a tick ends: with a positive batch size, it has ended within any number of rounds that is larger than the number of
-- rows that were to be published when it began and of those that other services inserted during these rounds, whatever the
-- publisher, the locks and the database do.
pub drain_loop-stops :
    (rounds : ℕ) (passes : ℕ → Pass) (arrivals : ℕ → List OutboxRow) (batch_size : ℕ) (feed : Feed)
    → 0 < batch_size
    → backlog feed + arriving rounds arrivals < rounds
    → (feed' : Feed) × (drain_loop rounds passes arrivals batch_size feed ≡ some feed')
unfolding drain_loop drain_once arriving backlog
drain_loop-stops zero passes arrivals n feed pos h = absurd (omega arith)
drain_loop-stops (suc rounds) passes arrivals n feed pos h =
    let grown : Feed = record feed { outbox = feed.outbox ++ arrivals rounds } in
    let more = filter_where-append_le feed.outbox (arrivals rounds) in
    after_drain-stops n (drain_loop rounds passes arrivals n) grown
      (drain_once (passes rounds) n grown) pos
      (begin_select-Progress (passes rounds).begin_fate (passes rounds).select_fate (passes rounds)
        n grown)
      (λ next lt. drain_loop-stops rounds passes arrivals n next pos (omega arith))
