-- ===== src/Agent/Runs/Again.antt =====
-- A claim that is given back leaves the dispute as it was for the next one.
use dispute_router.Common.{
  ℕ, suc, ◌≡◌, refl, inl, inr, true, false, List, [], ◌∷◌, Option, none, some, arith, find_where,
  find_where-holds, update_where, Bool-cases,
}
use dispute_router.Agent.Runs.{
  Claim, can_hold, hold_row, hold, is_claimed, move_claimed, release_row, release,
}
use dispute_router.Agent.Runs.Rows.{hold-committed}
use dispute_router.Database.Schema.{Db, DisputeRow}
use dispute_router.Database.Transaction.{ok, Fate, works, auto_commit}
use dispute_router.Dispute.{received, resolving, state_eq}
use dispute_router.Worker.Store.{moved}

abbrev held_rows : ℕ → List DisputeRow → List DisputeRow
held_rows i = update_where (can_hold i) (moved resolving false 0)

-- The row that was held is found by its claim, and is there to be held again once that is given back.
held_rows-found :
    (i : ℕ) (c : Claim) (ds : List DisputeRow) (d : DisputeRow)
    → find_where (can_hold i) ds ≡ some d
    → c.dispute_id ≡ d.id
    → c.version ≡ suc d.version
    → ((x : DisputeRow) × (find_where (is_claimed c) (held_rows i ds) ≡ some x))
      × ((x : DisputeRow) × (find_where (can_hold i) (move_claimed c received (held_rows i ds))
            ≡ some x)
          × (x.id ≡ d.id)
          × (x.version ≡ suc (suc d.version)))
unfolding find_where update_where can_hold is_claimed move_claimed moved state_eq
held_rows-found i c [] d h a b = absurd (ground (arith, h))
held_rows-found i c (x ∷ ds) d h a b = elim (Bool-cases (can_hold i x)) [
  | inl hit ↦
      let same : x ≡ d = ground (arith, rw hit at h) in
      let mine : is_claimed c (moved resolving false 0 x) ≡ true = ground (arith, same, a, b) in
      let free : can_hold i (moved received false 0 (moved resolving false 0 x)) ≡ true =
        ground (arith, hit) in
      rw hit (
        rw mine (
          rw free (
            (moved resolving false 0 x, refl),
            (
              moved received false 0 (moved resolving false 0 x),
              refl,
              ground (arith, same),
              ground (arith, same),
            ),
          )))
  | inr miss ↦
      let rest = held_rows-found i c ds d (rw miss at h) a b in
      let whose : can_hold i d ≡ true = find_where-holds (can_hold i) (x ∷ ds) h in
      rw miss (elim (Bool-cases (is_claimed c x)) [
        | inl mine ↦
            let free : can_hold i (moved received false 0 x) ≡ true =
              ground (arith, mine, whose, a) in
            rw mine (
              rw free (
                (x, refl),
                (moved received false 0 x, refl, ground (arith, mine, a), ground (arith, mine, b)),
              ))
        | inr other ↦ rw other (rw miss rest)
      ])
]

release-works :
    (c : Claim) (db : Db) (x : DisputeRow)
    → find_where (is_claimed c) db.disputes ≡ some x
    → release c works db ≡ (ok tt, record db { disputes = move_claimed c received db.disputes })
unfolding release release_row auto_commit
release-works c db x h = rw h refl

-- Holding, giving back and holding again: the second claim is the first one, two versions on.
pub hold-release :
    (i : ℕ) (f : Fate) (db : Db) (c : Claim)
    → (hold i f db).0 ≡ ok c
    → (hold i works (release c works (hold i f db).1).1).0
      ≡ ok (record c { version = suc (suc c.version) })
unfolding hold hold_row auto_commit
hold-release i f db c h =
    by_row (find_where (can_hold i) db.disputes) refl (hold-committed i f db c h)
  where
    by_row :
        (o : Option DisputeRow)
        → find_where (can_hold i) db.disputes ≡ o
        → hold_row i db o ≡ ok (c, (hold i f db).1)
        → (hold i works (release c works (hold i f db).1).1).0
          ≡ ok (record c { version = suc (suc c.version) })
    by_row none e k = absurd (ground (arith, k))
    by_row (some d) e k =
        let rows : (hold i f db).1.disputes ≡ held_rows i db.disputes = ground (arith, k) in
        let runs : (hold i f db).1.runs ≡ db.runs = ground (arith, k) in
        let whose : c.dispute_id ≡ d.id = ground (arith, k) in
        let version : c.version ≡ suc d.version = ground (arith, k) in
        let ((x, there), (y, again, id, two)) = held_rows-found i c db.disputes d e whose version in
        let back = release-works c (hold i f db).1 x (rw rows there) in
        rw back (rw rows (rw again (rw runs (ground (arith, k, id, two)))))
