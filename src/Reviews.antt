-- ===== src/Reviews.antt =====
-- internal/api/reviews.go: the reviewer's decision on a drafted run. A reviewer's name is a list of code
-- points.
pub mod Rows
pub mod Found
pub mod Decided
pub mod Once
use Prim.Native.String.{◌++◌ as append}
use dispute_router.Common.{
  ℕ, suc, String, Bool, true, false, not, ◌&&◌, ◌||◌, List, [], ◌∷◌, Option, none, some, length,
  find_where, update_where, filter_where, if◌then◌else◌, ltb, leb, ◌==◌, str_eq,
}
use dispute_router.Common.Bytes.{Bytes, codes}
use dispute_router.Database.Schema.{Db, RunRow, DisputeRow, text, key}
use dispute_router.Database.Transaction.{
  Error, not_reviewable, invalid_input, Result, ok, err, Fate, Session, Tx, ◌>>=◌, ◌>>◌, pure,
  statement, begin_func,
}
use dispute_router.Dispute.{State, received, draft_ready, represented, state_eq}
use dispute_router.Events.{Event, record_event}
use dispute_router.Worker.Store.{moved}

-- `Decision` of internal/api/decisions.go.
pub data ReviewDecision : Type 0 where
  submitted discarded : ReviewDecision
  other_decision : String → ReviewDecision

abbrev pub max_reviewer_runes : ℕ
max_reviewer_runes = 64

-- unicode.IsSpace.
abbrev is_space : ℕ → Bool
is_space r =
    r == 32
    || (leb 9 r && leb r 13)
    || r == 133
    || r == 160
    || r == 5760
    || (leb 8192 r && leb r 8202)
    || r == 8232
    || r == 8233
    || r == 8239
    || r == 8287
    || r == 12288

-- unicode.IsControl.
abbrev is_control : ℕ → Bool
is_control r = ltb r 32 || (leb 127 r && ltb r 160)

-- strings.TrimSpace(s) == "".
unfoldable pub is_blank : Bytes → Bool
is_blank [] = true
is_blank (r ∷ s) = is_space r && is_blank s

unfoldable pub is_printable : Bytes → Bool
is_printable [] = true
is_printable (r ∷ s) = not (is_control r) && is_printable s

-- `validReviewer`.
unfoldable pub is_valid_reviewer : Bytes → Bool
is_valid_reviewer reviewer =
    if is_blank reviewer
    then false
    else if ltb max_reviewer_runes (length reviewer)
    then false
    else is_printable reviewer

unfoldable pub decision_text : ReviewDecision → String
decision_text submitted = "submitted"
decision_text discarded = "discarded"
decision_text (other_decision s) = s

-- The switch on the decision; `none` is its default.
unfoldable pub target_of : ReviewDecision → Option State
target_of submitted = some represented
target_of discarded = some received
target_of (other_decision s) = none

unfoldable pub awaits_decision : ℕ → RunRow → Bool
awaits_decision run_id a = a.id == run_id && elim a.review [ none ↦ true | some r ↦ false ]

unfoldable pub reviewed : ReviewDecision → String → ℕ → RunRow → RunRow
unfolding decision_text
reviewed decision reviewer now a = record a {
  review = some (decision_text decision);
  reviewed_by = some reviewer;
  reviewed_at = some now;
}

pub decide_row : ℕ → ReviewDecision → String → Session → Option RunRow → Result (ℕ × Session)
decide_row run_id decision reviewer s none = err not_reviewable
decide_row run_id decision reviewer s (some a) = ok (
  a.dispute_id,
  record s {
    db = record s.db {
      runs = update_where (awaits_decision run_id) (reviewed decision reviewer s.now) s.db.runs;
    };
  },
)

-- UPDATE agent_runs ... WHERE id = $1 AND review IS NULL RETURNING dispute_id.
unfoldable pub decide_run : ℕ → ReviewDecision → String → Tx ℕ
unfolding decide_row
decide_run run_id decision reviewer =
    statement
      λ s. decide_row run_id decision reviewer s (find_where (awaits_decision run_id) s.db.runs)

-- id = $1 AND state = 'draft_ready' AND deadline_at > now().
unfoldable pub is_reviewable : ℕ → ℕ → DisputeRow → Bool
is_reviewable dispute_id now d =
    d.id == dispute_id && state_eq d.state draft_ready && ltb now d.deadline_at

pub move_row : ℕ → State → Session → Option DisputeRow → Result (Unit {0} × Session)
move_row dispute_id to s none = err not_reviewable
move_row dispute_id to s (some d) = ok (
  tt,
  record s {
    db = record s.db {
      disputes = update_where (is_reviewable dispute_id s.now) (moved to false s.now) s.db.disputes;
    };
  },
)

-- UPDATE disputes; no row affected is ErrNotReviewable.
unfoldable pub move_reviewed : ℕ → State → Tx (Unit {0})
unfolding move_row
move_reviewed dispute_id to =
    statement
      λ s. move_row dispute_id to s (find_where (is_reviewable dispute_id s.now) s.db.disputes)

pub review_event : ℕ → ℕ → ReviewDecision → State → String → Event
unfolding decision_text
review_event dispute_id run_id decision to reviewer = record {
  dispute_id = dispute_id;
  from_state = some draft_ready;
  to_state = to;
  actor = append "user:" reviewer;
  detail =
      ("run", key run_id)
      ∷ ("decision", text (decision_text decision))
      ∷ ("reviewer", text reviewer)
      ∷ [];
  occurred_at = 0;
}

unfoldable pub review_tx : ℕ → ReviewDecision → State → String → Tx (Unit {0})
review_tx run_id decision to reviewer = do
  dispute_id ← decide_run run_id decision reviewer
  move_reviewed dispute_id to
  record_event (review_event dispute_id run_id decision to reviewer)

-- `Decide` once its target is known.
pub review_to :
    Option State → ℕ → ReviewDecision → String → List Fate → ℕ → Db → Result (Unit {0}) × Db
review_to none run_id decision reviewer fates now db = (err invalid_input, db)
review_to (some to) run_id decision reviewer fates now db =
    if is_valid_reviewer (codes reviewer)
    then begin_func (review_tx run_id decision to reviewer) fates now db
    else (err invalid_input, db)

-- `Store.Decide`.
unfoldable pub review : ℕ → ReviewDecision → String → List Fate → ℕ → Db → Result (Unit {0}) × Db
unfolding review_to
review run_id decision = review_to (target_of decision) run_id decision

-- The queue of `Reviews`: the runs, in the order of the table, that wait for a decision.
unfoldable pub waits_in_queue : Db → RunRow → Bool
waits_in_queue db a =
    elim a.review [ none ↦ true | some r ↦ false ]
    && elim (find_where (λ d. d.id == a.dispute_id) db.disputes) [
      | none ↦ false
      | some d ↦ state_eq d.state draft_ready
    ]
