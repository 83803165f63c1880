-- ===== src/Examples/Ledger.antt =====
-- The theorems on the ledger, at the sample accounts.
use dispute_router.Common.{◌≡◌, refl, ◌*◌, List, [], ◌∷◌, arith, filter_where}
use dispute_router.Common.Int.{◌-ℤ◌, ◌+ℤ◌}
use dispute_router.Database.Transaction.{
  Error, ok, err, begin_func, all_balanced, is_balanced, legs_of, delta,
}
use dispute_router.Ledger.{Entry, has_ref, selects, loss_journal, write, leg_row}
use dispute_router.Ledger.Balance.{Posts, CanPost, loses, post, journal_of, post-balances}
use dispute_router.Ledger.Reference.{PostCall, run_posts, post-once}
use dispute_router.Examples.Sample.{second, sample_db, sample_session, entry}

can_post : CanPost entry (journal_of (loses "lost") entry) sample_session
unfolding journal_of loss_journal selects has_ref filter_where
can_post = record {
  unused = refl;
  found = ((_, refl), ((_, refl), ((_, refl), ((_, refl), tt))));
  fresh = tt;
}

post-balances_example :
    Posts (post (loses "lost") entry) (journal_of (loses "lost") entry) sample_session
post-balances_example =
    post-balances entry sample_session refl refl (loses "lost") (omega arith) can_post

-- The loss is posted, and a loss of another dispute after it.
posts_loss : (begin_func (post (loses "lost") entry) [] (50 * second) sample_db).0 ≡ ok tt
unfolding begin_func post has_ref write loss_journal filter_where selects all_balanced is_balanced
    legs_of leg_row delta ◌-ℤ◌ ◌+ℤ◌
posts_loss = refl

abbrev since : List PostCall
since =
    record {
      op = loses "lost";
      entry = record entry { dispute_id = 8 };
      fates = [];
      now = 55 * second;
    }
    ∷ []

post-once_example :
    (x : Error) × (begin_func
        (post (loses "late") entry)
        []
        (60 * second)
        (run_posts since (begin_func (post (loses "lost") entry) [] (50 * second) sample_db).1)
      ≡ (
        err x,
        run_posts since (begin_func (post (loses "lost") entry) [] (50 * second) sample_db).1,
      ))
unfolding journal_of loss_journal
post-once_example =
    post-once (loses "lost") (loses "late") entry entry [] [] (50 * second) (60 * second) since
      sample_db posts_loss refl

-- The accounts are in USD.
abbrev foreign : Entry
foreign = record entry { currency = "JPY" }
