-- ===== src/Examples/Ingest.antt =====
-- The theorems on the webhooks, at a sample one.
use dispute_router.Common.{◌≡◌, ◌↔◌, refl, none, some, ◌⊎◌, Bool, true, List, [], ◌∷◌}
use dispute_router.Common.Bytes.{Bytes, codes}
use dispute_router.Common.Int.{pos, negsuc}
use dispute_router.Ingest.Event.{
  DisputeWebhook, amount_not_positive, is_valid_kind, is_valid_network, are_capitals,
  is_currency_code, is_valid_utf8, validate_values, validate,
}
use dispute_router.Ingest.Event.Constraints.{WellFormed, validate-accepts_iff}
use dispute_router.Ingest.Store.{Delivery, Recorded, record_dispute, is_duplicate}
use dispute_router.Ingest.Store.Once.{Arrival, run_arrivals, record_dispute-again}
use dispute_router.Database.Transaction.{Fate, works, unseen, ok}
use dispute_router.Database.Schema.{Db}
use dispute_router.Examples.Sample.{merchant, sample_db}

abbrev pub webhook : DisputeWebhook
webhook = record {
  id = "evt_1";
  event_type = "dispute.opened";
  created_at = 100;
  event_data = record {
    dispute_id = "dp_1";
    merchant_id = "m_1";
    transaction_id = "tx_5";
    kind = "alert";
    card_network = "visa";
    reason_code = "10.4";
    amount_minor = pos 5799;
    currency = "USD";
    opened_at = 100;
    respond_by = 900;
    cardholder_claim = codes "It never came.";
  };
}

abbrev without_amount : DisputeWebhook
without_amount = record webhook {
  event_data = record webhook.event_data { amount_minor = negsuc 0 };
}

validate_negative : validate without_amount 200 ≡ some amount_not_positive
unfolding validate validate_values is_valid_kind is_valid_network
validate_negative = refl

webhook-accepted : validate webhook 200 ≡ none
unfolding validate validate_values is_valid_kind is_valid_network is_currency_code are_capitals
    is_valid_utf8
webhook-accepted = refl

validate-accepts_iff_example : (validate webhook 200 ≡ none) ↔ WellFormed webhook 200
validate-accepts_iff_example = validate-accepts_iff webhook 200

abbrev pub takes_all : Bytes → Bool
takes_all raw = true

abbrev pub delivery : Delivery
delivery = record { merchant = merchant; raw = codes "{}"; signature = "s" }

-- The commit's answer is lost.
abbrev answer_lost : List Fate
answer_lost = works ∷ works ∷ works ∷ works ∷ works ∷ works ∷ works ∷ unseen ∷ []

-- Another event comes between.
abbrev since : List Arrival
since =
    record {
      delivery = delivery;
      event = record webhook { id = "evt_other" };
      fates = [];
      now = 250;
    }
    ∷ []

abbrev left_behind : Db
left_behind =
    run_arrivals takes_all since
      (record_dispute takes_all delivery webhook answer_lost 200 sample_db).1

record_dispute-again_example :
    ((record_dispute takes_all delivery webhook answer_lost 200 sample_db).1 ≡ sample_db)
    ⊎ (((record_dispute takes_all delivery webhook [] 300 left_behind).1 ≡ left_behind)
        × ((x : Recorded)
            → (record_dispute takes_all delivery webhook [] 300 left_behind).0 ≡ ok x
            → x ≡ is_duplicate))
record_dispute-again_example =
    record_dispute-again takes_all delivery delivery webhook webhook answer_lost [] 200 300 since
      sample_db refl
