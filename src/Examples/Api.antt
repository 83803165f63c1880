-- ===== src/Examples/Api.antt =====
-- The theorems on the dashboard's reads, at a sample query and a sample file.
use dispute_router.Common.{
  ℕ, ◌≡◌, Bool, true, false, [], ◌∷◌, Option, none, some, if◌then◌else◌, ◌==◌,
}
use dispute_router.Common.Bytes.{Bytes, codes, bytes_eq}
use dispute_router.Common.Int.{pos}
use dispute_router.Common.Text.{starts_with}
use dispute_router.Api.Builder.{Row, merchant, state, currency, kind, network, reason, Column}
use dispute_router.Api.Filters.{Filters, by_amount, Readers, parse_filters}
use dispute_router.Api.Filters.Bounds.{Holds, Usable, parse_filters-Usable}
use dispute_router.Api.Evidence.{Policy, presign_upload, open_file, key_of, fetched, not_on_dispute}
use dispute_router.Api.Evidence.Keys.{Bounded, presign_upload-Bounded, open_file-key_of}

abbrev query : Filters
query = record {
  merchants = codes "m1" ∷ codes "m2" ∷ [];
  states = [];
  kinds = codes "alert" ∷ [];
  networks = [];
  reasons = [];
  currency_code = codes "USD";
  min_amount_minor = some (pos 100);
  max_amount_minor = none;
  opened_from_ = none;
  opened_to = some (pos 5000);
  due_within = some (pos 60);
  open_only = false;
  search = codes "dp";
  sort = some by_amount;
  desc = true;
  limit = pos 50;
  offset = pos 0;
}

abbrev columns : Column → Bytes
columns merchant = codes "m2"
columns state = codes "received"
columns kind = codes "alert"
columns network = codes "visa"
columns reason = codes "10.4"
columns currency = codes "USD"

abbrev row : Row
row = record {
  column = columns;
  amount_minor = pos 250;
  opened_at = pos 900;
  deadline_at = pos 1030;
  reference = codes "dp_1";
  transaction_reference = codes "tx_1";
}

abbrev like : Bytes → Bytes → Bool
like t pattern = starts_with pattern t

abbrev asked : Bytes → Bytes
asked key =
    if bytes_eq key (codes "limit")
    then codes "500"
    else if bytes_eq key (codes "state")
    then codes "won, lost"
    else []

abbrev readers : Readers
readers = record { get = asked; parse_instant = λ raw. none; parse_duration = λ raw. none }

parse_filters-Usable_example : Holds Usable (parse_filters readers)
parse_filters-Usable_example = parse_filters-Usable readers

abbrev signs : Policy → Bool
signs policy = true

presign_upload-Bounded_example :
    Bounded 42 1700000000 (codes "../../receipt no 1.pdf") (codes "application/pdf") (
      presign_upload signs 42 1700000000 (codes "../../receipt no 1.pdf") (codes "application/pdf"))
presign_upload-Bounded_example =
    presign_upload-Bounded signs 42 1700000000 (codes "../../receipt no 1.pdf")
      (codes "application/pdf")

abbrev stored : Bytes → Option ℕ
stored key = some 7

open_file-key_of_example :
    open_file stored 4 (key_of 42 1700000000 (codes "a.pdf"))
    ≡ (if 42 == 4 then fetched (stored (key_of 42 1700000000 (codes "a.pdf"))) else not_on_dispute)
open_file-key_of_example = open_file-key_of stored 42 4 1700000000 (codes "a.pdf")
