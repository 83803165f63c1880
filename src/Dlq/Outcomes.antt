-- ===== src/Dlq/Outcomes.antt =====
-- internal/dlq/redrive.go: statements about what Replay's loop returns, if it has fuel enough.
use dispute_router.Common.{◌≡◌, refl, Bool, true, false, Option, none, some, if◌then◌else◌}
use dispute_router.Dlq.{Outcome}

-- What holds of the outcome when there is one.
unfoldable pub Ends : (Outcome → Type 0) → Option Outcome → Type 0
Ends P none = Unit
Ends P (some o) = P o

pub if-Ends :
    (P : Outcome → Type 0) (b : Bool) (x y : Option Outcome)
    → (b ≡ true → Ends P x)
    → Ends P y
    → Ends P (if b then x else y)
if-Ends P true x y h k = h refl
if-Ends P false x y h k = k
