-- ===== src/Llm/Retry.antt =====
-- internal/llm/apierror.go, and the retries of Complete in anthropic.go and of withRetry in embed.go. What
-- each call brings and what ends each wait are parameters; times are in nanoseconds.
use dispute_router.Common.{
  ℕ, zero, suc, ◌+◌, ◌-◌, ◌*◌, ◌%◌, ◌^◌, ◌≤◌, ◌≡◌, refl, ◌⊎◌, inl, inr, Bool, true, false, not,
  ◌&&◌, ◌||◌, List, [], ◌∷◌, ltb, leb, ◌==◌, arith, ℕ_discrete, sym, Bool-cases, if◌then◌else◌,
}
use dispute_router.Common.Int.{ℤ, pos, negsuc, leb_ℤ}

-- `apiError`: a status of zero has a cause in its place, when there is one.
pub record ApiError : Type 0 where
  pub status_code : ℕ
  pub has_cause : Bool
  pub retry_after : ℤ

-- `Retryable`.
unfoldable pub is_retryable : ApiError → Bool
is_retryable e =
    if e.status_code == 0
    then e.has_cause
    else e.status_code == 429 || e.status_code == 529 || leb 500 e.status_code

-- What one call brings: an answer, an apiError, or an error of another type.
pub data Attempt {ℓ} (A : Type ℓ) : Type ℓ where
  answered : A → Attempt A
  api_failed : ApiError → Attempt A
  failed : Attempt A

-- `retryable`.
unfoldable pub retryable {ℓ} : {A : Type ℓ} → Attempt A → Bool
unfolding is_retryable
retryable (answered a) = false
retryable (api_failed e) = is_retryable e
retryable failed = false

wait_of : ℤ → ℕ → ℕ
wait_of (pos zero) computed = computed
wait_of (pos (suc n)) computed = suc n
wait_of (negsuc n) computed = computed

-- `delayFor`.
unfoldable pub delay_for {ℓ} : {A : Type ℓ} → Attempt A → ℕ → ℕ
unfolding wait_of
delay_for (answered a) computed = computed
delay_for (api_failed e) computed = wait_of e.retry_after computed
delay_for failed computed = computed

-- A Retry-After header once it is trimmed: none or empty, a number, a date, or neither.
pub data RetryAfter : Type 0 where
  absent unreadable : RetryAfter
  seconds : ℤ → RetryAfter
  date : ℕ → RetryAfter

abbrev pub second : ℕ
second = 1000000000

abbrev pub minute : ℕ
minute = 60000000000

-- The product of two Durations, in 64 bits.
unfoldable pub to_int64 : ℕ → ℤ
to_int64 n = let m = n % 2 ^ 64 in if ltb m (2 ^ 63) then pos m else negsuc (2 ^ 64 - 1 - m)

abbrev min_ℤ : ℤ → ℤ → ℤ
min_ℤ a b = if leb_ℤ a b then a else b

-- `parseRetryAfter`.
unfoldable pub parse_retry_after : ℕ → RetryAfter → ℤ
unfolding to_int64
parse_retry_after now absent = pos 0
parse_retry_after now unreadable = pos 0
parse_retry_after now (seconds (negsuc n)) = pos 0
parse_retry_after now (seconds (pos n)) =
    if n == 0 then pos 0 else min_ℤ (to_int64 (n * second)) (pos minute)
parse_retry_after now (date when) =
    if ltb now when then min_ℤ (pos (when - now)) (pos minute) else pos 0

abbrev pub max_attempts : ℕ
max_attempts = 3

-- What comes of the attempts: an answer, the last call's error, or that of a context that ended a wait.
pub data Outcome {ℓ} (A : Type ℓ) : Type ℓ where
  answer : A → Outcome A
  call_error context_error : Outcome A

pub record Tried {ℓ} (A : Type ℓ) : Type ℓ where
  pub outcome : Outcome A
  pub calls : ℕ
  pub waits : List ℕ

unfoldable pub outcome_of {ℓ} : {A : Type ℓ} → Attempt A → Outcome A
outcome_of (answered a) = answer a
outcome_of (api_failed e) = call_error
outcome_of failed = call_error

waited {ℓ} : {A : Type ℓ} → ℕ → Tried A → Tried A
waited delay t = record t { waits = delay ∷ t.waits }

-- The loop over the attempts, of which `left` remain after this one.
unfoldable pub retry_from {ℓ} :
    {A : Type ℓ} → (ℕ → Attempt A) → (ℕ → Bool) → (ℕ → ℕ) → ℕ → ℕ → Tried A
unfolding outcome_of retryable delay_for waited
retry_from call cancels pause zero attempt = record {
  outcome = outcome_of (call attempt);
  calls = attempt;
  waits = [];
}
retry_from call cancels pause (suc left) attempt =
    let delay = delay_for (call attempt) (pause attempt) in
    let rest = waited delay (retry_from call cancels pause left (suc attempt)) in
    if retryable (call attempt)
    then if cancels attempt
      then record { outcome = context_error; calls = attempt; waits = delay ∷ [] }
      else rest
    else record { outcome = outcome_of (call attempt); calls = attempt; waits = [] }

-- `Anthropic.Complete` once the body is encoded.
unfoldable pub complete {ℓ} : {A : Type ℓ} → (ℕ → Attempt A) → (ℕ → Bool) → Tried A
unfolding retry_from
complete call cancels = retry_from call cancels (λ n. n * (2 * second)) 2 1

-- `Voyage.withRetry`.
unfoldable pub with_retry {ℓ} : {A : Type ℓ} → (ℕ → Attempt A) → (ℕ → Bool) → ℕ → Tried A
unfolding retry_from
with_retry call cancels pause = retry_from call cancels (λ n. pause) 2 1

-- What the attempts from one on come to: each call but the last is one to retry whose wait was not cut, and
-- the last is an answer, an error not to retry, a wait that was cut, or the last attempt.
abbrev pub Sound {ℓ} :
    {A : Type ℓ} → (ℕ → Attempt A) → (ℕ → Bool) → (first last : ℕ) → Tried A → Type ℓ
Sound call cancels first last t =
    (first ≤ t.calls)
    × (t.calls ≤ last)
    × ((k : ℕ) → first ≤ k → suc k ≤ t.calls → (retryable (call k) && not (cancels k)) ≡ true)
    × (((retryable (call t.calls) && not (t.calls == last) && cancels t.calls) ≡ true)
          × (t.outcome ≡ context_error)
        ⊎ (((retryable (call t.calls) && not (t.calls == last)) ≡ false)
            × (t.outcome ≡ outcome_of (call t.calls))))

Sound-again {ℓ} :
    {A : Type ℓ} (call : ℕ → Attempt A) (cancels : ℕ → Bool) (first left : ℕ) (delay : ℕ)
    (t : Tried A)
    → (retryable (call first) ≡ true)
    → (cancels first ≡ false)
    → Sound call cancels (suc first) (suc first + left) t
    → Sound call cancels first (first + suc left) (waited delay t)
unfolding waited
Sound-again call cancels first left delay t e c (a, b, each, end) =
    let last : suc first + left ≡ first + suc left = omega arith in
    (omega arith, omega arith, each', rw last at end)
  where
    each' : (k : ℕ) → first ≤ k → suc k ≤ t.calls → (retryable (call k) && not (cancels k)) ≡ true
    each' k f h = elim (ℕ_discrete first k) [
      | yes q ↦ rw (sym q) (rw (e, c) refl)
      | no q ↦ each k (omega arith) h
    ]

retry_from-Sound {ℓ} :
    {A : Type ℓ} (call : ℕ → Attempt A) (cancels : ℕ → Bool) (pause : ℕ → ℕ) (left attempt : ℕ)
    → Sound call cancels attempt (attempt + left) (retry_from call cancels pause left attempt)
unfolding retry_from
retry_from-Sound call cancels pause zero attempt =
    (omega arith, omega arith, λ k a b. absurd (omega arith), inr (ground arith, refl))
retry_from-Sound call cancels pause (suc left) attempt =
    elim (Bool-cases (retryable (call attempt))) [
      | inr e ↦
          rw e
            (omega arith, omega arith, λ k a b. absurd (omega arith), inr (ground (arith, e), refl))
      | inl e ↦ elim (Bool-cases (cancels attempt)) [
        | inl c ↦
            rw (e, c)
              (
                omega arith,
                omega arith,
                λ k a b. absurd (omega arith),
                inl (ground (arith, e, c), refl),
              )
        | inr c ↦
            rw (e, c)
              (Sound-again call cancels attempt left (delay_for (call attempt) (pause attempt))
                (retry_from call cancels pause left (suc attempt)) e c
                (retry_from-Sound call cancels pause left (suc attempt)))
      ]
    ]

-- A request to the Messages API is made once to three times; every call but the last met an error to retry,
-- and the wait after it ran out; the outcome is the last call's, unless that is to be retried, is not the third,
-- and its wait was cut by the context.
pub complete-Sound {ℓ} :
    {A : Type ℓ} (call : ℕ → Attempt A) (cancels : ℕ → Bool)
    → Sound call cancels 1 3 (complete call cancels)
unfolding complete
complete-Sound call cancels = retry_from-Sound call cancels (λ n. n * (2 * second)) 2 1

pub with_retry-Sound {ℓ} :
    {A : Type ℓ} (call : ℕ → Attempt A) (cancels : ℕ → Bool) (pause : ℕ)
    → Sound call cancels 1 3 (with_retry call cancels pause)
unfolding with_retry
with_retry-Sound call cancels pause = retry_from-Sound call cancels (λ n. pause) 2 1

capped :
    (z : ℤ) (computed : ℕ)
    → (wait_of (min_ℤ z (pos minute)) computed ≤ minute)
      ⊎ (wait_of (min_ℤ z (pos minute)) computed ≡ computed)
unfolding wait_of
capped (negsuc n) computed = inr (ground arith)
capped (pos zero) computed = inr (ground arith)
capped (pos (suc n)) computed = elim (Bool-cases (leb (suc n) minute)) [
  | inl e ↦ inl (ground arith)
  | inr e ↦ inl (ground arith)
]

-- Whatever a Retry-After header says, the wait after a call that met an apiError with it is a minute
-- at most, or the client's own.
pub delay_for-bounded {ℓ} :
    (A : Type ℓ) (now : ℕ) (header : RetryAfter) (status computed : ℕ) (cause : Bool)
    → let e : ApiError = record {
      status_code = status;
      has_cause = cause;
      retry_after = parse_retry_after now header;
    } in
      (delay_for {A = A} (api_failed e) computed ≤ minute)
      ⊎ (delay_for {A = A} (api_failed e) computed ≡ computed)
unfolding parse_retry_after delay_for
delay_for-bounded A now absent status computed cause = capped (pos 0) computed
delay_for-bounded A now unreadable status computed cause = capped (pos 0) computed
delay_for-bounded A now (seconds (negsuc n)) status computed cause = capped (pos 0) computed
delay_for-bounded A now (seconds (pos n)) status computed cause = elim (Bool-cases (n == 0)) [
  | inl e ↦ rw e (capped (pos 0) computed)
  | inr e ↦ rw e (capped (to_int64 (n * second)) computed)
]
delay_for-bounded A now (date when) status computed cause = elim (Bool-cases (ltb now when)) [
  | inl e ↦ rw e (capped (pos (when - now)) computed)
  | inr e ↦ rw e (capped (pos 0) computed)
]
