-- ===== src/Toolloop/Spend.antt =====
-- internal/toolloop/loop.go: what a run spends.
use dispute_router.Common.{
  ℕ, suc, ◌+◌, ◌*◌, ◌≤◌, ◌≡◌, refl, subst, false, List, [], ◌∷◌, ◌++◌, arith, length, length-append,
}
use dispute_router.Common.Bytes.{Bytes}
use dispute_router.Llm.{Message, Usage, add_usage}
use dispute_router.Llm.Pricing.{cost, cost-add_usage, cost-no_usage}
use dispute_router.Llm.{Response}
use dispute_router.Toolloop.Ends.{Ends, use_tools-Ends, switch-Ends, round-Ends, run-Ends}
use dispute_router.Toolloop.{
  Budget, ToolCall, Turn, RunResult, Loop, World, Returned, tool_uses_in, finish, assistant_message,
  text_of, turn_of, end_run, is_spent, round, run, switch,
}

abbrev pub spent : List Turn → ℕ
spent [] = 0
spent (t ∷ ts) = t.cost_micros + spent ts

-- Each turn was bought while what had been spent was under the ceiling.
abbrev pub Afforded : Budget → ℕ → List Turn → Type 0
Afforded b sofar [] = Unit
Afforded b sofar (t ∷ ts) = (is_spent b sofar ≡ false) × Afforded b (sofar + t.cost_micros) ts

spent-append : (ts : List Turn) (t : Turn) → spent (ts ++ (t ∷ [])) ≡ spent ts + t.cost_micros
spent-append [] t = omega arith
spent-append (x ∷ ts) t = omega (arith, spent-append ts t)

Afforded-append :
    (b : Budget) (sofar : ℕ) (ts : List Turn) (t : Turn)
    → Afforded b sofar ts
    → is_spent b (sofar + spent ts) ≡ false
    → Afforded b sofar (ts ++ (t ∷ []))
Afforded-append b sofar [] t h e = (subst (λ (n : ℕ). is_spent b n ≡ false) (omega arith) e, tt)
Afforded-append b sofar (x ∷ ts) t (g, h) e = (
  g,
  Afforded-append b (sofar + x.cost_micros) ts t h
      (subst (λ (n : ℕ). is_spent b n ≡ false) (omega arith) e),
)

-- The books of a run with at most `n` turns.
pub record Ledger (l : Loop) (n : ℕ) (turns : List Turn) (usage : Usage) (micros : ℕ) : Type 0 where
  pub count : length turns ≤ n
  pub total : micros ≡ spent turns
  pub over : micros ≤ cost l.pricing usage
  pub under : cost l.pricing usage ≤ micros + 4 * length turns
  pub afforded : Afforded l.budget 0 turns

Ledger-append :
    (l : Loop) (n : ℕ) (turns : List Turn) (usage : Usage) (micros : ℕ) (entry : Turn)
    → Ledger l n turns usage micros
    → is_spent l.budget micros ≡ false
    → entry.cost_micros ≡ cost l.pricing entry.usage
    → Ledger l
        (suc n)
        (turns ++ (entry ∷ []))
        (add_usage usage entry.usage)
        (micros + entry.cost_micros)
Ledger-append l n turns usage micros entry h e p =
    let (lo, hi) = cost-add_usage l.pricing usage entry.usage in
    let more : length (turns ++ (entry ∷ [])) ≡ length turns + 1 =
      length-append {0} turns (entry ∷ []) in
    record {
      count = omega (arith, h.count);
      total = omega (arith, h.total, spent-append turns entry);
      over = omega (arith, h.over);
      under = omega (arith, h.under);
      afforded =
          Afforded-append l.budget 0 turns entry h.afforded
            (subst (λ (m : ℕ). is_spent l.budget m ≡ false) (omega (arith, h.total)) e);
    }

-- The books of what a run has come to.
abbrev pub Booked : Loop → ℕ → RunResult → Type 0
Booked l n r = Ledger l n r.turns r.usage r.cost_micros

Booked-mono : (l : Loop) (n m : ℕ) (r : RunResult) → n ≤ m → Booked l n r → Booked l m r
Booked-mono l n m r le h = record {
  count = omega (arith, h.count);
  total = h.total;
  over = h.over;
  under = h.under;
  afforded = h.afforded;
}

round-Booked :
    (l : Loop) (w : World) (system : Bytes) (turn n m : ℕ) (ms : List Message) (r : RunResult)
    → suc n ≤ m
    → Booked l n r
    → Ends
        (λ out. Booked l m out.result)
        (λ ms' r'. Booked l (suc n) r')
        (round l w system turn ms r)
unfolding end_run turn_of finish
round-Booked l w system turn n m ms r le h =
    round-Ends P Q l w system turn ms r (λ e. Booked-mono l n m r (omega arith) h)
      (Booked-mono l n m r (omega arith) h) λ response e. answered response e
  where
    P : Returned → Type 0
    P out = Booked l m out.result

    Q : List Message → RunResult → Type 0
    Q ms' r' = Booked l (suc n) r'

    answered :
        (response : Response)
        → is_spent l.budget r.cost_micros ≡ false
        → Ends P Q (
            switch l w turn
              (ms ++ (assistant_message response ∷ []))
              (record r { text = text_of response.blocks; stop_reason = response.stop_reason })
              response)
    answered response e =
        let heard = record r {
          text = text_of response.blocks;
          stop_reason = response.stop_reason;
        } in
        let sent = ms ++ (assistant_message response ∷ []) in
        let entry = turn_of l turn response in
        let booked = λ (calls : List ToolCall).
          Ledger-append l n r.turns r.usage r.cost_micros (record entry { tool_calls = calls }) h e
            refl in
        let ended = λ (calls : List ToolCall).
          Booked-mono l (suc n) m (finish r (record entry { tool_calls = calls })) le
            (booked calls) in
        switch-Ends P Q l w turn sent heard response
          (λ f.
            use_tools-Ends P Q l w turn sent heard entry (tool_uses_in response.blocks) (ended [])
              ended (λ bs calls same. booked calls))
          (λ halt f. ended [])

-- At every end of a run, errors included: there are at most MaxTurns turns, each bought while the cost of those before
-- it was under the ceiling, if there is one; the cost is the sum of theirs, no more than the price of
-- the whole usage and at most four micro-dollars a turn less.
pub run-Booked :
    (l : Loop) (w : World) (system prompt : Bytes)
    → Booked l l.budget.max_turns (run l w system prompt).result
run-Booked l w system prompt =
    run-Ends (λ out. Booked l l.budget.max_turns out.result) (λ n ms r. Booked l n r) l w system
      prompt (λ t ms r le q. round-Booked l w system t t l.budget.max_turns ms r le q) (λ ms r q. q)
      record {
        count = omega arith;
        total = refl;
        over = omega arith;
        under = omega (arith, cost-no_usage l.pricing);
        afforded = tt;
      }
