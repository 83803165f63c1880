-- ===== src/Toolloop/Ends.antt =====
-- internal/toolloop/loop.go: rules for what holds when a round stops the run, when it goes on, and when the run
-- returns.
use dispute_router.Common.{
  ℕ, zero, suc, ◌+◌, ◌≤◌, ◌≡◌, inl, inr, refl, sym, subst, String, str_eq, Bool, true, false, ◌||◌,
  List, [], ◌∷◌, ◌++◌, Option, none, some, arith, Bool-cases,
}
use dispute_router.Common.Bytes.{Bytes}
use dispute_router.Llm.{ContentBlock, Message, Response, ToolUse}
use dispute_router.Toolloop.Tools.{ToolResult, Registry, run_tool}
use dispute_router.Toolloop.Tools.Answers.{run_tool-Fits}
use dispute_router.Toolloop.{
  Halt, completed, budget_exceeded, output_truncated, unexpected_stop_reason, done, ToolCall, Turn,
  RunResult, Loop, World, LoopError, cancelled, turn_failed, tool_failed, Returned, tool_uses_in,
  text_of, result_block, tool_call, slot_of, fill_slots, completed_calls, both_slots, all_slots,
  finish, Next, stop, go, request_of, turn_of, assistant_message, user_message, after_tools,
  use_tools, end_run, switch, heard, is_spent, round, run_from, first_messages, first_result, run,
}

-- `P` of what is returned, or `Q` of the state that the next round meets.
abbrev pub Ends : (Returned → Type 0) → (List Message → RunResult → Type 0) → Next → Type 0
Ends P Q (stop out) = P out
Ends P Q (go messages r) = Q messages r

-- The stop reasons by which a model ends its own turn.
abbrev pub is_end : String → Bool
is_end reason = str_eq reason "end_turn" || str_eq reason "stop_sequence"

-- The ids that blocks answer, and the ids of the uses.
abbrev pub answered_ids : List ContentBlock → List String
answered_ids [] = []
answered_ids (b ∷ bs) = b.tool_use_id ∷ answered_ids bs

abbrev pub use_ids : List ToolUse → List String
use_ids [] = []
use_ids (u ∷ uses) = u.id ∷ use_ids uses

both_slots-ids :
    (ids : List String) (b : ContentBlock) (c : ToolCall)
    (o : Option (List ContentBlock × List ToolCall)) (bs : List ContentBlock) (cs : List ToolCall)
    → ((bs' : List ContentBlock) (cs' : List ToolCall)
        → o ≡ some (bs', cs')
        → answered_ids bs' ≡ ids)
    → both_slots b c o ≡ some (bs, cs)
    → answered_ids bs ≡ b.tool_use_id ∷ ids
unfolding both_slots
both_slots-ids ids b c none bs cs ih h = ground arith
both_slots-ids ids b c (some (bs', cs')) bs cs ih h =
    let e : b ∷ bs' ≡ bs = ground arith in
    subst (λ l. answered_ids l ≡ b.tool_use_id ∷ ids) e (rw (ih bs' cs' refl) refl)

slots-ids :
    (r : Registry) (flags : ℕ → Bool) (turn i : ℕ) (uses : List ToolUse) (bs : List ContentBlock)
    (cs : List ToolCall)
    → all_slots (fill_slots r flags turn i uses) ≡ some (bs, cs)
    → answered_ids bs ≡ use_ids uses
unfolding fill_slots all_slots slot_of result_block
slots-ids r flags turn i [] bs cs h = let e : [] ≡ bs = ground arith in rw (sym e) refl
slots-ids r flags turn i (u ∷ uses) bs cs h =
    slot (slots-ids r flags turn (suc i) uses) (run_tool r (flags i) turn u) refl h
  where
    slot :
        ((bs' : List ContentBlock) (cs' : List ToolCall)
          → all_slots (fill_slots r flags turn (suc i) uses) ≡ some (bs', cs')
          → answered_ids bs' ≡ use_ids uses)
        → (o : Option ToolResult) → run_tool r (flags i) turn u ≡ o
        → all_slots (slot_of u o ∷ fill_slots r flags turn (suc i) uses) ≡ some (bs, cs)
        → answered_ids bs ≡ u.id ∷ use_ids uses
    slot tail none e g = ground arith
    slot tail (some res) e g =
        let (same, rest) = run_tool-Fits r (flags i) turn u res e in
        subst (λ x. answered_ids bs ≡ x ∷ use_ids uses) same
          (both_slots-ids (use_ids uses) (result_block res) (tool_call u res)
            (all_slots (fill_slots r flags turn (suc i) uses)) bs cs tail g)

-- Rules: what is to be shown of a part for `P` and `Q` to hold at its end.
module _ (P : Returned → Type 0) (Q : List Message → RunResult → Type 0) where
  pub use_tools-Ends :
      (l : Loop) (w : World) (turn : ℕ) (messages : List Message) (r : RunResult) (entry : Turn)
      (uses : List ToolUse)
      → P (record {
        result =
            finish
              (record r {
                halt = unexpected_stop_reason;
                stop_reason = "tool_use_without_tool_use_block";
              })
              entry;
        error = none;
      })
      → ((calls : List ToolCall)
          → P (record {
            result = finish r (record entry { tool_calls = calls });
            error = some tool_failed;
          }))
      → ((blocks : List ContentBlock) (calls : List ToolCall)
          → answered_ids blocks ≡ use_ids uses
          → Q
              (messages ++ (user_message blocks ∷ []))
              (finish r (record entry { tool_calls = calls })))
      → Ends P Q (use_tools l w turn messages r entry uses)
  unfolding use_tools after_tools
  use_tools-Ends l w turn messages r entry [] none_sent failed more = none_sent
  use_tools-Ends l w turn messages r entry (u ∷ uses) none_sent failed more =
      tools (all_slots slots) refl
    where
      slots : List (Option (ContentBlock × ToolCall))
      slots = fill_slots l.registry (w.is_call_cancelled turn) turn 0 (u ∷ uses)

      tools :
          (o : Option (List ContentBlock × List ToolCall))
          → all_slots slots ≡ o
          → Ends P Q (after_tools messages r entry slots o)
      tools none e = failed (completed_calls slots)
      tools (some (bs, cs)) e =
          more bs cs (slots-ids l.registry (w.is_call_cancelled turn) turn 0 (u ∷ uses) bs cs e)

  pub switch-Ends :
      (l : Loop) (w : World) (turn : ℕ) (messages : List Message) (r : RunResult)
      (response : Response)
      → (str_eq response.stop_reason "tool_use" ≡ true
          → Ends P Q (
              use_tools l w turn messages r
                (turn_of l turn response)
                (tool_uses_in response.blocks)))
      → ((h : Halt)
          → done h ≡ is_end response.stop_reason
          → Ends P Q (end_run messages r (turn_of l turn response) h))
      → Ends P Q (switch l w turn messages r response)
  unfolding switch done
  switch-Ends l w turn messages r response tools ended =
      elim (Bool-cases (str_eq response.stop_reason "tool_use")) [
        | inl e ↦ rw e (tools e)
        | inr e ↦ rw e (elim (Bool-cases (is_end response.stop_reason)) [
          | inl f ↦ rw f (ended completed (rw f refl))
          | inr f ↦ rw f (elim (Bool-cases (str_eq response.stop_reason "max_tokens")) [
            | inl g ↦ rw g (ended output_truncated (rw f refl))
            | inr g ↦ rw g (ended unexpected_stop_reason (rw f refl))
          ])
        ])
      ]

  pub round-Ends :
      (l : Loop) (w : World) (system : Bytes) (turn : ℕ) (messages : List Message) (r : RunResult)
      → ((e : LoopError) → P (record { result = r; error = some e }))
      → P (record { result = record r { halt = budget_exceeded }; error = none })
      → ((response : Response)
          → is_spent l.budget r.cost_micros ≡ false
          → Ends P Q (
              switch l w turn
                (messages ++ (assistant_message response ∷ []))
                (record r { text = text_of response.blocks; stop_reason = response.stop_reason })
                response))
      → Ends P Q (round l w system turn messages r)
  unfolding round heard
  round-Ends l w system turn messages r failed spent heard_ =
      elim (Bool-cases (w.is_cancelled turn)) [
        | inl e ↦ rw e (failed cancelled)
        | inr e ↦ rw e (elim (Bool-cases (is_spent l.budget r.cost_micros)) [
          | inl f ↦ rw f spent
          | inr f ↦ rw f (answer f (w.complete turn (request_of l system messages)))
        ])
      ]
    where
      answer :
          is_spent l.budget r.cost_micros ≡ false
          → (o : Option Response) → Ends P Q (heard l w turn messages r o)
      answer f none = failed (turn_failed turn)
      answer f (some response) = heard_ response f

-- A run keeps what its rounds keep: `Q` at the start of each, and `P` of what is returned.
run_from-Ends :
    (P : Returned → Type 0) (Q : ℕ → List Message → RunResult → Type 0) (l : Loop) (w : World)
    (system : Bytes) (left turn : ℕ) (messages : List Message) (r : RunResult)
    → ((t : ℕ) (ms : List Message) (s : RunResult)
        → suc t ≤ left + turn
        → Q t ms s
        → Ends P (Q (suc t)) (round l w system t ms s))
    → ((ms : List Message) (s : RunResult)
        → Q (left + turn) ms s
        → P (record { result = record s { messages = ms }; error = none }))
    → Q turn messages r
    → P (run_from l w system left turn messages r)
unfolding run_from
run_from-Ends P Q l w system zero turn messages r each last q =
    last messages r (subst (λ (n : ℕ). Q n messages r) (omega arith) q)
run_from-Ends P Q l w system (suc left) turn messages r each last q =
    onward (round l w system turn messages r) refl (each turn messages r (omega arith) q)
      λ ms s. run_from-Ends P Q l w system left (suc turn) ms s each' last'
  where
    same : left + suc turn ≡ suc left + turn
    same = omega arith

    each' :
        (t : ℕ) (ms : List Message) (s : RunResult)
        → suc t ≤ left + suc turn
        → Q t ms s
        → Ends P (Q (suc t)) (round l w system t ms s)
    each' t ms s h = each t ms s (omega (arith, h))

    last' :
        (ms : List Message) (s : RunResult)
        → Q (left + suc turn) ms s
        → P (record { result = record s { messages = ms }; error = none })
    last' ms s h = last ms s (subst (λ (n : ℕ). Q n ms s) same h)

    onward :
        (n : Next)
        → round l w system turn messages r ≡ n
        → Ends P (Q (suc turn)) n
        → ((ms : List Message) (s : RunResult)
            → Q (suc turn) ms s
            → P (run_from l w system left (suc turn) ms s))
        → P (elim n [ stop out ↦ out | go ms s ↦ run_from l w system left (suc turn) ms s ])
    onward (stop out) e h more = h
    onward (go ms s) e h more = more ms s h

pub run-Ends :
    (P : Returned → Type 0) (Q : ℕ → List Message → RunResult → Type 0) (l : Loop) (w : World)
    (system prompt : Bytes)
    → ((t : ℕ) (ms : List Message) (s : RunResult)
        → suc t ≤ l.budget.max_turns
        → Q t ms s
        → Ends P (Q (suc t)) (round l w system t ms s))
    → ((ms : List Message) (s : RunResult)
        → Q l.budget.max_turns ms s
        → P (record { result = record s { messages = ms }; error = none }))
    → Q 0 (first_messages prompt) first_result
    → P (run l w system prompt)
unfolding run
run-Ends P Q l w system prompt each last q =
    run_from-Ends P Q l w system l.budget.max_turns 0 (first_messages prompt) first_result
      (λ t ms s h. each t ms s (omega arith))
      (λ ms s h. last ms s (subst (λ (n : ℕ). Q n ms s) (omega arith) h)) q
