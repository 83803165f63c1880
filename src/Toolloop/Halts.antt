-- ===== src/Toolloop/Halts.antt =====
-- internal/toolloop/loop.go: when a run counts as finished.
use dispute_router.Common.{
  ℕ, ◌≡◌, refl, String, str_eq, true, false, List, [], ◌∷◌, ◌++◌, none, arith, eq_iff,
}
use dispute_router.Common.Bytes.{Bytes}
use dispute_router.Llm.{Message, Response}
use dispute_router.Toolloop.Ends.{Ends, is_end, use_tools-Ends, switch-Ends, round-Ends, run-Ends}
use dispute_router.Toolloop.{
  turn_ceiling, done, Loop, World, RunResult, Returned, tool_uses_in, finish, assistant_message,
  text_of, turn_of, end_run, round, run, switch,
}

-- Not finished, before and after a round that goes on.
abbrev Underway : RunResult → Type 0
Underway r = (r.halt ≡ turn_ceiling) × (is_end r.stop_reason ≡ false)

-- What is returned is finished exactly when the model ended its turn, and then without an error.
abbrev pub Settles : Returned → Type 0
Settles out =
    (done out.result.halt ≡ is_end out.result.stop_reason)
    × (done out.result.halt ≡ true → out.error ≡ none)

tool_use-is_end : (s : String) → str_eq s "tool_use" ≡ true → is_end s ≡ false
tool_use-is_end s h = let e : s ≡ "tool_use" = (eq_iff s "tool_use").0 h in rw e refl

round-Settles :
    (l : Loop) (w : World) (system : Bytes) (turn : ℕ) (ms : List Message) (r : RunResult)
    → Underway r
    → Ends Settles (λ ms' r'. Underway r') (round l w system turn ms r)
unfolding end_run finish done
round-Settles l w system turn ms r (h, e) =
    round-Ends Settles (λ ms' r'. Underway r') l w system turn ms r (λ x. ground (arith, h, e))
      (ground (arith, e)) λ response spent. answered response
  where
    answered :
        (response : Response)
        → Ends Settles
            (λ ms' r'. Underway r')
            (switch l w turn
              (ms ++ (assistant_message response ∷ []))
              (record r { text = text_of response.blocks; stop_reason = response.stop_reason })
              response)
    answered response =
        let heard = record r {
          text = text_of response.blocks;
          stop_reason = response.stop_reason;
        } in
        let sent = ms ++ (assistant_message response ∷ []) in
        switch-Ends Settles (λ ms' r'. Underway r') l w turn sent heard response
          (λ f.
            use_tools-Ends Settles (λ ms' r'. Underway r') l w turn sent heard
              (turn_of l turn response) (tool_uses_in response.blocks) (refl, λ g. refl)
              (λ calls. ground (arith, h, tool_use-is_end response.stop_reason f))
              (λ bs calls same. (h, tool_use-is_end response.stop_reason f)))
          (λ halt f. (f, λ g. refl))

-- A run counts as completed exactly when the last response that it heard ended by "end_turn" or
-- "stop_sequence", and it then returns no error.
pub run-Settles : (l : Loop) (w : World) (system prompt : Bytes) → Settles (run l w system prompt)
unfolding done
run-Settles l w system prompt =
    run-Ends Settles (λ n ms r. Underway r) l w system prompt
      (λ t ms r le q. round-Settles l w system t ms r q) (λ ms r (h, e). ground (arith, h, e))
      (refl, refl)
