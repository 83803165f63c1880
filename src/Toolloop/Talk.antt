-- ===== src/Toolloop/Talk.antt =====
-- internal/toolloop/loop.go: the conversation that each request carries.
use dispute_router.Common.{ℕ, suc, ◌≡◌, refl, sym, List, [], ◌∷◌, ◌++◌, append_assoc, subst}
use dispute_router.Common.Bytes.{Bytes}
use dispute_router.Llm.{Message, Response}
use dispute_router.Toolloop.Ends.{
  Ends, use_tools-Ends, switch-Ends, round-Ends, answered_ids, use_ids,
}
use dispute_router.Toolloop.{
  Loop, World, RunResult, Returned, go, tool_uses_in, assistant_message, user_message, text_of,
  turn_of, end_run, round, switch, first_messages, first_result,
}

-- What the model said and what was answered, by turns: every tool call is answered once, in order, under its
-- own id.
abbrev pub Exchanges : List Message → Type 0
Exchanges [] = Unit
Exchanges (said ∷ []) = ⊥
Exchanges (said ∷ (back ∷ rest)) =
    (said.role ≡ "assistant")
    × (back.role ≡ "user")
    × (answered_ids back.blocks ≡ use_ids (tool_uses_in said.blocks))
    × Exchanges rest

-- The prompt, and exchanges.
abbrev pub Conversation : Bytes → List Message → Type 0
Conversation prompt [] = ⊥
Conversation prompt (m ∷ rest) = (m ∷ [] ≡ first_messages prompt) × Exchanges rest

Exchanges-append :
    (ms : List Message) (said back : Message)
    → said.role ≡ "assistant"
    → back.role ≡ "user"
    → answered_ids back.blocks ≡ use_ids (tool_uses_in said.blocks)
    → Exchanges ms
    → Exchanges (ms ++ (said ∷ (back ∷ [])))
Exchanges-append [] said back a b same h = (a, b, same, tt)
Exchanges-append (m ∷ []) said back a b same h = absurd h
Exchanges-append (m ∷ (n ∷ rest)) said back a b same (p, q, s, h) =
    (p, q, s, Exchanges-append rest said back a b same h)

Conversation-append :
    (prompt : Bytes) (ms : List Message) (said back : Message)
    → said.role ≡ "assistant"
    → back.role ≡ "user"
    → answered_ids back.blocks ≡ use_ids (tool_uses_in said.blocks)
    → Conversation prompt ms
    → Conversation prompt (ms ++ (said ∷ (back ∷ [])))
Conversation-append prompt [] said back a b same h = absurd h
Conversation-append prompt (m ∷ ms) said back a b same (p, h) =
    (p, Exchanges-append ms said back a b same h)

round-Conversation :
    (l : Loop) (w : World) (system prompt : Bytes) (turn : ℕ) (ms : List Message) (r : RunResult)
    → Conversation prompt ms
    → Ends (λ out. Unit {0}) (λ ms' r'. Conversation prompt ms') (round l w system turn ms r)
unfolding end_run
round-Conversation l w system prompt turn ms r h =
    round-Ends P Q l w system turn ms r (λ x. tt) tt λ response spent. answered response
  where
    P : Returned → Type 0
    P out = Unit {0}

    Q : List Message → RunResult → Type 0
    Q ms' r' = Conversation prompt ms'

    answered :
        (response : Response)
        → Ends P Q (
            switch l w turn
              (ms ++ (assistant_message response ∷ []))
              (record r { text = text_of response.blocks; stop_reason = response.stop_reason })
              response)
    answered response =
        let heard = record r {
          text = text_of response.blocks;
          stop_reason = response.stop_reason;
        } in
        let said = assistant_message response in
        let sent = ms ++ (said ∷ []) in
        switch-Ends P Q l w turn sent heard response
          (λ f.
            use_tools-Ends P Q l w turn sent heard (turn_of l turn response)
              (tool_uses_in response.blocks) tt (λ calls. tt)
              (λ bs calls same.
                subst (Conversation prompt)
                  (sym (append_assoc ms (said ∷ []) (user_message bs ∷ [])))
                  (Conversation-append prompt ms said (user_message bs) refl refl same h)))
          (λ halt f. tt)

-- The states that the rounds of a run meet.
pub data Reaches (l : Loop) (w : World) (system prompt : Bytes)
    : ℕ → List Message → RunResult → Type 0 where
  start : Reaches l w system prompt 0 (first_messages prompt) first_result
  next :
      {turn : ℕ} {ms ms' : List Message} {r r' : RunResult}
      → Reaches l w system prompt turn ms r
      → round l w system turn ms r ≡ go ms' r'
      → Reaches l w system prompt (suc turn) ms' r'

-- Whatever the model answers: the messages that a round of a run sends are the prompt and then exchanges, in each of which
-- every tool call of the model is answered once, in order, under its own id.
pub Reaches-Conversation :
    {l : Loop} {w : World} {system prompt : Bytes} {turn : ℕ} {ms : List Message} {r : RunResult}
    → Reaches l w system prompt turn ms r
    → Conversation prompt ms
unfolding first_messages
Reaches-Conversation start = (refl, tt)
Reaches-Conversation {l} {w} {system} {prompt} (next {turn} {ms} {ms'} {r} {r'} before e) =
    subst (Ends (λ out. Unit {0}) (λ ms' r'. Conversation prompt ms')) e
      (round-Conversation l w system prompt turn ms r (Reaches-Conversation before))
