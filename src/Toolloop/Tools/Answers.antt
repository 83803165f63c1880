-- ===== src/Toolloop/Tools/Answers.antt =====
-- internal/toolloop/tools.go: what a tool call answers.
use mathlib.Core.List.{Memᴰ}
use dispute_router.Common.{
  ℕ, suc, ◌≡◌, ◌⊎◌, inl, inr, ◌≤◌, Bool, true, false, none, some, ltb, length, arith, Bool-cases,
  Option-cases, All, ◌≢◌, String, str_eq, eq_iff, List, [], ◌∷◌, refl, subst,
}
use dispute_router.Llm.{ToolUse}
use dispute_router.Toolloop.Tools.{
  not_refused, unknown_tool, result_too_large, ToolResult, wraps_invalid_arguments,
  wraps_invalid_input, wraps_not_found, other_error, Invoked, value, not_encodable, raised,
  Definition, Wording, Registry, max_result_bytes, by_name, rule_for, refuse, refused_by, settle,
  run_tool,
}

-- How an invocation is answered.
abbrev pub Settled : Wording → ToolUse → Invoked → ToolResult → Type 0
Settled w u not_encodable res = ⊥
Settled w u (raised e text) res =
    (res.is_error ≡ true) × (rule_for e ≡ some res.rule) × (res.content ≡ text)
Settled w u (value encoded) res =
    ((length encoded ≤ max_result_bytes)
      × (res
          ≡ record { tool_use_id = u.id; content = encoded; is_error = false; rule = not_refused }))
    ⊎ ((suc max_result_bytes ≤ length encoded)
        × (res.is_error ≡ true)
        × (res.rule ≡ result_too_large))

-- The answer is what an entry of the catalog brought, whole and of the length allowed, or it is marked as an
-- error under the rule that fits what happened.
abbrev pub Fits : Registry → ℕ → ToolUse → ToolResult → Type 0
Fits r turn u res =
    (res.tool_use_id ≡ u.id)
    × ((All (λ d. d.tool.name ≢ u.name) r.catalog
          × (res.is_error ≡ true)
          × (res.rule ≡ unknown_tool))
        ⊎ ((def : Definition) × Memᴰ def r.catalog
            × (def.tool.name ≡ u.name)
            × Settled r.wording u (def.invoke turn u.input) res))

-- The map has an entry for a name exactly when the catalog has one with it.
by_name-none :
    (name : String) (ds : List Definition)
    → by_name name ds ≡ none
    → All (λ d. d.tool.name ≢ name) ds
unfolding by_name
by_name-none name [] h = tt
by_name-none name (d ∷ ds) h = elim (Option-cases (by_name name ds)) [
  | inr (e, k) ↦ absurd (ground (arith, k))
  | inl k ↦ elim (Bool-cases (str_eq d.tool.name name)) [
    | inl q ↦ absurd (ground (arith, k, q))
    | inr q ↦
        ((λ same. ground (arith, q, (eq_iff d.tool.name name).1 same)), by_name-none name ds k)
  ]
]

by_name-some :
    (name : String) (ds : List Definition) (def : Definition)
    → by_name name ds ≡ some def
    → Memᴰ def ds × (def.tool.name ≡ name)
unfolding by_name
by_name-some name [] def h = absurd (ground arith)
by_name-some name (d ∷ ds) def h = elim (Option-cases (by_name name ds)) [
  | inr (e, k) ↦ let (m, same) = by_name-some name ds def (ground (arith, k)) in (Memᴰ.tail m, same)
  | inl k ↦ elim (Bool-cases (str_eq d.tool.name name)) [
    | inr q ↦ absurd (ground (arith, k, q))
    | inl q ↦
        let same : d ≡ def = ground (arith, k, q) in
        subst (λ x. Memᴰ x (d ∷ ds) × (x.tool.name ≡ name)) same
          (Memᴰ.head refl, (eq_iff d.tool.name name).0 q)
  ]
]

settle-Settled :
    (w : Wording) (cancelled : Bool) (u : ToolUse) (inv : Invoked) (res : ToolResult)
    → settle w cancelled u inv ≡ some res
    → (res.tool_use_id ≡ u.id) × Settled w u inv res
unfolding settle refused_by rule_for refuse
settle-Settled w cancelled u not_encodable res h = ground arith
settle-Settled w true u (raised e text) res h = ground arith
settle-Settled w false u (raised wraps_invalid_arguments text) res h = ground arith
settle-Settled w false u (raised wraps_invalid_input text) res h = ground arith
settle-Settled w false u (raised wraps_not_found text) res h = ground arith
settle-Settled w false u (raised other_error text) res h = ground arith
settle-Settled w cancelled u (value encoded) res h =
    elim (Bool-cases (ltb max_result_bytes (length encoded))) [
      | inl e ↦ (ground arith, inr (ground arith, ground arith, ground arith))
      | inr e ↦ (ground arith, inl (ground arith, ground arith))
    ]

-- A tool call that does not end the run answers the id that it was asked under. Either no entry of the catalog has the
-- name that it asks for, and it is refused as unknown, or an entry of that name is invoked: the answer is
-- then the JSON of the value, whole and within the limit, or a refusal by the rule for the error, or for a value
-- over the limit.
pub run_tool-Fits :
    (r : Registry) (cancelled : Bool) (turn : ℕ) (u : ToolUse) (res : ToolResult)
    → run_tool r cancelled turn u ≡ some res
    → Fits r turn u res
unfolding run_tool refuse
run_tool-Fits r cancelled turn u res h = elim (Option-cases (by_name u.name r.catalog)) [
  | inl e ↦ (
    ground (arith, e),
    inl (by_name-none u.name r.catalog e, ground (arith, e), ground (arith, e)),
  )
  | inr (def, e) ↦
      let (id, s) =
        settle-Settled r.wording cancelled u (def.invoke turn u.input) res
          (rw (e, run_tool) at h) in
      let (m, same) = by_name-some u.name r.catalog def e in (id, inr (def, m, same, s))
]
