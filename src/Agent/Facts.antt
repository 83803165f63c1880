-- ===== src/Agent/Facts.antt =====
-- internal/agent/facts.go: text that did not come from the system, as a prompt quotes it. A text is the list of
-- its code points, which the code walks as UTF-8.
pub mod Fence
use dispute_router.Common.{
  ℕ, zero, suc, ◌+◌, ◌-◌, Bool, true, false, ◌&&◌, List, [], ◌∷◌, ◌++◌, ◌==◌, Option, none, some,
  ltb, length, take, if◌then◌else◌,
}
use dispute_router.Common.Bytes.{Bytes, codes}
use dispute_router.Common.Text.{starts_with}

-- strings.ReplaceAll of a text that is not empty; `skip` counts what is left of the one found last.
unfoldable pub replace_from : Bytes → Bytes → ℕ → Bytes → Bytes
replace_from old new skip [] = []
replace_from old new (suc skip) (c ∷ t) = replace_from old new skip t
replace_from old new zero (c ∷ t) =
    let found = new ++ replace_from old new (length old - 1) t in
    let passed = c ∷ replace_from old new zero t in
    if starts_with old (c ∷ t) then found else passed

unfoldable pub replace_all : Bytes → Bytes → Bytes → Bytes
unfolding replace_from
replace_all old new t = replace_from old new 0 t

abbrev pub removed_mark : Bytes
removed_mark = codes "[marker removed]"

-- U+2026.
abbrev pub ellipsis : ℕ
ellipsis = 8230

abbrev pub opening : Bytes → Bytes
opening label = codes "<<<" ++ label

abbrev pub closing : Bytes → Bytes
closing label = label ++ codes ">>>"

-- The cut of `fence`; zero is no limit.
unfoldable pub cut : ℕ → Bytes → Bytes
cut max_runes clean =
    if ltb 0 max_runes && ltb max_runes (length clean)
    then take max_runes clean ++ (ellipsis ∷ [])
    else clean

-- `fence`.
unfoldable pub fence : Bytes → Bytes → ℕ → Bytes
unfolding cut replace_all
fence label text max_runes =
    opening label
    ++ (b'\n'
        ∷ (cut max_runes (replace_all (closing label) removed_mark text)
            ++ (b'\n' ∷ (closing label ++ (b'\n' ∷ [])))))

-- `claimLabel`.
abbrev pub claim_label : Bytes
claim_label = codes "CARDHOLDER_CLAIM"

-- `quarantine`.
unfoldable pub quarantine : Bytes → ℕ → Bytes
unfolding fence
quarantine text max_runes = fence claim_label text max_runes

-- The text up to its first colon, of the actor of an event.
unfoldable pub before_colon : Bytes → Bytes
before_colon [] = []
before_colon (c ∷ actor) = let rest = before_colon actor in if c == b':' then [] else c ∷ rest
