-- ===== src/Config/Dotenv/First.antt =====
-- internal/config/config.go: which line of .env a value comes from.
use dispute_router.Common.{
  ◌≡◌, refl, sym, ap, subst, ◌∙◌, inl, inr, List, [], ◌∷◌, ◌++◌, Option, none, some, arith,
  if◌then◌else◌, Bool-cases, Option-cases,
}
use dispute_router.Common.Bytes.{Bytes, bytes_eq, eq-of-bytes_eq}
use dispute_router.Config.Dotenv.{read_line, value_of, keep_first, read_lines, read_dotenv}

-- The value of the first line that gives the key.
unfoldable pub first_value : Bytes → List Bytes → Option Bytes
unfolding read_line
first_value key [] = none
first_value key (line ∷ lines) =
    let rest = first_value key lines in
    elim (read_line line) [ none ↦ rest | some (k, v) ↦ if bytes_eq k key then some v else rest ]

abbrev or_else : Option Bytes → Option Bytes → Option Bytes
or_else (some v) other = some v
or_else none other = other

or_none : (a : Option Bytes) → or_else a none ≡ a
or_none none = refl
or_none (some v) = refl

value_of-append :
    (key k v : Bytes) (values : List (Bytes × Bytes))
    → value_of key (values ++ ((k, v) ∷ []))
      ≡ or_else (value_of key values) (if bytes_eq k key then some v else none)
unfolding value_of
value_of-append key k v [] = refl
value_of-append key k v ((a, b) ∷ values) = ground (arith, value_of-append key k v values)

abbrev given : Bytes → Option (Bytes × Bytes) → Option Bytes
given key none = none
given key (some (k, v)) = if bytes_eq k key then some v else none

value_of-keep_first :
    (key : Bytes) (o : Option (Bytes × Bytes)) (values : List (Bytes × Bytes))
    → value_of key (keep_first o values) ≡ or_else (value_of key values) (given key o)
unfolding keep_first
value_of-keep_first key none values = sym (or_none (value_of key values))
value_of-keep_first key (some (k, v)) values = elim (Option-cases (value_of k values)) [
  | inl e ↦ rw e (value_of-append key k v values)
  | inr (w, e) ↦ rw e (elim (Bool-cases (bytes_eq k key)) [
    | inr f ↦ rw f (sym (or_none (value_of key values)))
    | inl f ↦ rw f (seen w (subst (λ x. value_of x values ≡ some w) (eq-of-bytes_eq k key f) e))
  ])
]
  where
    seen :
        (w : Bytes)
        → value_of key values ≡ some w
        → value_of key values ≡ or_else (value_of key values) (some v)
    seen w g = rw g refl

or_else_assoc : (a b c : Option Bytes) → or_else (or_else a b) c ≡ or_else a (or_else b c)
or_else_assoc none b c = refl
or_else_assoc (some v) b c = refl

first-given :
    (key line : Bytes) (lines : List Bytes)
    → first_value key (line ∷ lines) ≡ or_else (given key (read_line line)) (first_value key lines)
unfolding first_value
first-given key line lines = by_line (read_line line)
  where
    by_line :
        (o : Option (Bytes × Bytes))
        → elim o [
          | none ↦ first_value key lines
          | some (k, v) ↦ if bytes_eq k key then some v else first_value key lines
        ]
          ≡ or_else (given key o) (first_value key lines)
    by_line none = refl
    by_line (some (k, v)) = ground arith

read_lines-first :
    (key : Bytes) (lines : List Bytes) (values : List (Bytes × Bytes))
    → value_of key (read_lines lines values) ≡ or_else (value_of key values) (first_value key lines)
unfolding read_lines first_value
read_lines-first key [] values = sym (or_none (value_of key values))
read_lines-first key (line ∷ lines) values =
    read_lines-first key lines (keep_first (read_line line) values)
    ∙ ap (λ o. or_else o (first_value key lines)) (value_of-keep_first key (read_line line) values)
    ∙ or_else_assoc (value_of key values) (given key (read_line line)) (first_value key lines)
    ∙ ap (or_else (value_of key values)) (sym (first-given key line lines))

-- A variable's value in a .env file is that of the first line that gives the key: lines after it change nothing.
pub read_dotenv-first :
    (key : Bytes) (lines : List Bytes) → value_of key (read_dotenv lines) ≡ first_value key lines
unfolding read_dotenv value_of
read_dotenv-first key lines = read_lines-first key lines []
