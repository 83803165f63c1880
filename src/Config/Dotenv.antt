-- ===== src/Config/Dotenv.antt =====
-- internal/config/config.go: readDotEnv. A file is the list of its lines; a file that is not there has none.
pub mod First
use dispute_router.Common.{
  ℕ, Bool, true, false, not, ◌&&◌, ◌||◌, List, [], ◌∷◌, ◌++◌, Option, none, some, ◌==◌,
  if◌then◌else◌,
}
use dispute_router.Common.Bytes.{Bytes, bytes_eq}
use dispute_router.Common.Text.{cut, trim_space}
use dispute_router.Api.Evidence.{trim_start, trim_end}

abbrev is_quote : ℕ → Bool
is_quote c = c == b'"' || c == 39

-- strings.Trim of both quotes.
unquoted : Bytes → Bytes
unquoted v = trim_end is_quote (trim_start is_quote v)

pair_of : Option (Bytes × Bytes) → Option (Bytes × Bytes)
unfolding unquoted
pair_of none = none
pair_of (some (key, v)) = some (trim_space key, unquoted (trim_space v))

trimmed_line : Bytes → Option (Bytes × Bytes)
unfolding pair_of
trimmed_line [] = none
trimmed_line (c ∷ line) =
    let pair = pair_of (cut b'=' (c ∷ line)) in if c == b'#' then none else pair

-- One line: a key and its value, unless it is empty, a comment, or has no "=".
unfoldable pub read_line : Bytes → Option (Bytes × Bytes)
unfolding trimmed_line
read_line line = trimmed_line (trim_space line)

unfoldable pub value_of : Bytes → List (Bytes × Bytes) → Option Bytes
value_of key [] = none
value_of key ((k, v) ∷ pairs) =
    let rest = value_of key pairs in if bytes_eq k key then some v else rest

abbrev is_none : Option Bytes → Bool
is_none none = true
is_none (some v) = false

-- `values[key] = v`, if the key is not seen.
unfoldable pub keep_first : Option (Bytes × Bytes) → List (Bytes × Bytes) → List (Bytes × Bytes)
unfolding value_of
keep_first none values = values
keep_first (some (key, v)) values =
    if is_none (value_of key values) then values ++ ((key, v) ∷ []) else values

-- The loop over the lines.
unfoldable pub read_lines : List Bytes → List (Bytes × Bytes) → List (Bytes × Bytes)
unfolding keep_first read_line
read_lines [] values = values
read_lines (line ∷ lines) values = read_lines lines (keep_first (read_line line) values)

-- `readDotEnv`.
unfoldable pub read_dotenv : List Bytes → List (Bytes × Bytes)
unfolding read_lines
read_dotenv lines = read_lines lines []
