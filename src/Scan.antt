-- ===== src/Scan.antt =====
-- The scanners of Python text in internal/analysis: path.go, infer.go, diagnostic.go, definition.go.
-- An index loop is a recursion on the bytes from the index on; `index += 2` skips the next two.
pub mod Equals
pub mod Calls
pub mod Arguments
pub mod Literals
pub mod Names
mod Samples
use pogo.Prelude.{
  ℕ, zero, suc, ◌+◌, ◌-◌, Bool, true, false, not, ◌&&◌, ◌||◌, List, [], ◌∷◌, Option, none, some,
  ltb, leb, ◌==◌, if◌then◌else◌, length, take, drop, slice, Bytes,
}
use pogo.Text.{is_space, trim_space, identifier_text}
use pogo.Position.{byte_at}
use pogo.Store.{ByteRange}

abbrev pub is_quote : ℕ → Bool
is_quote value = value == 39 || value == 34

abbrev pub is_opening : ℕ → Bool
is_opening value = value == 40 || value == 91 || value == 123

abbrev pub is_closing : ℕ → Bool
is_closing value = value == 41 || value == 93 || value == 125

-- `depth++` at an opening bracket, `if depth > 0 { depth-- }` at a closing one
abbrev pub next_depth : ℕ → ℕ → ℕ
next_depth value depth =
    if is_opening value then depth + 1 else if is_closing value then depth - 1 else depth

abbrev pub equals_sign : ℕ
equals_sign = 61

abbrev pub comma : ℕ
comma = 44

-- `quote` and `escaped` behind a byte in a string, where a quote of 0 is none.
abbrev pub quoted_step : ℕ → ℕ → Bool → ℕ × Bool
quoted_step value quote escaped =
    if escaped
    then (quote, false)
    else if value == 92
    then (quote, true)
    else if value == quote
    then (0, false)
    else (quote, false)

-- The loop of topLevelEquals, where `none` is -1.
pub equals_loop : Bytes → ℕ → ℕ → ℕ → Bool → Option ℕ
equals_loop [] index depth quote escaped = none
equals_loop (value ∷ rest) index depth quote escaped =
    let (q, e) = quoted_step value quote escaped in
    let in_string = equals_loop rest (index + 1) depth q e in
    let opened = equals_loop rest (index + 1) depth value escaped in
    let onward = equals_loop rest (index + 1) (next_depth value depth) quote escaped in
    if not (quote == 0)
    then in_string
    else if is_quote value
    then opened
    else if value == equals_sign && depth == 0
    then some index
    else onward

unfoldable pub top_level_equals : Bytes → ByteRange → Option ℕ
unfolding equals_loop
top_level_equals source range =
    equals_loop (slice range.start range.end source) range.start 0 0 false

-- `for start < end && isSpace(source[start]) { start++ }`, over the bytes between
abbrev pub skip_spaces : Bytes → ℕ → ℕ
skip_spaces [] start = start
skip_spaces (value ∷ rest) start = if is_space value then skip_spaces rest (start + 1) else start

-- The loop of keywordArgumentValueStart.
pub value_start_loop : Bytes → ℕ → ℕ → ℕ → Bool → Option ℕ
value_start_loop [] index depth quote escaped = none
value_start_loop (value ∷ rest) index depth quote escaped =
    let (q, e) = quoted_step value quote escaped in
    let in_string = value_start_loop rest (index + 1) depth q e in
    let opened = value_start_loop rest (index + 1) depth value escaped in
    let onward = value_start_loop rest (index + 1) (next_depth value depth) quote escaped in
    if not (quote == 0)
    then in_string
    else if is_quote value
    then opened
    else if value == equals_sign && depth == 0
    then some (skip_spaces rest (index + 1))
    else onward

unfoldable pub keyword_argument_value_start : Bytes → ℕ → ℕ → Option ℕ
unfolding value_start_loop
keyword_argument_value_start source start end =
    value_start_loop (slice start end source) start 0 0 false

-- The first loop of trimByteRange is `skip_spaces`; the second one goes down from the end. The
-- numbers are how far it may go, and the end.
abbrev pub back_spaces : Bytes → ℕ → ℕ → ℕ
back_spaces source zero end = end
back_spaces source (suc room) end =
    if is_space (byte_at source (end - 1)) then back_spaces source room (end - 1) else end

unfoldable pub trim_byte_range : Bytes → ByteRange → ByteRange
trim_byte_range source range =
    let start = skip_spaces (slice range.start range.end source) range.start in
    record { start = start; end = back_spaces source (range.end - start) range.end }

-- The loop of firstCallArgument, which gives the length of the argument.
pub first_argument_loop : Bytes → ℕ → ℕ → ℕ → Bool → ℕ
first_argument_loop [] index depth quote escaped = index
first_argument_loop (value ∷ rest) index depth quote escaped =
    let (q, e) = quoted_step value quote escaped in
    let in_string = first_argument_loop rest (index + 1) depth q e in
    let opened = first_argument_loop rest (index + 1) depth value escaped in
    let onward = first_argument_loop rest (index + 1) (next_depth value depth) quote escaped in
    if not (quote == 0)
    then in_string
    else if is_quote value
    then opened
    else if value == comma && depth == 0
    then index
    else onward

unfoldable pub first_call_argument : Bytes → Bytes
unfolding first_argument_loop
first_call_argument arguments = take (first_argument_loop arguments 0 0 0 false) arguments

-- The loop of firstPositionalArg: the index of the comma, if any.
pub positional_loop : Bytes → ℕ → ℕ → ℕ → Bool → Option ℕ
positional_loop [] index depth quote escaped = none
positional_loop (value ∷ rest) index depth quote escaped =
    let (q, e) = quoted_step value quote escaped in
    let in_string = positional_loop rest (index + 1) depth q e in
    let opened = positional_loop rest (index + 1) depth value escaped in
    let onward = positional_loop rest (index + 1) (next_depth value depth) quote escaped in
    if not (quote == 0)
    then in_string
    else if is_quote value
    then opened
    else if value == comma && depth == 0
    then some index
    else onward

abbrev pub nonempty_text : Bytes → Option Bytes
nonempty_text [] = none
nonempty_text (b ∷ text) = some (b ∷ text)

unfoldable pub first_positional_arg : Bytes → Option Bytes
unfolding positional_loop trim_space
first_positional_arg args = elim (positional_loop args 0 0 0 false) [
  | some index ↦ some (trim_space (take index args))
  | none ↦ nonempty_text (trim_space args)
]

module _ (is_word : ℕ → Bool) where
  -- What argumentKeyword answers for the text in front of the sign.
  abbrev pub keyword_name : Bytes → Option Bytes
  keyword_name text =
      let name = trim_space text in if identifier_text is_word name then some name else none

  -- The loop of argumentKeyword.
  pub keyword_loop : Bytes → Bytes → ℕ → ℕ → ℕ → Bool → Option Bytes
  unfolding trim_space identifier_text
  keyword_loop argument [] index depth quote escaped = none
  keyword_loop argument (value ∷ rest) index depth quote escaped =
      let (q, e) = quoted_step value quote escaped in
      let in_string = keyword_loop argument rest (index + 1) depth q e in
      let opened = keyword_loop argument rest (index + 1) depth value escaped in
      let onward = keyword_loop argument rest (index + 1) (next_depth value depth) quote escaped in
      if not (quote == 0)
      then in_string
      else if is_quote value
      then opened
      else if value == equals_sign && depth == 0
      then keyword_name (take index argument)
      else onward

  unfoldable pub argument_keyword : Bytes → Option Bytes
  unfolding keyword_loop
  argument_keyword argument = keyword_loop argument argument 0 0 0 false

  -- diagnosticKeywordPath
  unfoldable pub diagnostic_keyword_path : Bytes → ByteRange → Option ByteRange
  unfolding top_level_equals trim_byte_range identifier_text
  diagnostic_keyword_path source argument = elim (top_level_equals source argument) [
    | none ↦ none
    | some equals ↦
        let name = trim_byte_range source (record { start = argument.start; end = equals }) in
        let value = trim_byte_range source (record { start = equals + 1; end = argument.end }) in
        if name.start == name.end
          || value.start == value.end
          || not (identifier_text is_word (slice name.start name.end source))
        then none
        else some name
  ]
