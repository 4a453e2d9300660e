-- ===== src/Scan/Arguments.antt =====
-- path.go: the argument of a call that an offset stands in.
mod Mask
pub mod Commas
pub mod Static
use pogo.Prelude.{
  ℕ, zero, suc, ◌+◌, ◌-◌, Bool, true, false, not, ◌&&◌, ◌||◌, List, [], ◌∷◌, Option, none, some,
  ltb, ◌==◌, if◌then◌else◌, length, take, drop, slice, Bytes,
}
use pogo.Scan.{is_quote, quoted_step, is_opening, is_closing, next_depth, comma, argument_keyword}
use pogo.Scan.Calls.{Lexer, start_lexer, lex, close_parenthesis}

pub record ArgumentContext : Type 0 where
  pub start : ℕ
  pub index : ℕ

abbrev pub next_argument : ℕ → ArgumentContext → ArgumentContext
next_argument index argument = record { start = index + 1; index = argument.index + 1 }

-- The variables of the loop of activeArgument. `skip` is how many bytes `index += 2` still passes over.
pub record Active : Type 0 where
  pub quote : ℕ
  pub triple : Bool
  pub escaped : Bool
  pub comment : Bool
  pub skip : ℕ
  pub depth : ℕ
  pub argument : ArgumentContext

abbrev pub start_active : ℕ → Active
start_active start = record {
  quote = 0;
  triple = false;
  escaped = false;
  comment = false;
  skip = 0;
  depth = 0;
  argument = record { start = start; index = 0 };
}

-- source[index+1] and source[index+2], in front of the offset, are the quote.
abbrev pub next_two : ℕ → Bytes → Bool
next_two quote [] = false
next_two quote (a ∷ []) = false
next_two quote (a ∷ b ∷ rest) = a == quote && b == quote

-- A byte in a string.
pub string_step : Active → ℕ → Bytes → Active
string_step s value rest =
    if s.triple
    then (if value == s.quote && next_two s.quote rest
        then record s { quote = 0; triple = false; skip = 2 }
        else s)
    else if s.escaped
    then record s { escaped = false }
    else if value == 92
    then record s { escaped = true }
    else if value == s.quote
    then record s { quote = 0 }
    else s

-- The `switch` on a byte that is in no comment and in no string.
pub switch_step : Active → ℕ → Bytes → ℕ → Active
switch_step s value rest index =
    if value == 39 || value == 34
    then (if next_two value rest
        then record s { quote = value; triple = true; skip = 2 }
        else record s { quote = value })
    else if value == 35
    then record s { comment = true }
    else if is_opening value
    then record s { depth = s.depth + 1 }
    else if is_closing value
    then (if ltb 0 s.depth then record s { depth = s.depth - 1 } else s)
    else if value == comma
    then (if s.depth == 0 then record s { argument = next_argument index s.argument } else s)
    else s

unfoldable pub active_step : Active → ℕ → Bytes → ℕ → Active
unfolding string_step switch_step
active_step s value rest index =
    if not (s.skip == 0)
    then record s { skip = s.skip - 1 }
    else if s.comment
    then (if value == 10 then record s { comment = false } else s)
    else if not (s.quote == 0)
    then string_step s value rest
    else switch_step s value rest index

pub active_loop : Active → Bytes → ℕ → Active
unfolding active_step
active_loop s [] index = s
active_loop s (value ∷ rest) index = active_loop (active_step s value rest index) rest (index + 1)

unfoldable pub active_argument : Bytes → ℕ → ℕ → ArgumentContext
unfolding active_loop
active_argument source start offset =
    (active_loop (start_active start) (slice start offset source) start).argument

-- A byte in the loops of positionalArgumentIndex, activeArgumentEnd and keywordNamePosition, which
-- take the quotes one at a time and use neither `triple` nor `skip`: the state behind it, and
-- whether the `switch` goes on to the brackets and the comma.
abbrev pub plain_lex : Lexer → ℕ → Lexer × Bool
plain_lex l value =
    if l.comment
    then (record l { comment = not (value == 10) }, false)
    else if not (l.quote == 0)
    then (let (q, e) = quoted_step value l.quote l.escaped in
        (record l { quote = q; escaped = e }, false))
    else if is_quote value
    then (record l { quote = value }, false)
    else if value == 35
    then (record l { comment = true }, false)
    else (l, true)

module _ (is_word : ℕ → Bool) where
  abbrev pub counted : Option Bytes → ℕ → ℕ
  counted none position = position + 1
  counted (some keyword) position = position

  -- The loop of positionalArgumentIndex.
  pub position_loop : Bytes → Lexer → Bytes → ℕ → ℕ → ℕ → ℕ → ℕ
  position_loop source l [] index depth segment_start position = position
  position_loop source l (value ∷ rest) index depth segment_start position =
      let (next, code) = plain_lex l value in
      let keyword = argument_keyword is_word (slice segment_start index source) in
      let passed = position_loop source next rest (index + 1) depth segment_start position in
      let behind =
        position_loop source next rest (index + 1) depth (index + 1) (counted keyword position) in
      let onward =
        position_loop source next rest (index + 1) (next_depth value depth) segment_start
          position in
      if not code then passed else if value == comma && depth == 0 then behind else onward

  unfoldable pub positional_argument_index : Bytes → ℕ → ℕ → ℕ
  unfolding position_loop
  positional_argument_index source start active_start =
      position_loop source start_lexer (slice start active_start source) start 0 start 0

-- The loop of activeArgumentEnd.
pub argument_end_loop : Lexer → Bytes → ℕ → ℕ → ℕ
argument_end_loop l [] index depth = index
argument_end_loop l (value ∷ rest) index depth =
    let (next, code) = plain_lex l value in
    let passed = argument_end_loop next rest (index + 1) depth in
    let onward = argument_end_loop next rest (index + 1) (next_depth value depth) in
    if not code
    then passed
    else if (value == close_parenthesis || value == comma) && depth == 0
    then index
    else onward

-- Behind the end of the source there is no loop, and the answer is the source's length.
unfoldable pub active_argument_end : Bytes → ℕ → ℕ
unfolding argument_end_loop
active_argument_end source start =
    if ltb (length source) start
    then length source
    else argument_end_loop start_lexer (drop start source) start 0
