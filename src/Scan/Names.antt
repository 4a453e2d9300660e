-- ===== src/Scan/Names.antt =====
-- infer.go and path.go: the names around an offset, and the place of a keyword in the arguments.
pub mod Paths
use pogo.Prelude.{
  ℕ, zero, suc, ◌+◌, ◌-◌, Bool, true, false, not, ◌&&◌, ◌||◌, List, [], ◌∷◌, Option, none, some,
  ltb, leb, ◌==◌, if◌then◌else◌, length, take, drop, slice, Bytes, bytes_eq,
}
use pogo.Utf8.{decode_rune, is_bad}
use pogo.Text.{decode_last_rune, is_identifier_rune, identifier_text, trim_space}
use pogo.Position.{byte_at}
use pogo.Store.{ByteRange}
use pogo.Scan.{is_opening, is_closing, is_quote, skip_spaces, comma, equals_sign}
use pogo.Scan.Calls.{Lexer, start_lexer, lex, close_parenthesis}
use pogo.Scan.Arguments.{plain_lex}

-- The variables of the loop of keywordNamePosition behind a byte; `none` is the return in the loop.
pub record Place : Type 0 where
  pub lexer : Lexer
  pub depth : ℕ
  pub segment_start : ℕ

pub place_loop : Place → Bytes → ℕ → Option Place
place_loop p [] index = some p
place_loop p (value ∷ rest) index =
    let (next, code) = plain_lex p.lexer value in
    let passed = place_loop (record p { lexer = next }) rest (index + 1) in
    let deeper = place_loop (record p { lexer = next; depth = p.depth + 1 }) rest (index + 1) in
    let shallower = place_loop (record p { lexer = next; depth = p.depth - 1 }) rest (index + 1) in
    let behind =
      place_loop (record p { lexer = next; segment_start = index + 1 }) rest (index + 1) in
    if not code
    then passed
    else if is_opening value
    then deeper
    else if is_closing value
    then (if p.depth == 0 then none else shallower)
    else if value == comma && p.depth == 0
    then behind
    else passed

abbrev pub is_blank : Bytes → Bool
is_blank text = bytes_eq (trim_space text) []

unfoldable pub keyword_name_position : Bytes → ℕ → ℕ → Bool
unfolding place_loop trim_space
keyword_name_position source arguments_start identifier_start =
    if ltb identifier_start arguments_start || ltb (length source) identifier_start
    then false
    else elim (place_loop
        (record { lexer = start_lexer; depth = 0; segment_start = arguments_start })
        (slice arguments_start identifier_start source) arguments_start) [
          | none ↦ false
          | some p ↦
              p.depth == 0
              && p.lexer.quote == 0
              && not p.lexer.comment
              && is_blank (slice p.segment_start identifier_start source)
        ]

module _ (is_word : ℕ → Bool) where
  -- The loop that goes on from an offset; a round passes a byte at least.
  unfoldable pub identifier_end : ℕ → Bytes → ℕ → ℕ
  unfolding decode_rune
  identifier_end zero rest end = end
  identifier_end (suc fuel) [] end = end
  identifier_end (suc fuel) (b ∷ rest) end =
      let (r, size) = decode_rune (b ∷ rest) in
      let onward = identifier_end fuel (drop size (b ∷ rest)) (end + size) in
      if is_bad (r, size) || not (is_identifier_rune is_word r) then end else onward

  -- The loop that goes back from an offset.
  unfoldable pub identifier_start : ℕ → Bytes → ℕ → ℕ
  unfolding decode_last_rune
  identifier_start zero source start = start
  identifier_start (suc fuel) source zero = zero
  identifier_start (suc fuel) source (suc start) =
      let (r, size) = decode_last_rune (take (suc start) source) in
      let onward = identifier_start fuel source (suc start - size) in
      if is_bad (r, size) || not (is_identifier_rune is_word r) then suc start else onward

  unfoldable pub identifier_range : Bytes → ℕ → ByteRange
  unfolding identifier_end identifier_start
  identifier_range source offset = record {
    start = identifier_start offset source offset;
    end = identifier_end (length source) (drop offset source) offset;
  }

  unfoldable pub identifier_prefix : Bytes → ℕ → Bytes
  unfolding identifier_range
  identifier_prefix source offset =
      if offset == 0 || ltb (length source) offset
      then []
      else slice (identifier_range source offset).start offset source

  abbrev pub ends_keyword : Bytes → ℕ → Bool
  ends_keyword source index =
      leb (length source) index
      || byte_at source index == equals_sign
      || byte_at source index == comma
      || byte_at source index == close_parenthesis

  unfoldable pub keyword_path_range : Bytes → ℕ → ℕ → Option ByteRange
  unfolding identifier_end identifier_text
  keyword_path_range source argument_start offset =
      let start = skip_spaces (slice argument_start offset source) argument_start in
      let end = identifier_end (length source) (drop offset source) offset in
      if ltb offset start
      then none
      else if ltb start offset && not (identifier_text is_word (slice start offset source))
      then none
      else if not (ends_keyword source (skip_spaces (drop end source) end))
      then none
      else some (record { start = start; end = end })
