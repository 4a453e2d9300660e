-- ===== src/Scan/Arguments/Commas.antt =====
-- The commas of a call against the mask of its code, and where an argument ends.
use pogo.Prelude.{
  ℕ, ◌+◌, ◌≤◌, ◌<◌, ◌≡◌, refl, ap, ◌∙◌, ◌⊎◌, inl, inr, Bool, true, false, not, ◌&&◌, ◌||◌, List, [],
  ◌∷◌, arith, ltb, ◌==◌, if◌then◌else◌, length, length-drop, drop, slice, Bytes, Bool-cases,
  take_all,
}
use pogo.Position.{byte_at}
use pogo.Scan.Calls.Stack.{byte_at-drop}
use pogo.Scan.{next_depth, comma}
use pogo.Scan.Calls.{Lexer, start_lexer, lex, mask_loop, python_code_mask, close_parenthesis}
use pogo.Scan.Arguments.Mask.{lexer_of, depth_behind, argument_at, active_step-lex}
use pogo.Scan.Arguments.{
  Active, ArgumentContext, next_argument, start_active, active_step, active_loop, active_argument,
  plain_lex, argument_end_loop, active_argument_end,
}

-- The places of the commas outside brackets among the bytes that a mask calls code.
unfoldable pub top_level_commas : Bytes → List Bool → ℕ → ℕ → List ℕ
top_level_commas (value ∷ rest) (code ∷ mask) index depth =
    let passed = top_level_commas rest mask (index + 1) depth in
    let onward = top_level_commas rest mask (index + 1) (next_depth value depth) in
    if not code then passed else if value == comma && depth == 0 then index ∷ passed else onward
top_level_commas text mask index depth = []

-- The argument behind the commas, counted from the one at hand.
abbrev pub argument_behind : ArgumentContext → List ℕ → ArgumentContext
argument_behind argument [] = argument
argument_behind argument (place ∷ places) = argument_behind (next_argument place argument) places

comma_depth :
    (value depth : ℕ) → (value == comma && depth == 0) ≡ true → next_depth value depth ≡ depth
comma_depth value depth h = ground (arith, h)

top_level_commas_cons :
    (argument : ArgumentContext) (code : Bool) (value : ℕ) (rest : Bytes) (mask : List Bool)
    (index depth : ℕ)
    → argument_behind
        (argument_at code value depth index argument)
        (top_level_commas rest mask (index + 1) (depth_behind code value depth))
      ≡ argument_behind argument (top_level_commas (value ∷ rest) (code ∷ mask) index depth)
unfolding top_level_commas
top_level_commas_cons argument false value rest mask index depth = refl
top_level_commas_cons argument true value rest mask index depth =
    elim (Bool-cases (value == comma && depth == 0)) [
      | inl sep ↦ rw (sep, comma_depth value depth sep) refl
      | inr other ↦ rw other refl
    ]

active_loop-top_level_commas :
    (s : Active) (text : Bytes) (index : ℕ)
    → (active_loop s text index).argument
      ≡ argument_behind s.argument
          (top_level_commas text (mask_loop (lexer_of s) text) index s.depth)
unfolding active_loop top_level_commas mask_loop
active_loop-top_level_commas s [] index = refl
active_loop-top_level_commas s (value ∷ rest) index =
    let (same, deep, at) = active_step-lex s value rest index in
    let t = active_step s value rest index in
    let (next, code) = lex (lexer_of s) value rest in
    let onward : (active_loop t rest (index + 1)).argument
        ≡ argument_behind (argument_at code value s.depth index s.argument) (
            top_level_commas rest (mask_loop next rest) (index + 1)
              (depth_behind code value s.depth)) =
      rw (← same, ← deep, ← at) (active_loop-top_level_commas t rest (index + 1)) in
    onward ∙ top_level_commas_cons s.argument code value rest (mask_loop next rest) index s.depth

-- `activeArgument`, which keeps track of strings and comments in its own loop, counts the commas
-- outside brackets where `pythonCodeMask`, run on the text between the parenthesis and the
-- offset, says code, and its argument starts behind the last one.
pub active_argument-top_level_commas :
    (source : Bytes) (start offset : ℕ)
    → let text = slice start offset source in
      active_argument source start offset
      ≡ argument_behind
          (record { start = start; index = 0 })
          (top_level_commas text (python_code_mask text (length text)) start 0)
unfolding active_argument python_code_mask
active_argument-top_level_commas source start offset =
    let text = slice start offset source in
    rw (take_all (length text) text (omega arith))
      (active_loop-top_level_commas (start_active start) text start)

argument_end_loop_bounds :
    (l : Lexer) (text : Bytes) (index depth : ℕ)
    → (index ≤ argument_end_loop l text index depth)
      × (argument_end_loop l text index depth ≤ index + length text)
unfolding argument_end_loop
argument_end_loop_bounds l [] index depth = (omega arith, omega arith)
argument_end_loop_bounds l (value ∷ rest) index depth = ground (
  arith,
  argument_end_loop_bounds (plain_lex l value).0 rest (index + 1) depth,
  argument_end_loop_bounds (plain_lex l value).0 rest (index + 1) (next_depth value depth),
)

-- At the index stands a comma or a closing parenthesis, or the text is at its end.
abbrev pub IsArgumentEnd : Bytes → ℕ → Type 0
IsArgumentEnd source index =
    (index ≡ length source)
    ⊎ ((index < length source)
        × ((byte_at source index ≡ comma) ⊎ (byte_at source index ≡ close_parenthesis)))

at_separator :
    (value depth : ℕ)
    → ((value == close_parenthesis || value == comma) && depth == 0) ≡ true
    → (value ≡ comma) ⊎ (value ≡ close_parenthesis)
at_separator value depth h = ground arith

argument_end_loop-IsArgumentEnd :
    (source : Bytes) (l : Lexer) (text : Bytes) (index depth : ℕ)
    → drop index source ≡ text
    → index ≤ length source
    → IsArgumentEnd source (argument_end_loop l text index depth)
unfolding argument_end_loop
argument_end_loop-IsArgumentEnd source l [] index depth t h =
    inl (omega (arith, h, length-drop index source, ap length t))
argument_end_loop-IsArgumentEnd source l (value ∷ rest) index depth t h =
    let (next, code) = plain_lex l value in
    let (here, t') = byte_at-drop source index value rest t in
    let low : index < length source = omega (arith, length-drop index source, ap length t) in
    let low' : index + 1 ≤ length source = omega (arith, low) in
    elim (Bool-cases code) [
      | inr text ↦
          rw text (argument_end_loop-IsArgumentEnd source next rest (index + 1) depth t' low')
      | inl live ↦
          elim (Bool-cases ((value == close_parenthesis || value == comma) && depth == 0)) [
            | inl sep ↦ rw (live, sep) (inr (low, rw here (at_separator value depth sep)))
            | inr other ↦
                rw (live, other)
                  (argument_end_loop-IsArgumentEnd source next rest (index + 1)
                    (next_depth value depth) t' low')
          ]
    ]

-- For a start inside the source or at its end, `activeArgumentEnd` gives an offset from the start
-- up to the end of the source: the end itself, or a comma or a closing parenthesis.
pub active_argument_end_bounds :
    (source : Bytes) (start : ℕ)
    → start ≤ length source
    → (start ≤ active_argument_end source start)
      × (active_argument_end source start ≤ length source)
      × IsArgumentEnd source (active_argument_end source start)
unfolding active_argument_end
active_argument_end_bounds source start h =
    let within : ltb (length source) start ≡ false = ground (arith, h) in
    let (low, high) = argument_end_loop_bounds start_lexer (drop start source) start 0 in
    rw within (
      low,
      omega (arith, high, h, length-drop start source),
      argument_end_loop-IsArgumentEnd source start_lexer (drop start source) start 0 refl h,
    )
