-- ===== src/Scan/Calls.antt =====
-- infer.go and path.go: which bytes of Python text are code, and the call around an offset.
pub mod Stack
pub mod Receiver
pub mod Runs
pub mod Enclosing
use pogo.Prelude.{
  ℕ, zero, suc, ◌+◌, ◌-◌, Bool, true, false, not, ◌&&◌, ◌||◌, List, [], ◌∷◌, ◌++◌, Option, none,
  some, ltb, leb, ◌==◌, if◌then◌else◌, length, take, drop, slice, Bytes, bytes_eq, codes,
}
use pogo.Text.{is_space, is_identifier_byte}
use pogo.Position.{byte_at}
use pogo.Store.{ByteRange}
use pogo.Scan.{is_quote, quoted_step}

-- The variables of the loop of pythonCodeMask. `skip` is how many bytes `index += 2` still passes over.
pub record Lexer : Type 0 where
  pub quote : ℕ
  pub triple : Bool
  pub escaped : Bool
  pub comment : Bool
  pub skip : ℕ

abbrev pub start_lexer : Lexer
start_lexer = record { quote = 0; triple = false; escaped = false; comment = false; skip = 0 }

-- source[index+1] and source[index+2], if they are in the range, are the byte.
abbrev pub doubled : ℕ → Bytes → Bool
doubled value (a ∷ b ∷ rest) = a == value && b == value
doubled value _ = false

-- The state behind a byte, and whether the byte is code. Of a comment the line feed is code.
unfoldable pub lex : Lexer → ℕ → Bytes → Lexer × Bool
lex l value rest =
    if not (l.skip == 0)
    then (record l { skip = l.skip - 1 }, false)
    else if l.comment
    then (record l { comment = not (value == 10) }, value == 10)
    else if not (l.quote == 0)
    then (if l.triple
        then (if value == l.quote && doubled value rest
            then (record l { quote = 0; triple = false; skip = 2 }, false)
            else (l, false))
        else (let (q, e) = quoted_step value l.quote l.escaped in
            (record l { quote = q; escaped = e }, false)))
    else if value == 35
    then (record l { comment = true }, false)
    else if is_quote value
    then (if doubled value rest
        then (record l { quote = value; triple = true; skip = 2 }, false)
        else (record l { quote = value }, false))
    else (l, true)

unfoldable pub mask_loop : Lexer → Bytes → List Bool
unfolding lex
mask_loop l [] = []
mask_loop l (value ∷ rest) = let (next, code) = lex l value rest in code ∷ mask_loop next rest

-- `take` stops at the end of the source, as `end = len(source)` does.
unfoldable pub python_code_mask : Bytes → ℕ → List Bool
unfolding mask_loop
python_code_mask source end = mask_loop start_lexer (take end source)

abbrev pub open_parenthesis : ℕ
open_parenthesis = 40

abbrev pub close_parenthesis : ℕ
close_parenthesis = 41

abbrev pub full_stop : ℕ
full_stop = 46

abbrev pub popped : List ℕ → List ℕ
popped [] = []
popped (i ∷ stack) = stack

-- The loop over the stack of open parentheses, the last one first.
pub stack_loop : Bytes → List Bool → ℕ → List ℕ → List ℕ
stack_loop (value ∷ rest) (code ∷ codes) index stack = stack_loop rest codes (index + 1) (
    if not code
    then stack
    else if value == open_parenthesis
    then index ∷ stack
    else if value == close_parenthesis
    then popped stack
    else stack)
stack_loop _ _ index stack = stack

unfoldable pub open_stack : Bytes → ℕ → List ℕ
unfolding stack_loop python_code_mask
open_stack source offset = stack_loop (take offset source) (python_code_mask source offset) 0 []

-- `for end > 0 && isSpace(source[end-1]) { end-- }`
pub spaces_before : Bytes → ℕ → ℕ
spaces_before source zero = zero
spaces_before source (suc n) = if is_space (byte_at source n) then spaces_before source n else suc n

abbrev pub code_at : List Bool → ℕ → Bool
code_at [] n = false
code_at (code ∷ mask) zero = code
code_at (code ∷ mask) (suc n) = code_at mask n

-- `for start > 0 && isIdentifierByte(source[start-1]) && code[start-1] { start-- }`
pub name_before : Bytes → List Bool → ℕ → ℕ
name_before source mask zero = zero
name_before source mask (suc n) =
    if is_identifier_byte (byte_at source n) && code_at mask n
    then name_before source mask n
    else suc n

abbrev pub is_back_closing : ℕ → Bool
is_back_closing value = value == close_parenthesis || value == 93

abbrev pub is_back_opening : ℕ → Bool
is_back_opening value = value == open_parenthesis || value == 91

-- The loop of expressionBefore at `suc start`, for the end of the expression. Every round goes down
-- by a byte at least.
pub before_loop : ℕ → Bytes → ℕ → ℕ → ℕ → Option ℕ
unfolding spaces_before
before_loop zero source end depth start = none
before_loop (suc fuel) source end depth zero = some 0
before_loop (suc fuel) source end depth (suc start) =
    let value = byte_at source start in
    let deeper = before_loop fuel source end (depth + 1) start in
    let shallower = before_loop fuel source end (depth - 1) start in
    let gap = spaces_before source start in
    let past = before_loop fuel source end depth gap in
    let onward = before_loop fuel source end depth start in
    if is_back_closing value
    then deeper
    else if is_back_opening value
    then (if depth == 0 then some (suc start) else shallower)
    else if depth == 0
        && is_space value
        && ltb (suc start) end
        && byte_at source (suc start) == full_stop
        && ltb 0 gap
        && byte_at source (gap - 1) == close_parenthesis
    then past
    else if depth == 0 && not (is_identifier_byte value) && not (value == full_stop)
    then some (suc start)
    else onward

unfoldable pub expression_before : Bytes → ℕ → Option ByteRange
unfolding before_loop spaces_before
expression_before source end =
    elim (before_loop (suc end) source end 0 (spaces_before source end)) [
      | none ↦ none
      | some start ↦ some (record { start = start; end = end })
    ]

pub record CallContext : Type 0 where
  pub method : Bytes
  pub receiver : ByteRange
  pub arguments_start : ℕ

-- callAfterOpening; the outer `none` is that the fuel has run out.
abbrev pub receiver_call : Bytes → ℕ → ℕ → ℕ → ByteRange → Option CallContext
receiver_call source name_start name_end opening receiver =
    if receiver.start == receiver.end
    then none
    else some (record {
      method = slice name_start name_end source;
      receiver = receiver;
      arguments_start = opening + 1;
    })

unfoldable pub call_after_opening : Bytes → ℕ → Option CallContext
unfolding spaces_before name_before expression_before python_code_mask
call_after_opening source opening =
    let name_end = spaces_before source opening in
    let name_start = name_before source (python_code_mask source opening) name_end in
    if name_start == name_end
      || name_start == 0
      || not (byte_at source (name_start - 1) == full_stop)
    then none
    else elim (expression_before source (name_start - 1)) [
      | none ↦ none
      | some receiver ↦ receiver_call source name_start name_end opening receiver
    ]

abbrev pub call_at_top : Bytes → List ℕ → Option CallContext
call_at_top source [] = none
call_at_top source (opening ∷ stack) = call_after_opening source opening

unfoldable pub enclosing_call : Bytes → ℕ → Option CallContext
unfolding open_stack call_after_opening
enclosing_call source offset =
    if ltb (length source) offset then none else call_at_top source (open_stack source offset)

-- The loop of enclosingCallBefore over the stack.
pub call_before : Bytes → ℕ → List ℕ → Option CallContext
unfolding call_after_opening
call_before source opening [] = none
call_before source opening (i ∷ stack) =
    let rest = call_before source opening stack in
    if leb opening i
    then rest
    else elim (call_after_opening source i) [ none ↦ rest | some call ↦ some call ]

unfoldable pub enclosing_call_before : Bytes → ℕ → ℕ → Option CallContext
unfolding open_stack call_before
enclosing_call_before source offset opening =
    if ltb (length source) offset
    then none
    else call_before source opening (open_stack source offset)

pub record FunctionCallContext : Type 0 where
  pub name : Bytes
  pub opening : ℕ
  pub arguments_start : ℕ

pub function_call_at : Bytes → List Bool → ℕ → Option FunctionCallContext
unfolding spaces_before name_before
function_call_at source mask opening =
    let name_end = spaces_before source opening in
    let name_start = name_before source mask name_end in
    if name_start == name_end || (ltb 0 name_start && byte_at source (name_start - 1) == full_stop)
    then none
    else some (record {
      name = slice name_start name_end source;
      opening = opening;
      arguments_start = opening + 1;
    })

abbrev pub function_call_at_top : Bytes → List Bool → List ℕ → Option FunctionCallContext
function_call_at_top source mask [] = none
function_call_at_top source mask (opening ∷ stack) = function_call_at source mask opening

unfoldable pub enclosing_function_call : Bytes → ℕ → Option FunctionCallContext
unfolding open_stack function_call_at
enclosing_function_call source offset =
    if ltb (length source) offset
    then none
    else function_call_at_top source (python_code_mask source offset) (open_stack source offset)
