-- ===== src/Scan/Samples.antt =====
-- The scanners on small texts.
use pogo.Prelude.{
  ℕ, ◌≡◌, ◌≤◌, ◌<◌, refl, Bool, true, some, arith, get_elem?, take, length, Bytes, codes, slice,
}
use pogo.Text.{is_identifier_byte}
use pogo.Position.{byte_at}
use pogo.Store.{ByteRange}
use pogo.Scan.{argument_keyword, top_level_equals, keyword_argument_value_start}
use pogo.Scan.Equals.{argument_keyword-top_level_equals, name_behind, value_at}
use pogo.Scan.Calls.{
  CallContext, open_stack, python_code_mask, enclosing_call, open_parenthesis, code_at,
  expression_before,
}
use pogo.Scan.Calls.Stack.{opening_before, open_stack-opening_before}
use pogo.Scan.Calls.Receiver.{expression_before_bound}
use pogo.Scan.Calls.Enclosing.{IsReceiverCall, enclosing_call-IsReceiverCall}
use pogo.Scan.Arguments.{active_argument, active_argument_end}
use pogo.Scan.Arguments.Commas.{
  top_level_commas, argument_behind, IsArgumentEnd, active_argument-top_level_commas,
  active_argument_end_bounds,
}

-- Letters and digits of ASCII.
abbrev ascii_word : ℕ → Bool
ascii_word = is_identifier_byte

abbrev call_text : Bytes
call_text = codes "a.get(b(')'), c=1"

abbrev get_call : CallContext
get_call = record {
  method = codes "get";
  receiver = record { start = 0; end = 1 };
  arguments_start = 6;
}

keyword_found : argument_keyword ascii_word (codes " c = d(x=1)") ≡ some (codes "c")
unfolding argument_keyword
keyword_found = refl

call_found : enclosing_call call_text 17 ≡ some get_call
unfolding enclosing_call
call_found = refl

argument_found : active_argument call_text 6 17 ≡ record { start = 13; index = 1 }
unfolding active_argument
argument_found = refl

end_found : active_argument_end call_text 6 ≡ 12
unfolding active_argument_end
end_found = refl

argument_keyword-top_level_equals_example :
    let equals = top_level_equals call_text (record { start = 12; end = 17 }) in
    let argument = slice 12 17 call_text in
    (argument_keyword ascii_word argument ≡ name_behind ascii_word argument 12 equals)
    × (keyword_argument_value_start call_text 12 17 ≡ value_at argument 12 equals)
argument_keyword-top_level_equals_example =
    argument_keyword-top_level_equals ascii_word call_text 12 17

open_stack-opening_before_example :
    get_elem? (open_stack call_text 9) 1
    ≡ opening_before (take 9 call_text) (python_code_mask call_text 9) (length (take 9 call_text)) 1
open_stack-opening_before_example = open_stack-opening_before call_text 9 1

expression_before_bound_example :
    (range : ByteRange) × (expression_before call_text 5 ≡ some range)
    × (range.start ≤ 5)
    × (range.end ≡ 5)
expression_before_bound_example = expression_before_bound call_text 5

enclosing_call-IsReceiverCall_example :
    (opening : ℕ) × (opening < 17)
    × (byte_at call_text opening ≡ open_parenthesis)
    × (code_at (python_code_mask call_text 17) opening ≡ true)
    × IsReceiverCall call_text opening get_call
enclosing_call-IsReceiverCall_example =
    enclosing_call-IsReceiverCall call_text 17 get_call call_found

active_argument-top_level_commas_example :
    let text = slice 6 17 call_text in
    active_argument call_text 6 17
    ≡ argument_behind
        (record { start = 6; index = 0 })
        (top_level_commas text (python_code_mask text (length text)) 6 0)
active_argument-top_level_commas_example = active_argument-top_level_commas call_text 6 17

active_argument_end_bounds_example :
    (6 ≤ active_argument_end call_text 6)
    × (active_argument_end call_text 6 ≤ length call_text)
    × IsArgumentEnd call_text (active_argument_end call_text 6)
active_argument_end_bounds_example = active_argument_end_bounds call_text 6 (omega arith)
