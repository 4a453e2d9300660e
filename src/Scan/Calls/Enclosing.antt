-- ===== src/Scan/Calls/Enclosing.antt =====
-- What enclosingCall answers stands in front of the offset, behind an open parenthesis of the code.
use pogo.Prelude.{
  some_injective, ℕ, zero, suc, ◌+◌, ◌-◌, ◌≤◌, ◌<◌, ◌≡◌, refl, sym, subst, ◌∙◌, inl, inr, Bool,
  true, false, not, ◌||◌, List, [], ◌∷◌, some, arith, ltb, ◌==◌, length, length-take, take,
  get_elem?, slice, Bytes, Bool-cases,
}
use pogo.Position.{byte_at}
use pogo.Scan.Calls.Stack.{opening_before, open_stack-opening_before}
use pogo.Scan.Calls.Runs.{
  all_between, is_name_byte, is_space_at, name_before-all_between, spaces_before-all_between,
}
use pogo.Scan.Calls.{
  open_parenthesis, spaces_before, code_at, name_before, full_stop, close_parenthesis, CallContext,
  receiver_call, call_after_opening, open_stack, python_code_mask, enclosing_call, call_at_top,
}
use pogo.Scan.Calls.Receiver.{spaces_before_bound, name_before_bound, expression_before_bound}

name_guard :
    (start end value : ℕ)
    → (start == end || start == 0 || not (value == full_stop)) ≡ false
    → start ≤ end
    → (value ≡ full_stop) × (start < end) × (0 < start)
name_guard start end value h low = ground arith

start_before : (a b : ℕ) → (a == b) ≡ false → a ≤ b → a < b
start_before a b h low = ground arith

-- What callAfterOpening promises of a call: its name is a run of identifier bytes in the code, behind
-- a full stop, and in front of the parenthesis but for spaces; its receiver ends at the full stop
-- and is not empty.
unfoldable pub IsReceiverCall : Bytes → ℕ → CallContext → Type 0
IsReceiverCall source opening call =
    (name_start : ℕ) × (name_end : ℕ) × (call.method ≡ slice name_start name_end source)
    × (all_between (is_name_byte source (python_code_mask source opening)) name_start name_end
        ≡ true)
    × (all_between (is_space_at source) name_end opening ≡ true)
    × (byte_at source (name_start - 1) ≡ full_stop)
    × (call.receiver.start < call.receiver.end)
    × (call.receiver.end + 1 ≡ name_start)
    × (name_start < name_end)
    × (name_end ≤ opening)
    × (call.arguments_start ≡ opening + 1)

call_after_opening-IsReceiverCall :
    (source : Bytes) (opening : ℕ) (call : CallContext)
    → call_after_opening source opening ≡ some call
    → IsReceiverCall source opening call
unfolding call_after_opening IsReceiverCall
call_after_opening-IsReceiverCall source opening call h =
    let name_end = spaces_before source opening in
    let name_start = name_before source (python_code_mask source opening) name_end in
    let low = spaces_before_bound source opening in
    let low' = name_before_bound source (python_code_mask source opening) name_end in
    let (receiver, found, bound, ends) = expression_before_bound source (name_start - 1) in
    let bad =
      name_start == name_end
      || name_start == 0
      || not (byte_at source (name_start - 1) == full_stop) in
    elim (Bool-cases bad) [
      | inl refused ↦ absurd (ground (arith, h, refused))
      | inr met ↦
          let e : call_after_opening source opening
              ≡ receiver_call source name_start name_end opening receiver =
            rw (call_after_opening, met, found) refl in
          elim (Bool-cases (receiver.start == receiver.end)) [
            | inl empty ↦ absurd (ground (arith, h, e, empty))
            | inr full ↦
                let (stop, inside, behind) =
                  name_guard name_start name_end (byte_at source (name_start - 1)) met low' in
                let nonempty : receiver.start < receiver.end =
                  start_before receiver.start receiver.end full (omega (arith, bound, ends)) in
                let made : CallContext = record {
                  method = slice name_start name_end source;
                  receiver = receiver;
                  arguments_start = opening + 1;
                } in
                let shape : made ≡ call = some_injective (ground (arith, h, e, full)) in
                subst (IsReceiverCall source opening) shape (
                  name_start,
                  name_end,
                  refl,
                  name_before-all_between source (python_code_mask source opening) name_end,
                  spaces_before-all_between source opening,
                  stop,
                  nonempty,
                  omega (arith, behind, ends),
                  inside,
                  low,
                  refl,
                )
          ]
    ]

opening_before-some :
    (text : Bytes) (mask : List Bool) (n k opening : ℕ)
    → opening_before text mask n k ≡ some opening
    → (opening < n) × (byte_at text opening ≡ open_parenthesis) × (code_at mask opening ≡ true)
unfolding opening_before
opening_before-some text mask zero k opening h = absurd (cc)
opening_before-some text mask (suc n) k opening h =
    let rec = λ (m : ℕ). opening_before-some text mask n m opening in
    elim (Bool-cases (code_at mask n)) [
      | inr comment ↦
          let (low, is, code) = rec k (ground (arith, h, comment)) in (omega (arith, low), is, code)
      | inl code ↦ elim (Bool-cases (byte_at text n == open_parenthesis)) [
        | inl opens ↦ elim (Bool-cases (k == 0)) [
          | inl top ↦
              let e : n ≡ opening = ground (arith, h, code, opens, top) in
              (omega (arith, e), ground (arith, opens, e), rw (← e) code)
          | inr deep ↦
              let (low, is, code') = rec (k - 1) (ground (arith, h, code, opens, deep)) in
              (omega (arith, low), is, code')
        ]
        | inr plain ↦ elim (Bool-cases (byte_at text n == close_parenthesis)) [
          | inl closes ↦
              let (low, is, code') = rec (k + 1) (ground (arith, h, code, plain, closes)) in
              (omega (arith, low), is, code')
          | inr other ↦
              let (low, is, code') = rec k (ground (arith, h, code, plain, other)) in
              (omega (arith, low), is, code')
        ]
      ]
    ]

call_at_top-some :
    (source : Bytes) (stack : List ℕ) (call : CallContext)
    → call_at_top source stack ≡ some call
    → (opening : ℕ) × (get_elem? stack 0 ≡ some opening)
      × (call_after_opening source opening ≡ some call)
call_at_top-some source [] call h = absurd (cc)
call_at_top-some source (opening ∷ stack) call h = (opening, refl, h)

byte_at-take : (n k : ℕ) (text : Bytes) → k < n → byte_at (take n text) k ≡ byte_at text k
byte_at-take zero k text h = absurd (omega (arith, h))
byte_at-take (suc n) k [] h = refl
byte_at-take (suc n) zero (b ∷ text) h = refl
byte_at-take (suc n) (suc k) (b ∷ text) h = byte_at-take n k text (omega (arith, h))

-- A call that `enclosingCall` finds has its open parenthesis in front of the offset, where the
-- mask says code. Its method is the text of a nonempty run of identifier bytes that the mask up
-- to the parenthesis calls code. Behind the run there is nothing but spaces up to the
-- parenthesis, in front of it there is a full stop, and the receiver ends at that full stop and
-- is not empty.
pub enclosing_call-IsReceiverCall :
    (source : Bytes) (offset : ℕ) (call : CallContext)
    → enclosing_call source offset ≡ some call
    → (opening : ℕ) × (opening < offset)
      × (byte_at source opening ≡ open_parenthesis)
      × (code_at (python_code_mask source offset) opening ≡ true)
      × IsReceiverCall source opening call
unfolding enclosing_call
enclosing_call-IsReceiverCall source offset call h =
    elim (Bool-cases (ltb (length source) offset)) [
      | inl beyond ↦ absurd (ground (arith, h, beyond))
      | inr within ↦
          let top : call_at_top source (open_stack source offset) ≡ some call =
            ground (arith, h, within) in
          let (opening, first, answer) =
            call_at_top-some source (open_stack source offset) call top in
          let text = take offset source in
          let (low, is, code) =
            opening_before-some text (python_code_mask source offset) (length text) 0 opening
              (sym (open_stack-opening_before source offset 0) ∙ first) in
          let low' : opening < offset = omega (arith, low, length-take offset source) in
          (
            opening,
            low',
            sym (byte_at-take offset opening source low') ∙ is,
            code,
            call_after_opening-IsReceiverCall source opening call answer,
          )
    ]
