-- ===== src/Scan/Calls/Stack.antt =====
-- The stack of open parentheses against a search that goes back from the offset.
use pogo.Prelude.{
  ℕ, zero, suc, ◌+◌, ◌-◌, ◌≡◌, refl, ap, ◌∙◌, Bool, not, List, [], ◌∷◌, Option, none, some, arith,
  ◌==◌, if◌then◌else◌, length, take, drop, get_elem?, Bytes,
}
use pogo.Position.{byte_at}
use pogo.Scan.Calls.{
  Lexer, start_lexer, lex, mask_loop, python_code_mask, open_parenthesis, close_parenthesis, popped,
  stack_loop, open_stack, code_at,
}

-- From the end of a text back: the open parenthesis with so many others behind it that are open too.
unfoldable pub opening_before : Bytes → List Bool → ℕ → ℕ → Option ℕ
opening_before text mask zero k = none
opening_before text mask (suc n) k =
    let value = byte_at text n in
    let same = opening_before text mask n k in
    let closed = opening_before text mask n (k + 1) in
    let opened = opening_before text mask n (k - 1) in
    if not (code_at mask n)
    then same
    else if value == open_parenthesis
    then (if k == 0 then some n else opened)
    else if value == close_parenthesis
    then closed
    else same

-- The stack behind the first bytes.
stack_until : Bytes → List Bool → ℕ → List ℕ
stack_until text mask zero = []
stack_until text mask (suc n) =
    let stack = stack_until text mask n in
    if not (code_at mask n)
    then stack
    else if byte_at text n == open_parenthesis
    then n ∷ stack
    else if byte_at text n == close_parenthesis
    then popped stack
    else stack

get_elem?-popped : (stack : List ℕ) (k : ℕ) → get_elem? (popped stack) k ≡ get_elem? stack (suc k)
get_elem?-popped [] k = refl
get_elem?-popped (i ∷ stack) k = refl

get_elem?-cons :
    (i : ℕ) (stack : List ℕ) (k : ℕ)
    → get_elem? (i ∷ stack) k ≡ (if k == 0 then some i else get_elem? stack (k - 1))
get_elem?-cons i stack zero = refl
get_elem?-cons i stack (suc k) = let e : suc k - 1 ≡ k = omega arith in ground (arith, e)

stack_until-opening_before :
    (text : Bytes) (mask : List Bool) (n k : ℕ)
    → get_elem? (stack_until text mask n) k ≡ opening_before text mask n k
unfolding stack_until opening_before
stack_until-opening_before text mask zero k = refl
stack_until-opening_before text mask (suc n) k =
    let e : suc k ≡ k + 1 = omega arith in
    ground (
      arith,
      e,
      get_elem?-popped (stack_until text mask n) k,
      get_elem?-cons n (stack_until text mask n) k,
      stack_until-opening_before text mask n k,
      stack_until-opening_before text mask n (k + 1),
      stack_until-opening_before text mask n (suc k),
      stack_until-opening_before text mask n (k - 1),
    )

pub byte_at-drop :
    (text : Bytes) (i v : ℕ) (rest : Bytes)
    → drop i text ≡ v ∷ rest
    → (byte_at text i ≡ v) × (drop (i + 1) text ≡ rest)
byte_at-drop [] zero v rest e = absurd (cc)
byte_at-drop [] (suc i) v rest e = absurd (cc)
byte_at-drop (b ∷ text) zero v rest e = (grind (arith, e), grind (arith, e))
byte_at-drop (b ∷ text) (suc i) v rest e =
    let next : suc i + 1 ≡ suc (i + 1) = omega arith in rw next (byte_at-drop text i v rest e)

code_at-drop :
    (mask : List Bool) (i : ℕ) (c : Bool) (rest : List Bool)
    → drop i mask ≡ c ∷ rest
    → (code_at mask i ≡ c) × (drop (i + 1) mask ≡ rest)
code_at-drop [] zero c rest e = absurd (cc)
code_at-drop [] (suc i) c rest e = absurd (cc)
code_at-drop (b ∷ mask) zero c rest e = (grind (arith, e), grind (arith, e))
code_at-drop (b ∷ mask) (suc i) c rest e =
    let next : suc i + 1 ≡ suc (i + 1) = omega arith in rw next (code_at-drop mask i c rest e)

stack_loop-stack_until :
    (text : Bytes) (mask : List Bool) (rest : Bytes) (codes : List Bool) (i : ℕ)
    → drop i text ≡ rest
    → drop i mask ≡ codes
    → length codes ≡ length rest
    → stack_loop rest codes i (stack_until text mask i) ≡ stack_until text mask (i + length rest)
unfolding stack_loop stack_until
stack_loop-stack_until text mask [] [] i t m n = let e : i + 0 ≡ i = omega arith in rw e refl
stack_loop-stack_until text mask [] (c ∷ codes) i t m n = absurd (omega (arith, n))
stack_loop-stack_until text mask (v ∷ rest) [] i t m n = absurd (omega (arith, n))
stack_loop-stack_until text mask (v ∷ rest) (c ∷ codes) i t m n =
    let (here, t') = byte_at-drop text i v rest t in
    let (code, m') = code_at-drop mask i c codes m in
    let e : i + length (v ∷ rest) ≡ suc i + length rest = omega arith in
    let next : i + 1 ≡ suc i = omega arith in
    let onward : stack_loop rest codes (suc i) (stack_until text mask (suc i))
        ≡ stack_until text mask (suc i + length rest) =
      stack_loop-stack_until text mask rest codes (suc i) (rw (← next) t') (rw (← next) m')
        (omega (arith, n)) in
    rw (e, next, ← here, ← code) onward

length-mask_loop : (l : Lexer) (text : Bytes) → length (mask_loop l text) ≡ length text
unfolding mask_loop
length-mask_loop l [] = refl
length-mask_loop l (v ∷ rest) = omega (arith, length-mask_loop (lex l v rest).0 rest)

-- The stack of open parentheses that the enclosing calls keep is what a search back from the
-- offset finds: at place k stands the open parenthesis in the code with k others open behind it.
pub open_stack-opening_before :
    (source : Bytes) (offset k : ℕ)
    → get_elem? (open_stack source offset) k
      ≡ opening_before
          (take offset source)
          (python_code_mask source offset)
          (length (take offset source))
          k
unfolding open_stack python_code_mask stack_until
open_stack-opening_before source offset k =
    let text = take offset source in
    let mask = python_code_mask source offset in
    let e : 0 + length text ≡ length text = omega arith in
    ap (λ s. get_elem? s k)
      (stack_loop-stack_until text mask text mask 0 refl refl (length-mask_loop start_lexer text)
        ∙ ap (stack_until text mask) e)
    ∙ stack_until-opening_before text mask (length text) k
