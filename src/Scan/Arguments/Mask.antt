-- ===== src/Scan/Arguments/Mask.antt =====
-- The loop of activeArgument against that of pythonCodeMask, byte by byte.
use pogo.Prelude.{
  ℕ, ◌-◌, ◌≡◌, refl, inl, inr, Bool, true, false, not, ◌&&◌, [], ◌∷◌, arith, ◌==◌, if◌then◌else◌,
  Bytes, Bool-cases,
}
use pogo.Scan.{is_quote, next_depth, comma, quoted_step}
use pogo.Scan.Calls.{Lexer, doubled, lex}
use pogo.Scan.Arguments.{
  Active, ArgumentContext, next_argument, next_two, string_step, switch_step, active_step,
}

-- The state of the mask's loop that goes with one of activeArgument.
abbrev pub lexer_of : Active → Lexer
lexer_of s = record {
  quote = s.quote;
  triple = s.triple;
  escaped = s.escaped;
  comment = s.comment;
  skip = s.skip;
}

-- A byte of code can only change the depth or the argument, any other byte changes neither.
abbrev pub depth_behind : Bool → ℕ → ℕ → ℕ
depth_behind code value depth = if code then next_depth value depth else depth

abbrev pub argument_at : Bool → ℕ → ℕ → ℕ → ArgumentContext → ArgumentContext
argument_at code value depth index argument =
    if code && value == comma && depth == 0 then next_argument index argument else argument

next_two-doubled : (quote : ℕ) (rest : Bytes) → next_two quote rest ≡ doubled quote rest
next_two-doubled quote [] = refl
next_two-doubled quote (a ∷ []) = refl
next_two-doubled quote (a ∷ b ∷ rest) = refl

-- What a byte does in both loops.
abbrev pub Agrees : Active → Active → ℕ → ℕ → Lexer × Bool → Type 0
Agrees s t value index (next, code) =
    (lexer_of t ≡ next)
    × (t.depth ≡ depth_behind code value s.depth)
    × (t.argument ≡ argument_at code value s.depth index s.argument)

abbrev lex_string : Lexer → ℕ → Bytes → Lexer × Bool
lex_string l value rest =
    if l.triple
    then (if value == l.quote && doubled value rest
        then (record l { quote = 0; triple = false; skip = 2 }, false)
        else (l, false))
    else (let (q, e) = quoted_step value l.quote l.escaped in
        (record l { quote = q; escaped = e }, false))

abbrev lex_switch : Lexer → ℕ → Bytes → Lexer × Bool
lex_switch l value rest =
    if value == 35
    then (record l { comment = true }, false)
    else if is_quote value
    then (if doubled value rest
        then (record l { quote = value; triple = true; skip = 2 }, false)
        else (record l { quote = value }, false))
    else (l, true)

string_step-Agrees :
    (s : Active) (value : ℕ) (rest : Bytes) (index : ℕ)
    → Agrees s (string_step s value rest) value index (lex_string (lexer_of s) value rest)
unfolding string_step
string_step-Agrees s value rest index = elim (Bool-cases s.triple) [
  | inl triple ↦ elim (Bool-cases (value == s.quote)) [
    | inl end ↦
        let e : value ≡ s.quote = ground (arith, end) in
        elim (Bool-cases (doubled s.quote rest)) [
          | inl two ↦ rw (e, next_two-doubled, two) (ground (arith, triple))
          | inr one ↦ rw (e, next_two-doubled, one) (ground (arith, triple))
        ]
    | inr other ↦ rw (other, triple) (refl, refl, refl)
  ]
  | inr simple ↦ rw simple (ground (arith, simple))
]

switch_step-Agrees :
    (s : Active) (value : ℕ) (rest : Bytes) (index : ℕ)
    → Agrees s (switch_step s value rest index) value index (lex_switch (lexer_of s) value rest)
unfolding switch_step
switch_step-Agrees s value rest index = elim (Bool-cases (is_quote value)) [
  | inl quote ↦
      let live : (value == 35) ≡ false = ground (arith, quote) in
      elim (Bool-cases (doubled value rest)) [
        | inl two ↦ rw (quote, live, next_two-doubled, two) (refl, refl, refl)
        | inr one ↦ rw (quote, live, next_two-doubled, one) (refl, refl, refl)
      ]
  | inr plain ↦ elim (Bool-cases (value == 35)) [
    | inl hash ↦ rw (plain, hash) (refl, refl, refl)
    | inr live ↦ rw (plain, live) (ground arith)
  ]
]

Agrees-if :
    (s t u : Active) (value index : ℕ) (b : Bool) (p q : Lexer × Bool)
    → (b ≡ true → Agrees s t value index p)
    → (b ≡ false → Agrees s u value index q)
    → Agrees s (if b then t else u) value index (if b then p else q)
Agrees-if s t u value index true p q met unmet = met refl
Agrees-if s t u value index false p q met unmet = unmet refl

-- A comment ends at a line feed, which is code and changes neither the depth nor the argument.
comment_step-Agrees :
    (s : Active) (value index : ℕ)
    → s.comment ≡ true
    → Agrees s
        (if value == 10 then record s { comment = false } else s)
        value
        index
        (record (lexer_of s) { comment = not (value == 10) }, value == 10)
comment_step-Agrees s value index on = elim (Bool-cases (value == 10)) [
  | inl feed ↦ let e : value ≡ 10 = ground (arith, feed) in rw e (refl, refl, refl)
  | inr other ↦ rw other (ground (arith, on))
]

pub active_step-lex :
    (s : Active) (value : ℕ) (rest : Bytes) (index : ℕ)
    → Agrees s (active_step s value rest index) value index (lex (lexer_of s) value rest)
unfolding active_step lex
active_step-lex s value rest index =
    let l = lexer_of s in
    let string = λ (b : Bool). if b then lex_string l value rest else lex_switch l value rest in
    let inner =
      Agrees-if s (string_step s value rest) (switch_step s value rest index) value index
        (not (s.quote == 0)) (lex_string l value rest) (lex_switch l value rest)
        (λ e. string_step-Agrees s value rest index) (λ e. switch_step-Agrees s value rest index) in
    let middle =
      Agrees-if s (if value == 10 then record s { comment = false } else s)
        (if not (s.quote == 0) then string_step s value rest else switch_step s value rest index)
        value index s.comment (record l { comment = not (value == 10) }, value == 10)
        (string (not (s.quote == 0))) (λ e. comment_step-Agrees s value index e) (λ e. inner) in
    Agrees-if s (record s { skip = s.skip - 1 })
      (if s.comment
        then (if value == 10 then record s { comment = false } else s)
        else if not (s.quote == 0)
        then string_step s value rest
        else switch_step s value rest index)
      value index (not (s.skip == 0)) (record l { skip = s.skip - 1 }, false)
      (if s.comment
        then (record l { comment = not (value == 10) }, value == 10)
        else string (not (s.quote == 0)))
      (λ e. (refl, refl, refl)) (λ e. middle)
