-- ===== src/Scan/Equals.antt =====
-- The scans for the sign of a keyword argument, and those for the first argument, agree.
use pogo.Prelude.{
  ℕ, suc, ◌+◌, ◌-◌, ◌≤◌, ◌<◌, ◌≡◌, refl, sym, ap, ◌∙◌, ◌⊎◌, inl, inr, Bool, false, ◌&&◌, [], ◌∷◌,
  Option, none, some, arith, ◌==◌, length, take, drop, slice, Bytes, Option-cases, Bool-cases,
  take_all,
}
use pogo.Text.{trim_space}
use pogo.Scan.{
  is_quote, next_depth, equals_sign, quoted_step, equals_loop, top_level_equals, skip_spaces,
  value_start_loop, keyword_argument_value_start, first_argument_loop, first_call_argument,
  positional_loop, nonempty_text, first_positional_arg, keyword_name, keyword_loop,
  argument_keyword,
}

equals_loop_bounds :
    (rest : Bytes) (i d q : ℕ) (e : Bool) (j : ℕ)
    → equals_loop rest i d q e ≡ some j
    → (i ≤ j) × (j < i + length rest)
unfolding equals_loop
equals_loop_bounds [] i d q e j h = absurd (cc)
equals_loop_bounds (v ∷ rest) i d q e j h = ground (
  arith,
  equals_loop_bounds rest (i + 1) d (quoted_step v q e).0 (quoted_step v q e).1 j,
  equals_loop_bounds rest (i + 1) d v e j,
  equals_loop_bounds rest (i + 1) (next_depth v d) q e j,
)

abbrev pub value_at : Bytes → ℕ → Option ℕ → Option ℕ
value_at rest i none = none
value_at rest i (some j) = some (skip_spaces (drop (j + 1 - i) rest) (j + 1))

value_at_cons :
    (v : ℕ) (rest : Bytes) (i : ℕ) (o : Option ℕ)
    → ((j : ℕ) → o ≡ some j → i + 1 ≤ j)
    → value_at rest (i + 1) o ≡ value_at (v ∷ rest) i o
value_at_cons v rest i none low = refl
value_at_cons v rest i (some j) low =
    let lo = low j refl in let e : j + 1 - i ≡ suc (j + 1 - (i + 1)) = omega arith in rw e refl

value_start_loop-equals_loop :
    (rest : Bytes) (i d q : ℕ) (e : Bool)
    → value_start_loop rest i d q e ≡ value_at rest i (equals_loop rest i d q e)
unfolding equals_loop value_start_loop
value_start_loop-equals_loop [] i d q e = refl
value_start_loop-equals_loop (v ∷ rest) i d q e =
    let (q', e') = quoted_step v q e in
    let here : i + 1 - i ≡ 1 = omega arith in
    let back =
      λ (o : Option ℕ) (low : (j : ℕ) → o ≡ some j → i + 1 ≤ j). value_at_cons v rest i o low in
    let low = λ (d' q' : ℕ) (e' : Bool) (j : ℕ) (h : equals_loop rest (i + 1) d' q' e' ≡ some j).
      (equals_loop_bounds rest (i + 1) d' q' e' j h).0 in
    elim (Bool-cases (q == 0)) [
      | inr inside ↦ rw inside (
          value_start_loop-equals_loop rest (i + 1) d q' e'
          ∙ back (equals_loop rest (i + 1) d q' e') (low d q' e'))
      | inl outside ↦ elim (Bool-cases (is_quote v)) [
        | inl opens ↦
            rw (outside, opens)
              (value_start_loop-equals_loop rest (i + 1) d v e
                ∙ back (equals_loop rest (i + 1) d v e) (low d v e))
        | inr plain ↦ elim (Bool-cases (v == equals_sign && d == 0)) [
          | inl sign ↦ rw (outside, plain, sign, here) refl
          | inr other ↦
              rw (outside, plain, other)
                (value_start_loop-equals_loop rest (i + 1) (next_depth v d) q e
                  ∙ back (equals_loop rest (i + 1) (next_depth v d) q e) (low (next_depth v d) q e))
        ]
      ]
    ]

abbrev shifted : ℕ → Option ℕ → Option ℕ
shifted n none = none
shifted n (some j) = some (j + n)

equals_loop_shift :
    (rest : Bytes) (i n d q : ℕ) (e : Bool)
    → equals_loop rest (i + n) d q e ≡ shifted n (equals_loop rest i d q e)
unfolding equals_loop
equals_loop_shift [] i n d q e = refl
equals_loop_shift (v ∷ rest) i n d q e =
    let next : i + n + 1 ≡ i + 1 + n = omega arith in
    rw next (
      ground (
        arith,
        equals_loop_shift rest (i + 1) n d (quoted_step v q e).0 (quoted_step v q e).1,
        equals_loop_shift rest (i + 1) n d v e,
        equals_loop_shift rest (i + 1) n (next_depth v d) q e,
      ))

module _ (is_word : ℕ → Bool) where
  abbrev name_at : Bytes → Option ℕ → Option Bytes
  name_at argument none = none
  name_at argument (some j) = keyword_name is_word (take j argument)

  keyword_loop-equals_loop :
      (argument rest : Bytes) (i d q : ℕ) (e : Bool)
      → keyword_loop is_word argument rest i d q e ≡ name_at argument (equals_loop rest i d q e)
  unfolding equals_loop keyword_loop
  keyword_loop-equals_loop argument [] i d q e = refl
  keyword_loop-equals_loop argument (v ∷ rest) i d q e =
      let (q', e') = quoted_step v q e in
      elim (Bool-cases (q == 0)) [
        | inr inside ↦ rw inside (keyword_loop-equals_loop argument rest (i + 1) d q' e')
        | inl outside ↦ elim (Bool-cases (is_quote v)) [
          | inl opens ↦ rw (outside, opens) (keyword_loop-equals_loop argument rest (i + 1) d v e)
          | inr plain ↦ elim (Bool-cases (v == equals_sign && d == 0)) [
            | inl sign ↦ rw (outside, plain, sign) refl
            | inr other ↦
                rw (outside, plain, other)
                  (keyword_loop-equals_loop argument rest (i + 1) (next_depth v d) q e)
          ]
        ]
      ]

first_argument_loop-positional_loop :
    (rest : Bytes) (i d q : ℕ) (e : Bool)
    → first_argument_loop rest i d q e
      ≡ (elim (positional_loop rest i d q e) [ none ↦ i + length rest | some j ↦ j ])
unfolding first_argument_loop positional_loop
first_argument_loop-positional_loop [] i d q e = omega arith
first_argument_loop-positional_loop (v ∷ rest) i d q e = ground (
  arith,
  first_argument_loop-positional_loop rest (i + 1) d (quoted_step v q e).0 (quoted_step v q e).1,
  first_argument_loop-positional_loop rest (i + 1) d v e,
  first_argument_loop-positional_loop rest (i + 1) (next_depth v d) q e,
)

abbrev pub name_behind : (ℕ → Bool) → Bytes → ℕ → Option ℕ → Option Bytes
name_behind is_word argument start none = none
name_behind is_word argument start (some j) = keyword_name is_word (take (j - start) argument)

name_behind-shifted :
    (is_word : ℕ → Bool) (argument : Bytes) (start : ℕ) (o : Option ℕ)
    → name_at is_word argument o ≡ name_behind is_word argument start (shifted start o)
name_behind-shifted is_word argument start none = refl
name_behind-shifted is_word argument start (some j) =
    let e : j + start - start ≡ j = omega arith in rw e refl

-- The three scans of an argument agree on its sign `=`: `argumentKeyword` takes the text in front
-- of the sign that `topLevelEquals` finds, and `keywordArgumentValueStart` skips the spaces
-- behind it; without a sign all three find nothing.
pub argument_keyword-top_level_equals :
    (is_word : ℕ → Bool) (source : Bytes) (start end : ℕ)
    → let equals = top_level_equals source (record { start = start; end = end }) in
      let argument = slice start end source in
      (argument_keyword is_word argument ≡ name_behind is_word argument start equals)
      × (keyword_argument_value_start source start end ≡ value_at argument start equals)
unfolding argument_keyword top_level_equals keyword_argument_value_start
argument_keyword-top_level_equals is_word source start end =
    let argument = slice start end source in
    let e : 0 + start ≡ start = omega arith in
    let moved =
      ap (λ s. equals_loop argument s 0 0 false) (sym e)
      ∙ equals_loop_shift argument 0 start 0 0 false in
    (
      keyword_loop-equals_loop is_word argument argument 0 0 0 false
          ∙ name_behind-shifted is_word argument start (equals_loop argument 0 0 0 false)
          ∙ ap (name_behind is_word argument start) (sym moved),
      value_start_loop-equals_loop argument start 0 0 false,
    )

nonempty_text-cases :
    (s : Bytes) → (nonempty_text s ≡ some s) ⊎ ((nonempty_text s ≡ none) × (s ≡ []))
nonempty_text-cases [] = inr (refl, refl)
nonempty_text-cases (b ∷ s) = inl refl

-- `firstPositionalArg` gives the trimmed text of what `firstCallArgument` finds, and nothing only
-- where the arguments are blank.
pub first_positional_arg-first_call_argument :
    (args : Bytes)
    → (first_positional_arg args ≡ some (trim_space (first_call_argument args)))
      ⊎ ((first_positional_arg args ≡ none) × (trim_space args ≡ []))
unfolding first_positional_arg first_call_argument
first_positional_arg-first_call_argument args =
    elim (Option-cases (positional_loop args 0 0 0 false)) [
      | inl whole ↦
          let all : first_argument_loop args 0 0 0 false ≡ length args =
            ground (arith, first_argument_loop-positional_loop args 0 0 0 false) in
          let same : take (first_argument_loop args 0 0 0 false) args ≡ args =
            ap (λ n. take n args) all ∙ take_all (length args) args (omega arith) in
          elim (nonempty_text-cases (trim_space args)) [
            | inl full ↦
                inl (
                  rw (first_positional_arg, whole)
                    (full ∙ ap (λ s. some (trim_space s)) (sym same)))
            | inr (empty, blank) ↦ inr (rw (first_positional_arg, whole) empty, blank)
          ]
      | inr (j, comma_at) ↦
          let all : first_argument_loop args 0 0 0 false ≡ j =
            ground (arith, first_argument_loop-positional_loop args 0 0 0 false) in
          inl (rw (first_positional_arg, comma_at, all) refl)
    ]
