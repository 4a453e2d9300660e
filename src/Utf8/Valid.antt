-- ===== src/Utf8/Valid.antt =====
-- `utf8.Valid` as a predicate: the text is a sequence of runes.
use pogo.Prelude.{
  ℕ, zero, suc, ◌+◌, ◌-◌, ◌≤◌, ◌≡◌, ap, ◌∙◌, inl, inr, true, false, [], ◌∷◌, some, arith, length,
  drop, length-drop, drop-drop, get_elem?-drop, get_elem?, dec_lt, subst, Bytes, Bool-cases,
}
use pogo.Utf8.{decode_rune, is_bad, rune_start, valid_loop, valid}
use pogo.Utf8.Runes.{
  decode_rune_size, decode_rune-rune_start, decode_rune-get_elem?, decode_rune_ascii,
}

pub data IsUtf8 : Bytes → Type 0 where
  done : IsUtf8 []
  rune :
      (a : ℕ) (s : Bytes)
      → is_bad (decode_rune (a ∷ s)) ≡ false
      → IsUtf8 (drop (decode_rune (a ∷ s)).1 (a ∷ s))
      → IsUtf8 (a ∷ s)

valid_loop→IsUtf8 : (fuel : ℕ) (s : Bytes) → valid_loop fuel s ≡ true → IsUtf8 s
unfolding valid_loop
valid_loop→IsUtf8 fuel [] h = done
valid_loop→IsUtf8 zero (a ∷ s) h = cc
valid_loop→IsUtf8 (suc fuel) (a ∷ s) h = elim (Bool-cases (is_bad (decode_rune (a ∷ s)))) [
  | inl bad ↦ absurd (ground arith)
  | inr good ↦
      rune a s good (valid_loop→IsUtf8 fuel (drop (decode_rune (a ∷ s)).1 (a ∷ s)) (ground arith))
]

pub valid→IsUtf8 : (s : Bytes) → valid s ≡ true → IsUtf8 s
unfolding valid
valid→IsUtf8 s h = valid_loop→IsUtf8 (length s) s h

pub IsUtf8-rune_start : (a : ℕ) (s : Bytes) → IsUtf8 (a ∷ s) → rune_start a ≡ true
IsUtf8-rune_start a s (rune _ _ good _) = decode_rune-rune_start a s good

pub IsUtf8-drop_rune :
    (a : ℕ) (s : Bytes) → IsUtf8 (a ∷ s) → IsUtf8 (drop (decode_rune (a ∷ s)).1 (a ∷ s))
IsUtf8-drop_rune a s (rune _ _ _ rest) = rest

IsUtf8-after_line_feed_acc :
    (f i : ℕ) (s : Bytes)
    → length s ≤ f
    → IsUtf8 s
    → get_elem? s i ≡ some 10
    → IsUtf8 (drop (suc i) s)
IsUtf8-after_line_feed_acc f i [] le u h = absurd (ground arith)
IsUtf8-after_line_feed_acc zero i (a ∷ s) le u h = absurd (omega arith)
IsUtf8-after_line_feed_acc (suc f) zero (a ∷ s) le (rune _ _ good rest) h =
    let one : (decode_rune (a ∷ s)).1 ≡ 1 = ap (λ p. p.1) (decode_rune_ascii a s (ground arith)) in
    subst (λ n. IsUtf8 (drop n (a ∷ s))) one rest
IsUtf8-after_line_feed_acc (suc f) (suc i) (a ∷ s) le (rune _ _ good rest) h =
    let n = (decode_rune (a ∷ s)).1 in
    let (pos, short) = decode_rune_size a s in
    elim (dec_lt (suc i) n) [
      | yes inside ↦ absurd (omega (arith, decode_rune-get_elem? (a ∷ s) i good inside h))
      | no outside ↦
          let j = suc i - n in
          let e : n + j ≡ suc i = omega arith in
          let tail : IsUtf8 (drop (suc j) (drop n (a ∷ s))) =
            IsUtf8-after_line_feed_acc f j (drop n (a ∷ s)) (omega (arith, length-drop n (a ∷ s)))
              rest (get_elem?-drop n j (a ∷ s) ∙ rw e h) in
          let e2 : n + suc j ≡ suc (suc i) = omega arith in
          subst (λ m. IsUtf8 (drop m (a ∷ s))) e2 (rw drop-drop at tail)
    ]

-- Behind a line feed a valid text is valid again.
pub IsUtf8-after_line_feed :
    (i : ℕ) (s : Bytes) → IsUtf8 s → get_elem? s i ≡ some 10 → IsUtf8 (drop (suc i) s)
IsUtf8-after_line_feed i s u h = IsUtf8-after_line_feed_acc (length s) i s (omega arith) u h
