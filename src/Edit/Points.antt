-- ===== src/Edit/Points.antt =====
-- The end point that `Change` computes from the replacement is where the new text really ends.
use pogo.Prelude.{
  ℕ, zero, suc, ◌+◌, ◌≤◌, ◌<◌, ◌≡◌, refl, sym, ap, ◌∙◌, [], ◌∷◌, ◌++◌, Option, none, some, arith,
  ◌==◌, if◌then◌else◌, length, length-append, length-take, take, drop, take-append,
  take-append_more, u32, Option-cases, inl, inr, Bytes,
}
use pogo.Edit.{
  Point, column_behind, count_feeds, last_feed, point_for_offset, replacement_end_point, splice,
}

count_feeds-append : (s t : Bytes) → count_feeds (s ++ t) ≡ count_feeds s + count_feeds t
unfolding count_feeds
count_feeds-append [] t = omega arith
count_feeds-append (b ∷ s) t = ground (arith, count_feeds-append s t)

abbrev last_of : ℕ → Option ℕ → Option ℕ → Option ℕ
last_of n left none = left
last_of n left (some i) = some (n + i)

last_feed-append :
    (s t : Bytes) → last_feed (s ++ t) ≡ last_of (length s) (last_feed s) (last_feed t)
unfolding last_feed
last_feed-append [] t = ground arith
last_feed-append (b ∷ s) t = ground (arith, last_feed-append s t)

-- A text has a last line feed exactly when it has any.
last_feed-count : (s : Bytes) → count_feeds s ≡ 0 → last_feed s ≡ none
unfolding last_feed count_feeds
last_feed-count [] h = refl
last_feed-count (b ∷ s) h = ground (arith, last_feed-count s)

last_feed-lt : (s : Bytes) (i : ℕ) → last_feed s ≡ some i → i < length s
unfolding last_feed
last_feed-lt [] i h = ground arith
last_feed-lt (b ∷ s) zero h = omega arith
last_feed-lt (b ∷ s) (suc i) h = ground (arith, last_feed-lt s i)

last_feed-none : (s : Bytes) → last_feed s ≡ none → count_feeds s ≡ 0
unfolding last_feed count_feeds
last_feed-none [] h = refl
last_feed-none (b ∷ s) h = ground (arith, last_feed-none s)

-- the point behind a whole text
abbrev end_point : Bytes → Point
end_point s = record {
  row = u32 (count_feeds s);
  column = u32 (column_behind (length s) (last_feed s));
}

point_for_offset-take :
    (source : Bytes) (k : ℕ)
    → k ≤ length source
    → point_for_offset source k ≡ end_point (take k source)
unfolding point_for_offset
point_for_offset-take source k h = ground (arith, length-take k source)

column_after :
    (ls lt : Option ℕ) (n m feeds : ℕ)
    → ((i : ℕ) → ls ≡ some i → i < n)
    → (lt ≡ none → feeds ≡ 0)
    → (feeds ≡ 0 → lt ≡ none)
    → (if feeds == 0 then u32 (u32 (column_behind n ls) + u32 m) else u32 (column_behind m lt))
      ≡ u32 (column_behind (n + m) (last_of n ls lt))
column_after ls none n m feeds fits h k =
    let zero_feeds = h refl in
    elim (Option-cases ls) [
      | inl none_left ↦ ground arith
      | inr (i, left) ↦ ground (arith, fits i left)
    ]
column_after ls (some j) n m feeds fits h k = ground arith

end_point-append : (s t : Bytes) → replacement_end_point (end_point s) t ≡ end_point (s ++ t)
unfolding replacement_end_point
end_point-append s t = ground (
  arith,
  column_after (last_feed s) (last_feed t) (length s) (length t) (count_feeds t) (last_feed-lt s)
      (last_feed-none t) (last_feed-count t),
  count_feeds-append s t,
  last_feed-append s t,
  length-append s t,
)

-- For every ranged change that starts inside the source, the end point handed to tree-sitter is
-- the point of the new end byte in the changed source.
pub replacement_end_point-splice :
    (source replacement : Bytes) (start end : ℕ)
    → start ≤ length source
    → replacement_end_point (point_for_offset source start) replacement
      ≡ point_for_offset (splice source start end replacement) (start + length replacement)
unfolding splice
replacement_end_point-splice source replacement start end h =
    let new = take start source ++ (replacement ++ drop end source) in
    let size : length (take start source) ≡ start = omega (arith, length-take start source) in
    let fits : start + length replacement ≤ length new = omega (
      arith,
      length-append (take start source) (replacement ++ drop end source),
      length-append replacement (drop end source),
    ) in
    let front : take (start + length replacement) new ≡ take start source ++ replacement =
      ap (λ n. take (n + length replacement) new) (sym size)
      ∙ take-append_more (length replacement) (take start source) (replacement ++ drop end source)
      ∙ ap (λ l. take start source ++ l) (take-append replacement (drop end source)) in
    ap (λ p. replacement_end_point p replacement) (point_for_offset-take source start h)
    ∙ end_point-append (take start source) replacement
    ∙ sym (point_for_offset-take new (start + length replacement) fits ∙ ap end_point front)
