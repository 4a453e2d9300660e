-- ===== src/Paths/Split/Pieces.antt =====
-- The texts of the segments of a path.
use pogo.Prelude.{
  ℕ, zero, suc, ◌+◌, ◌-◌, ◌≤◌, ◌<◌, get_elem?, get_elem?-drop, drop-drop, ◌≡◌, refl, sym, ap, ◌∙◌,
  inl, inr, true, ◌&&◌, List, [], ◌∷◌, ◌++◌, some, arith, ◌==◌, if◌then◌else◌, take, drop, slice,
  Bytes, Bool-cases,
}
use pogo.Store.{ByteRange}
use pogo.Paths.{PathSegment}
use pogo.Paths.Split.{
  underscore, Split, segment_at, pass_separator, split_loop, diagnostic_segment, diagnostic_loop,
}

abbrev pub texts : List PathSegment → List Bytes
texts [] = []
texts (segment ∷ segments) = segment.text ∷ texts segments

-- The pieces between double underscores, of a text behind the bytes of its first piece.
unfoldable pub pieces : Bytes → Bytes → List Bytes
pieces first [] = first ∷ []
pieces first (a ∷ []) = (first ++ a ∷ []) ∷ []
pieces first (a ∷ b ∷ rest) =
    let parted = pieces [] rest in
    let onward = pieces (first ++ a ∷ []) (b ∷ rest) in
    if a == underscore && b == underscore then first ∷ parted else onward

-- The texts with double underscores between them.
unfoldable pub joined : List Bytes → Bytes
joined [] = []
joined (text ∷ []) = text
joined (text ∷ next ∷ rest) = text ++ underscore ∷ underscore ∷ joined (next ∷ rest)

append_assoc : {A : Type 0} (xs ys zs : List A) → (xs ++ ys) ++ zs ≡ xs ++ (ys ++ zs)
append_assoc [] ys zs = refl
append_assoc (x ∷ xs) ys zs = ap (λ l. x ∷ l) (append_assoc xs ys zs)

append_nil : (xs : Bytes) → xs ++ [] ≡ xs
append_nil [] = refl
append_nil (x ∷ xs) = ap (λ l. x ∷ l) (append_nil xs)

joined_cons :
    (text first rest : Bytes)
    → joined (text ∷ pieces first rest)
      ≡ text ++ underscore ∷ underscore ∷ joined (pieces first rest)
unfolding joined pieces
joined_cons text first [] = refl
joined_cons text first (a ∷ []) = refl
joined_cons text first (a ∷ b ∷ rest) = elim (Bool-cases (a == underscore && b == underscore)) [
  | inl sep ↦ rw sep refl
  | inr other ↦ rw other (joined_cons text (first ++ a ∷ []) (b ∷ rest))
]

both_underscores :
    (a b : ℕ) → (a == underscore && b == underscore) ≡ true → (a ≡ underscore) × (b ≡ underscore)
both_underscores a b h = ground arith

pub joined-pieces : (first rest : Bytes) → joined (pieces first rest) ≡ first ++ rest
unfolding joined pieces
joined-pieces first [] = sym (append_nil first)
joined-pieces first (a ∷ []) = refl
joined-pieces first (a ∷ b ∷ rest) = elim (Bool-cases (a == underscore && b == underscore)) [
  | inl sep ↦
      let (l, r) = both_underscores a b sep in
      rw (sep, l, r)
        (joined_cons first [] rest
          ∙ ap (λ t. first ++ underscore ∷ underscore ∷ t) (joined-pieces [] rest))
  | inr other ↦
      rw other (joined-pieces (first ++ a ∷ []) (b ∷ rest) ∙ append_assoc first (a ∷ []) (b ∷ rest))
]

take_next :
    (k : ℕ) (xs : Bytes) (a : ℕ) → get_elem? xs k ≡ some a → take (suc k) xs ≡ take k xs ++ a ∷ []
take_next zero [] a h = absurd (cc)
take_next zero (x ∷ xs) a h = ground (arith, h)
take_next (suc k) [] a h = absurd (cc)
take_next (suc k) (x ∷ xs) a h = ap (λ l. x ∷ l) (take_next k xs a h)

take_cons :
    (n : ℕ) (ys : Bytes) (a : ℕ) (rest : Bytes)
    → a ∷ rest ≡ take n ys
    → (0 < n) × (get_elem? ys 0 ≡ some a) × (rest ≡ take (n - 1) (drop 1 ys))
take_cons zero ys a rest h = absurd (cc)
take_cons (suc n) [] a rest h = absurd (cc)
take_cons (suc n) (y ∷ ys) a rest h =
    let e : suc n - 1 ≡ n = omega arith in
    (omega arith, ground (arith, h), rw e (ground (arith, h)))

-- The loop at a byte: the text so far gets it, and the rest begins behind it.
pub slice_next :
    (source : Bytes) (start index end a : ℕ) (rest : Bytes)
    → start ≤ index
    → a ∷ rest ≡ slice index end source
    → (slice start (index + 1) source ≡ slice start index source ++ a ∷ [])
      × (rest ≡ slice (index + 1) end source)
slice_next source start index end a rest low h =
    let (room, first, behind) = take_cons (end - index) (drop index source) a rest h in
    let here : get_elem? (drop start source) (index - start) ≡ some a =
      get_elem?-drop start (index - start) source
      ∙ ap (get_elem? source)
          (let e : start + (index - start) ≡ index + 0 = omega (arith, low) in e)
      ∙ sym (get_elem?-drop index 0 source)
      ∙ first in
    let e1 : index + 1 - start ≡ suc (index - start) = omega (arith, low) in
    let e2 : end - (index + 1) ≡ end - index - 1 = omega arith in
    (
      rw e1 (take_next (index - start) (drop start source) a here),
      rw (e2, ← drop-drop 1 index source) behind,
    )

pub slice_empty : (source : Bytes) (index : ℕ) → slice index index source ≡ []
slice_empty source index = let e : index - index ≡ 0 = omega arith in rw e refl

texts-append : (l m : List PathSegment) → texts (l ++ m) ≡ texts l ++ texts m
texts-append [] m = refl
texts-append (x ∷ l) m = ap (λ r. x.text ∷ r) (texts-append l m)

pub split_loop-pieces :
    (source : Bytes) (offset end : ℕ) (s : Split) (index : ℕ) (rest : Bytes)
    → s.start ≤ index
    → rest ≡ slice index end source
    → texts (split_loop source offset s index rest).segments
      ≡ texts s.segments ++ pieces (slice s.start index source) rest
unfolding split_loop pieces
split_loop-pieces source offset end s index [] low h =
    texts-append s.segments (segment_at source s.start index ∷ [])
split_loop-pieces source offset end s index (a ∷ []) low h =
    texts-append s.segments (segment_at source s.start (index + 1) ∷ [])
    ∙ ap (λ t. texts s.segments ++ t ∷ []) (slice_next source s.start index end a [] low h).0
split_loop-pieces source offset end s index (a ∷ b ∷ rest) low h =
    let (grown, behind) = slice_next source s.start index end a (b ∷ rest) low h in
    elim (Bool-cases (a == underscore && b == underscore)) [
      | inl sep ↦
          let (_, behind') =
            slice_next source (index + 1) (index + 1) end b rest (omega arith) behind in
          let two : index + 1 + 1 ≡ index + 2 = omega arith in
          let onward : texts
                (split_loop source offset (pass_separator source offset index s) (index + 2)
                  rest).segments
              ≡ texts (s.segments ++ segment_at source s.start index ∷ [])
                ++ pieces (slice (index + 2) (index + 2) source) rest =
            split_loop-pieces source offset end (pass_separator source offset index s) (index + 2)
              rest (omega arith) (rw (← two) behind') in
          rw sep (
            onward
            ∙ ap (λ t. texts (s.segments ++ segment_at source s.start index ∷ []) ++ pieces t rest)
                (slice_empty source (index + 2))
            ∙ ap (λ l. l ++ pieces [] rest)
                (texts-append s.segments (segment_at source s.start index ∷ []))
            ∙ append_assoc (texts s.segments) (slice s.start index source ∷ []) (pieces [] rest))
      | inr other ↦
          rw (other, ← grown)
            (split_loop-pieces source offset end s (index + 1) (b ∷ rest) (omega (arith, low))
              behind)
    ]

diagnostic_segment_text :
    (source : Bytes) (path : ByteRange) (start index : ℕ)
    → (diagnostic_segment source path start index).text ≡ slice start index source
diagnostic_segment_text source path start index = elim (Bool-cases (start == index)) [
  | inl same ↦
      let e : start ≡ index = ground (arith, same) in rw (same, e) (sym (slice_empty source index))
  | inr apart ↦ rw apart refl
]

pub diagnostic_loop-pieces :
    (source : Bytes) (path : ByteRange) (end start index : ℕ) (rest : Bytes)
    → start ≤ index
    → rest ≡ slice index end source
    → texts (diagnostic_loop source path start index rest) ≡ pieces (slice start index source) rest
unfolding diagnostic_loop pieces
diagnostic_loop-pieces source path end start index [] low h =
    ap (λ t. t ∷ []) (diagnostic_segment_text source path start index)
diagnostic_loop-pieces source path end start index (a ∷ []) low h =
    ap (λ t. t ∷ [])
      (diagnostic_segment_text source path start (index + 1)
        ∙ (slice_next source start index end a [] low h).0)
diagnostic_loop-pieces source path end start index (a ∷ b ∷ rest) low h =
    let (grown, behind) = slice_next source start index end a (b ∷ rest) low h in
    elim (Bool-cases (a == underscore && b == underscore)) [
      | inl sep ↦
          let (_, behind') =
            slice_next source (index + 1) (index + 1) end b rest (omega arith) behind in
          let two : index + 1 + 1 ≡ index + 2 = omega arith in
          let onward =
            diagnostic_loop-pieces source path end (index + 2) (index + 2) rest (omega arith)
              (rw (← two) behind') in
          rw sep (
            ap (λ t. t ∷ texts (diagnostic_loop source path (index + 2) (index + 2) rest))
              (diagnostic_segment_text source path start index)
            ∙ ap (λ l. slice start index source ∷ l)
                (onward ∙ ap (λ t. pieces t rest) (slice_empty source (index + 2))))
      | inr other ↦
          rw (other, ← grown)
            (diagnostic_loop-pieces source path end start (index + 1) (b ∷ rest)
              (omega (arith, low)) behind)
    ]
