-- ===== src/Position/RoundTrip.antt =====
-- `ByteOffset` and `PositionAt` of document.go undo one another.
use pogo.Prelude.{
  ℕ, zero, suc, ◌+◌, ◌-◌, ◌≤◌, ◌<◌, ◌≡◌, refl, sym, ap, ◌∙◌, ◌⊎◌, inl, inr, true, false, [], ◌∷◌,
  none, some, arith, ltb, not, ◌&&◌, ◌||◌, if◌then◌else◌, ◌==◌, u32, length, take, drop, slice,
  length-drop, length-take, drop-drop, get_elem?-drop, get_elem?, Option-cases, dec_lt, subst,
  Bytes, Bool-cases,
}
use pogo.Utf8.{rune_start, valid}
use pogo.Utf8.Valid.{IsUtf8, valid→IsUtf8, IsUtf8-rune_start, IsUtf8-after_line_feed}
use pogo.Position.{
  Position, line_feed, carriage_return, byte_at, line_bounds, scan_lines, offset_loop, units_loop,
  byte_offset, position_from, position_at,
}
use pogo.Position.Lines.{line_bounds-le, line_bounds-scan, line_bounds-find, InsideCrlf}
use pogo.Position.Walk.{offset_loop-StopsAt, units_loop-walk}

-- The line that the scan reports starts behind a line feed, or where the scan began.
scan_lines-start :
    (s : Bytes) (index line start : ℕ)
    → ((scan_lines s index line start).1 ≡ start)
      ⊎ ((i : ℕ) × (get_elem? s i ≡ some line_feed)
          × ((scan_lines s index line start).1 ≡ index + suc i))
unfolding scan_lines
scan_lines-start [] index line start = inl refl
scan_lines-start (v ∷ s) index line start =
    elim (scan_lines-start s (index + 1) (if v == line_feed then u32 (line + 1) else line)
      (if v == line_feed then index + 1 else start)) [
        | inl same ↦ elim (Bool-cases (v == line_feed)) [
          | inl feed ↦ inr (0, ground arith, ground (arith, same))
          | inr other ↦ inl (ground (arith, same))
        ]
        | inr (i, at, eq) ↦ inr (suc i, at, omega arith)
      ]

get_elem?-take :
    (k i : ℕ) (s : Bytes) {v : ℕ} → get_elem? (take k s) i ≡ some v → get_elem? s i ≡ some v
get_elem?-take zero i s h = absurd (cc)
get_elem?-take (suc k) i [] h = h
get_elem?-take (suc k) zero (a ∷ s) h = h
get_elem?-take (suc k) (suc i) (a ∷ s) h = get_elem?-take k i s h

-- From the start of any line on, a valid text is valid.
IsUtf8-line :
    (source : Bytes) (k line start : ℕ)
    → IsUtf8 source
    → scan_lines (take k source) 0 0 0 ≡ (line, start)
    → IsUtf8 (drop start source)
IsUtf8-line source k line start u scan = elim (scan_lines-start (take k source) 0 0 0) [
  | inl same ↦
      let e : 0 ≡ start = omega (arith, ap (λ p. p.1) scan) in
      subst (λ n. IsUtf8 (drop n source)) e u
  | inr (i, at, eq) ↦
      let e : suc i ≡ start = omega (arith, ap (λ p. p.1) scan) in
      subst (λ n. IsUtf8 (drop n source)) e
        (IsUtf8-after_line_feed i source u (get_elem?-take k i source at))
]

byte_at-rune_start :
    (source : Bytes) (i : ℕ)
    → IsUtf8 (drop i source)
    → i < length source
    → rune_start (byte_at source i) ≡ true
byte_at-rune_start [] i u h = absurd (omega arith)
byte_at-rune_start (a ∷ s) zero u h = IsUtf8-rune_start a s u
byte_at-rune_start (a ∷ s) (suc i) u h = byte_at-rune_start s i u (omega arith)

in_range_test :
    (source : Bytes) (offset : ℕ)
    → offset ≤ length source
    → (offset < length source → rune_start (byte_at source offset) ≡ true)
    → (ltb (length source) offset
        || (ltb offset (length source) && not (rune_start (byte_at source offset))))
      ≡ false
in_range_test source offset le boundary = elim (dec_lt offset (length source)) [
  | yes l ↦ ground (arith, boundary l)
  | no g ↦ ground arith
]

position_from_lem :
    (source : Bytes) (offset line start character : ℕ)
    → units_loop (suc (length (slice start offset source))) (slice start offset source) 0
      ≡ some character
    → position_from source offset (line, start)
      ≡ some (record { line = line; character = character })
unfolding position_from
position_from_lem source offset line start character count = rw (position_from, count)

position_at_in_range :
    (source : Bytes) (offset : ℕ)
    → offset ≤ length source
    → (offset < length source → rune_start (byte_at source offset) ≡ true)
    → position_at source offset
      ≡ position_from source offset (scan_lines (take offset source) 0 0 0)
unfolding position_at
position_at_in_range source offset le boundary =
    rw (position_at, in_range_test source offset le boundary)

-- What `PositionAt` returns, from its parts.
position_at_lem :
    (source : Bytes) (offset line start character : ℕ)
    → scan_lines (take offset source) 0 0 0 ≡ (line, start)
    → offset ≤ length source
    → (offset < length source → rune_start (byte_at source offset) ≡ true)
    → units_loop (suc (length (slice start offset source))) (slice start offset source) 0
      ≡ some character
    → position_at source offset ≡ some (record { line = line; character = character })
position_at_lem source offset line start character scan le boundary count =
    position_at_in_range source offset le boundary
    ∙ ap (position_from source offset) scan
    ∙ position_from_lem source offset line start character count

byte_offset-none :
    (source : Bytes) (p : Position) → line_bounds source p.line ≡ none → byte_offset source p ≡ none
unfolding byte_offset
byte_offset-none source p missing = rw (byte_offset, missing)

byte_offset-some :
    (source : Bytes) (p : Position) (s e : ℕ)
    → line_bounds source p.line ≡ some (s, e)
    → byte_offset source p
      ≡ offset_loop (suc (length (slice s e source))) (slice s e source) s 0 p.character
unfolding byte_offset
byte_offset-some source p s e found = rw (byte_offset, found)

-- What `ByteOffset` has found, if it succeeds.
byte_offset_inv :
    (source : Bytes) (p : Position) (off : ℕ)
    → byte_offset source p ≡ some off
    → (s : ℕ) × (e : ℕ) × (line_bounds source p.line ≡ some (s, e))
      × (offset_loop (suc (length (slice s e source))) (slice s e source) s 0 p.character
          ≡ some off)
byte_offset_inv source p off h = elim (Option-cases (line_bounds source p.line)) [
  | inl missing ↦ absurd (cc (byte_offset-none source p missing))
  | inr ((s, e), found) ↦ (s, e, found, sym (byte_offset-some source p s e found) ∙ h)
]

-- In a valid source the offset of a position is at that position: `PositionAt` gives back the
-- very position that `ByteOffset` has resolved.
pub position_at-byte_offset :
    (source : Bytes) (p : Position) (off : ℕ)
    → valid source ≡ true
    → byte_offset source p ≡ some off
    → position_at source off ≡ some p
position_at-byte_offset source p off v h =
    let u = valid→IsUtf8 source v in
    let (s, e, found, walk) = byte_offset_inv source p off h in
    let (se, el) = line_bounds-le source p.line s e found in
    let (scan_s, _) = line_bounds-scan source p.line s e s found (omega arith) se in
    let (k, at, km, stop) =
      offset_loop-StopsAt (suc (length (slice s e source))) (drop s source) (e - s) s 0 p.character
        off (IsUtf8-line source s p.line s u scan_s) walk in
    let (kl, boundary, count) = stop in
    let (scan, _) = line_bounds-scan source p.line s e off found (omega arith) (omega arith) in
    let ek : off - s ≡ k = omega arith in
    let eo : s + k ≡ off = omega arith in
    let tail : IsUtf8 (drop off source) =
      subst (λ n. IsUtf8 (drop n source)) eo (subst IsUtf8 (drop-drop k s source) boundary) in
    let counted =
      subst
        (λ n.
          units_loop (suc (length (take n (drop s source)))) (take n (drop s source)) 0
          ≡ some p.character)
        (sym ek)
        (count (suc (length (take k (drop s source))))
          (omega (arith, length-take k (drop s source)))) in
    position_at_lem source off p.line s p.character scan (omega arith)
      (byte_at-rune_start source off tail) counted

-- What `PositionAt` has found, if it succeeds.
position_at_inv :
    (source : Bytes) (off : ℕ) (p : Position)
    → position_at source off ≡ some p
    → (off ≤ length source)
      × (position_from source off (scan_lines (take off source) 0 0 0) ≡ some p)
unfolding position_at
position_at_inv source off p h = ground arith

position_from_inv :
    (source : Bytes) (off line start : ℕ) (p : Position)
    → position_from source off (line, start) ≡ some p
    → (p.line ≡ line)
      × (units_loop (suc (length (slice start off source))) (slice start off source) 0
          ≡ some p.character)
unfolding position_from
position_from_inv source off line start p h = ground arith

-- The offset stands between the two bytes of a CRLF, which no editor position can name.
abbrev pub SplitsCrlf : Bytes → ℕ → Type 0
SplitsCrlf source zero = ⊥
SplitsCrlf source (suc i) =
    (byte_at source i ≡ carriage_return) × (get_elem? source (suc i) ≡ some line_feed)

outside_crlf :
    (source : Bytes) (off e : ℕ)
    → ¬ SplitsCrlf source off
    → (off ≤ e) ⊎ InsideCrlf source (drop off source) off e
    → off ≤ e
outside_crlf source off e whole (inl le) = le
outside_crlf source zero e whole (inr (feed, return, eq)) = omega arith
outside_crlf source (suc i) e whole (inr (feed, return, eq)) =
    let ie : e ≡ i = omega arith in
    let zero_behind : suc i + 0 ≡ suc i = omega arith in
    absurd (
      whole (
        subst (λ n. byte_at source n ≡ carriage_return) ie return,
        subst (λ n. get_elem? source n ≡ some line_feed) zero_behind
            (sym (get_elem?-drop (suc i) 0 source) ∙ feed),
      ))

scan_lines-start-le :
    (s : Bytes) (index line start : ℕ)
    → start ≤ index
    → (scan_lines s index line start).1 ≤ index + length s
unfolding scan_lines
scan_lines-start-le [] index line start h = omega arith
scan_lines-start-le (v ∷ s) index line start h = omega (
  arith,
  scan_lines-start-le s (index + 1) (if v == line_feed then u32 (line + 1) else line)
      (if v == line_feed then index + 1 else start) (ground arith),
)

-- A source below 4 GiB: the position of an offset resolves to that very offset, unless the offset
-- stands between the two bytes of a CRLF.
pub byte_offset-position_at :
    (source : Bytes) (off : ℕ) (p : Position)
    → length source < 4294967296
    → ¬ SplitsCrlf source off
    → position_at source off ≡ some p
    → byte_offset source p ≡ some off
byte_offset-position_at source off p small whole h =
    let (le, from) = position_at_inv source off p h in
    let pair = scan_lines (take off source) 0 0 0 in
    let (line_eq, count) = position_from_inv source off pair.0 pair.1 p from in
    let s = pair.1 in
    let so : s ≤ off =
      omega (
        arith,
        scan_lines-start-le (take off source) 0 0 0 (omega arith),
        length-take off source,
      ) in
    let (e, found, where_) = line_bounds-find source off pair.0 s le small refl in
    let oe : off ≤ e = outside_crlf source off e whole where_ in
    let back : s + (off - s) ≡ off = omega arith in
    byte_offset-some source p s e
      (subst (λ l. line_bounds source l ≡ some (s, e)) (sym line_eq) found)
    ∙ units_loop-walk (suc (length (slice s off source))) (off - s)
        (suc (length (slice s e source))) (drop s source) (e - s) s 0 p.character (omega arith)
        (omega (arith, length-drop s source))
        (omega (
          arith,
          length-drop s source,
          length-take (e - s) (drop s source),
          line_bounds-le source pair.0 s e found,
        ))
        (omega arith) count
    ∙ ap some back

-- An offset that a position resolves to lies in the source.
pub byte_offset-le :
    (source : Bytes) (p : Position) (off : ℕ)
    → valid source ≡ true
    → byte_offset source p ≡ some off
    → off ≤ length source
byte_offset-le source p off v h =
    (position_at_inv source off p (position_at-byte_offset source p off v h)).0
