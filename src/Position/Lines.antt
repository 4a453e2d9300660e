-- ===== src/Position/Lines.antt =====
-- `lineBounds` and the line count of `PositionAt` agree on where a line starts.
use pogo.Prelude.{
  ℕ, zero, suc, ◌+◌, ◌≤◌, ◌<◌, ◌≡◌, refl, sym, ap, subst, ◌∙◌, inl, inr, [], ◌∷◌, some, arith, ◌==◌,
  if◌then◌else◌, Bool-cases, u32, length, take, drop, length-take, ◌⊎◌, Bytes, get_elem?,
}
use pogo.Position.{
  line_feed, carriage_return, byte_at, trim_return, bounds_loop, line_bounds, scan_lines,
}

-- The start of the line that the scan reports never falls behind.
pub scan_lines_mono :
    (s : Bytes) (index line start : ℕ) → start ≤ index → start ≤ (scan_lines s index line start).1
unfolding scan_lines
scan_lines_mono [] index line start h = omega arith
scan_lines_mono (v ∷ s) index line start h = ground (
  arith,
  scan_lines_mono s (index + 1) (u32 (line + 1)) (index + 1),
  scan_lines_mono s (index + 1) line start,
)

-- A scan that reports a start at or before the index has met no line feed.
pub scan_lines_stay :
    (s : Bytes) (index line start : ℕ)
    → start ≤ index
    → (scan_lines s index line start).1 ≤ index
    → scan_lines s index line start ≡ (line, start)
unfolding scan_lines
scan_lines_stay [] index line start h le = refl
scan_lines_stay (v ∷ s) index line start h le = ground (
  arith,
  scan_lines_mono s (index + 1) (u32 (line + 1)) (index + 1),
  scan_lines_stay s (index + 1) line start,
)

-- Cutting the text inside its last line does not change the scan.
pub scan_lines-take :
    (k : ℕ) (s : Bytes) (index line start : ℕ)
    → start ≤ index
    → (scan_lines s index line start).1 ≤ index + k
    → scan_lines (take k s) index line start ≡ scan_lines s index line start
unfolding scan_lines
scan_lines-take zero s index line start h le =
    sym (scan_lines_stay s index line start h (omega arith))
scan_lines-take (suc k) [] index line start h le = refl
scan_lines-take (suc k) (v ∷ s) index line start h le =
    scan_lines-take k s (index + 1) (if v == line_feed then u32 (line + 1) else line)
      (if v == line_feed then index + 1 else start) (ground arith) (omega arith)

-- What `bounds_loop` returns, in the terms of the scan.
abbrev pub AtLine : ℕ → Bytes → ℕ → ℕ → ℕ → ℕ → ℕ → Type 0
AtLine target rest index line start s e =
    (j : ℕ) × (j ≤ length rest)
    × (scan_lines (take j rest) index line start ≡ (target, s))
    × (s ≤ e)
    × (e ≤ index + j)

pub bounds_loop-AtLine :
    (source rest : Bytes) (target index line start s e : ℕ)
    → start ≤ index
    → length source ≡ index + length rest
    → bounds_loop source target rest index line start ≡ some (s, e)
    → AtLine target rest index line start s e
unfolding bounds_loop scan_lines
bounds_loop-AtLine source [] target index line start s e le len h =
    (0, omega arith, ground arith, ground arith, ground arith)
bounds_loop-AtLine source (v ∷ rest) target index line start s e le len h =
    elim (Bool-cases (v == line_feed)) [
      | inl feed ↦ elim (Bool-cases (line == target)) [
        | inl hit ↦ (0, omega arith, ground arith, ground arith, ground arith)
        | inr miss ↦
            let (j, jle, scan, sle, ele) =
              bounds_loop-AtLine source rest target (index + 1) (u32 (line + 1)) (index + 1) s e
                (omega arith) (omega arith) (ground arith) in
            (suc j, omega arith, ground (arith, scan), sle, omega arith)
      ]
      | inr other ↦
          let (j, jle, scan, sle, ele) =
            bounds_loop-AtLine source rest target (index + 1) line start s e (omega arith)
              (omega arith) (ground arith) in
          (suc j, omega arith, ground (arith, scan), sle, omega arith)
    ]

take-take : (i j : ℕ) (s : Bytes) → i ≤ j → take i (take j s) ≡ take i s
take-take zero j s h = refl
take-take (suc i) zero s h = absurd (omega arith)
take-take (suc i) (suc j) [] h = refl
take-take (suc i) (suc j) (v ∷ s) h = ap (λ l. v ∷ l) (take-take i j s (omega arith))

-- Inside the bounds of a line the scan reports that line and its start.
pub line_bounds-scan :
    (source : Bytes) (target s e k : ℕ)
    → line_bounds source target ≡ some (s, e)
    → s ≤ k
    → k ≤ e
    → (scan_lines (take k source) 0 0 0 ≡ (target, s)) × (e ≤ length source)
unfolding line_bounds
line_bounds-scan source target s e k h lo hi =
    let (j, jle, scan, sle, ele) =
      bounds_loop-AtLine source source target 0 0 0 s e (omega arith) (omega arith) h in
    (
      rw (← take-take k j source (omega arith)) (
          scan_lines-take k (take j source) 0 0 0 (omega arith) (omega (arith, ap (λ p. p.1) scan))
          ∙ scan),
      omega arith,
    )

pub line_bounds-le :
    (source : Bytes) (target s e : ℕ)
    → line_bounds source target ≡ some (s, e)
    → (s ≤ e) × (e ≤ length source)
unfolding line_bounds
line_bounds-le source target s e h =
    let (j, jle, scan, sle, ele) =
      bounds_loop-AtLine source source target 0 0 0 s e (omega arith) (omega arith) h in
    (sle, omega arith)

-- Without wrap-around the line number never falls.
scan_lines-line_mono :
    (s : Bytes) (index line start : ℕ)
    → line + length s < 4294967296
    → line ≤ (scan_lines s index line start).0
unfolding scan_lines
scan_lines-line_mono [] index line start h = omega arith
scan_lines-line_mono (v ∷ s) index line start h = ground (
  arith,
  scan_lines-line_mono s (index + 1) (u32 (line + 1)) (index + 1),
  scan_lines-line_mono s (index + 1) line start,
)

-- The index stands between the two bytes of a CRLF that the bounds of the line leave out.
abbrev pub InsideCrlf : Bytes → Bytes → ℕ → ℕ → Type 0
InsideCrlf source rest index e =
    (get_elem? rest 0 ≡ some line_feed) × (byte_at source e ≡ carriage_return) × (index ≡ suc e)

-- On the target line the loop runs to its end, at or behind the index.
bounds_loop-finish :
    (source rest : Bytes) (index line start : ℕ)
    → start ≤ index
    → length source ≡ index + length rest
    → (e : ℕ) × (bounds_loop source line rest index line start ≡ some (start, e))
      × (index ≤ suc e)
      × ((index ≤ e) ⊎ InsideCrlf source rest index e)
unfolding bounds_loop
bounds_loop-finish source [] index line start le len =
    (length source, ground arith, omega arith, inl (omega arith))
bounds_loop-finish source (v ∷ rest) index line start le len = elim (Bool-cases (v == line_feed)) [
  | inl feed ↦ (trim_return source start index, ground arith, ground arith, ground arith)
  | inr other ↦
      let (e, eq, near, _) =
        bounds_loop-finish source rest (index + 1) line start (omega arith) (omega arith) in
      (e, ground (arith, eq), omega arith, inl (omega arith))
]

-- The loop finds the line that the scan of the first `k` bytes reports.
pub bounds_loop-find :
    (k : ℕ) (source rest : Bytes) (target index line start s : ℕ)
    → start ≤ index
    → length source ≡ index + length rest
    → k ≤ length rest
    → line + length rest < 4294967296
    → scan_lines (take k rest) index line start ≡ (target, s)
    → (e : ℕ) × (bounds_loop source target rest index line start ≡ some (s, e))
      × ((index + k ≤ e) ⊎ InsideCrlf source (drop k rest) (index + k) e)
unfolding bounds_loop scan_lines
bounds_loop-find zero source rest target index line start s le len kle small h =
    let (e, eq, _, where_) = bounds_loop-finish source rest index line start le len in
    (e, ground (arith, eq), ground (arith, where_))
bounds_loop-find (suc k) source [] target index line start s le len kle small h =
    absurd (omega arith)
bounds_loop-find (suc k) source (v ∷ rest) target index line start s le len kle small h =
    elim (Bool-cases (v == line_feed)) [
      | inl feed ↦
          let (e, eq, where_) =
            bounds_loop-find k source rest target (index + 1) (u32 (line + 1)) (index + 1) s
              (omega arith) (omega arith) (omega arith) (omega arith) (ground arith) in
          (
            e,
            ground (
              arith,
              eq,
              length-take k rest,
              scan_lines-line_mono (take k rest) (index + 1) (u32 (line + 1)) (index + 1),
            ),
            ground (arith, where_),
          )
      | inr other ↦
          let (e, eq, where_) =
            bounds_loop-find k source rest target (index + 1) line start s (omega arith)
              (omega arith) (omega arith) (omega arith) (ground arith) in
          (e, ground (arith, eq), ground (arith, where_))
    ]

-- The bounds of the line that the scan of the first `k` bytes reports.
pub line_bounds-find :
    (source : Bytes) (k target s : ℕ)
    → k ≤ length source
    → length source < 4294967296
    → scan_lines (take k source) 0 0 0 ≡ (target, s)
    → (e : ℕ) × (line_bounds source target ≡ some (s, e))
      × ((k ≤ e) ⊎ InsideCrlf source (drop k source) k e)
unfolding line_bounds
line_bounds-find source k target s le small scan =
    let (e, found, where_) =
      bounds_loop-find k source source target 0 0 0 s (omega arith) (omega arith) le (omega arith)
        scan in
    let e0 : 0 + k ≡ k = omega arith in
    (e, found, subst (λ n. (n ≤ e) ⊎ InsideCrlf source (drop k source) n e) e0 where_)
