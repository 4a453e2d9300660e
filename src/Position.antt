-- ===== src/Position.antt =====
-- internal/analysis/document.go: editor positions, a line and a count of UTF-16 units, against byte
-- offsets in the UTF-8 source.
mod Lines
mod Units
mod Walk
mod Samples
pub mod RoundTrip
use pogo.Prelude.{
  ℕ, zero, suc, ◌+◌, ◌-◌, not, ◌&&◌, ◌||◌, [], ◌∷◌, Option, none, some, ltb, ◌==◌, if◌then◌else◌,
  u32, length, get_elem?, take, drop, slice, Bytes,
}
use pogo.Utf8.{decode_rune, is_bad, rune_start}

pub record Position : Type 0 where
  pub line : ℕ  -- uint32
  pub character : ℕ  -- uint32

abbrev pub line_feed : ℕ
line_feed = 10

abbrev pub carriage_return : ℕ
carriage_return = 13

-- source[index]; every call is in range, where Go would not panic
abbrev pub byte_at : Bytes → ℕ → ℕ
byte_at source index = elim (get_elem? source index) [ none ↦ 0 | some b ↦ b ]

-- `if end > start && source[end-1] == '\r' { end-- }`
abbrev pub trim_return : Bytes → ℕ → ℕ → ℕ
trim_return source start end =
    if ltb start end && byte_at source (end - 1) == carriage_return then end - 1 else end

-- The loop of `lineBounds`: the bytes not yet visited, and the variables `index`, `line`, `start`.
pub bounds_loop : Bytes → ℕ → Bytes → ℕ → ℕ → ℕ → Option (ℕ × ℕ)
bounds_loop source target [] index line start =
    if line == target then some (start, length source) else none
bounds_loop source target (value ∷ rest) index line start =
    let same_line = bounds_loop source target rest (index + 1) line start in
    let next_line = bounds_loop source target rest (index + 1) (u32 (line + 1)) (index + 1) in
    if not (value == line_feed)
    then same_line
    else if line == target
    then some (start, trim_return source start index)
    else next_line

pub line_bounds : Bytes → ℕ → Option (ℕ × ℕ)
unfolding bounds_loop
line_bounds source target = bounds_loop source target source 0 0 0

-- UTF-16 units of a rune
abbrev pub width_of : ℕ → ℕ
width_of r = if ltb 0xffff r then 2 else 1

-- The loop of `ByteOffset` over what is left of the line, and the test behind it. Every round takes
-- a byte at least, so `suc (length s)` rounds are enough.
pub offset_loop : ℕ → Bytes → ℕ → ℕ → ℕ → Option ℕ
offset_loop zero s offset units target = none
offset_loop (suc fuel) [] offset units target = if units == target then some offset else none
offset_loop (suc fuel) (a ∷ s) offset units target =
    let (r, size) = decode_rune (a ∷ s) in
    let width = width_of r in
    let rest = offset_loop fuel (drop size (a ∷ s)) (offset + size) (u32 (units + width)) target in
    if units == target
    then some offset
    else if is_bad (r, size)
    then none
    else if ltb target (u32 (units + width))
    then none
    else rest

unfoldable pub byte_offset : Bytes → Position → Option ℕ
unfolding line_bounds offset_loop decode_rune
byte_offset source position = elim (line_bounds source position.line) [
  | none ↦ none
  | some (start, end) ↦
      let line = slice start end source in
      offset_loop (suc (length line)) line start 0 position.character
]

-- The first loop of `PositionAt`: the line and where it starts.
pub scan_lines : Bytes → ℕ → ℕ → ℕ → ℕ × ℕ
scan_lines [] index line start = (line, start)
scan_lines (value ∷ rest) index line start =
    scan_lines rest (index + 1) (if value == line_feed then u32 (line + 1) else line)
      (if value == line_feed then index + 1 else start)

-- The second loop of `PositionAt`, over what is left in front of the offset.
pub units_loop : ℕ → Bytes → ℕ → Option ℕ
units_loop zero s character = none
units_loop (suc fuel) [] character = some character
units_loop (suc fuel) (a ∷ s) character =
    let (r, size) = decode_rune (a ∷ s) in
    let one = u32 (character + 1) in
    let rest = units_loop fuel (drop size (a ∷ s)) (if ltb 0xffff r then u32 (one + 1) else one) in
    if is_bad (r, size) then none else rest

-- The second half of `PositionAt`, from the line and its start.
pub position_from : Bytes → ℕ → ℕ × ℕ → Option Position
unfolding units_loop
position_from source offset (line, line_start) =
    let prefix = slice line_start offset source in
    elim (units_loop (suc (length prefix)) prefix 0) [
      | none ↦ none
      | some character ↦ some (record { line = line; character = character })
    ]

-- An offset is a number here, so the guard `offset < 0` has no counterpart.
unfoldable pub position_at : Bytes → ℕ → Option Position
unfolding scan_lines position_from decode_rune
position_at source offset =
    if ltb (length source) offset
      || (ltb offset (length source) && not (rune_start (byte_at source offset)))
    then none
    else position_from source offset (scan_lines (take offset source) 0 0 0)
