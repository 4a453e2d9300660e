-- ===== src/Scan/Arguments/Static.antt =====
-- diagnostic.go: `splitStaticArguments`, the arguments of a call as ranges without the space around.
mod Samples
use pogo.Prelude.{
  ℕ, zero, suc, ◌+◌, ◌-◌, ◌≤◌, ◌<◌, ◌≡◌, Bool, true, false, not, ◌&&◌, ◌||◌, List, [], ◌∷◌, ◌++◌,
  All, ltb, leb, arith, Bool-cases, inl, inr, ◌==◌, if◌then◌else◌, length, length-take, length-drop,
  take, drop, slice, Bytes,
}
use pogo.Text.{is_space}
use pogo.Position.{byte_at}
use pogo.Store.{ByteRange}
use pogo.Scan.{next_depth, comma, skip_spaces, back_spaces, trim_byte_range}
use pogo.Scan.Calls.{Lexer, start_lexer, lex, open_parenthesis, close_parenthesis}
use pogo.Scan.Literals.Ranges.{skip_spaces_bound}
use pogo.Paths.Suffixes.{All-append}

-- appendRange: an argument of spaces is left out.
abbrev pub static_range : Bytes → ℕ → ℕ → List ByteRange
static_range source segment_start segment_end =
    let range = trim_byte_range source (record { start = segment_start; end = segment_end }) in
    if ltb range.start range.end then range ∷ [] else []

-- Whether only spaces stand in front of a comment at the index.
abbrev pub is_leading : Bytes → ℕ → ℕ → Bool
is_leading source segment_start index =
    (trim_byte_range source (record { start = segment_start; end = index })).start == index

-- The loop. A comment that stands in front of an argument does not belong to it.
unfoldable pub static_loop : Bytes → Lexer → Bytes → ℕ → ℕ → ℕ → Bool → List ByteRange
unfolding lex trim_byte_range
static_loop source l [] index depth segment_start leading = static_range source segment_start index
static_loop source l (value ∷ rest) index depth segment_start leading =
    let (next, code) = lex l value rest in
    let ended =
      static_loop source next rest (index + 1) depth (if leading then index + 1 else segment_start)
        false in
    let started =
      static_loop source next rest (index + 1) depth segment_start
        (is_leading source segment_start index) in
    let passed = static_loop source next rest (index + 1) depth segment_start leading in
    let behind = static_loop source next rest (index + 1) depth (index + 1) leading in
    let onward =
      static_loop source next rest (index + 1) (next_depth value depth) segment_start leading in
    if l.comment && not next.comment
    then ended
    else if next.comment && not l.comment
    then started
    else if not code
    then passed
    else if value == comma && depth == 0
    then static_range source segment_start index ++ behind
    else onward

unfoldable pub split_static_arguments : Bytes → ByteRange → List ByteRange
unfolding static_loop
split_static_arguments source arguments =
    let start = arguments.start + 1 in
    let end = arguments.end - 1 in
    if ltb (length source) arguments.end
      || ltb arguments.end (arguments.start + 2)
      || not (byte_at source arguments.start == open_parenthesis)
      || not (byte_at source end == close_parenthesis)
    then []
    else static_loop source start_lexer (slice start end source) start 0 start false

-- An argument has a byte at least and lies between two offsets.
abbrev pub IsBetween : ℕ → ℕ → ByteRange → Type 0
IsBetween low high range = (low ≤ range.start) × (range.start < range.end) × (range.end ≤ high)

back_spaces_bound : (source : Bytes) (room end : ℕ) → back_spaces source room end ≤ end
back_spaces_bound source zero end = omega arith
back_spaces_bound source (suc room) end = ground (arith, back_spaces_bound source room (end - 1))

static_range-IsBetween :
    (source : Bytes) (low high segment_start segment_end : ℕ)
    → low ≤ segment_start
    → segment_end ≤ high
    → All (IsBetween low high) (static_range source segment_start segment_end)
unfolding trim_byte_range
static_range-IsBetween source low high segment_start segment_end below above =
    let start = skip_spaces (slice segment_start segment_end source) segment_start in
    let end = back_spaces source (segment_end - start) segment_end in
    let begins = skip_spaces_bound (slice segment_start segment_end source) segment_start in
    let ends = back_spaces_bound source (segment_end - start) segment_end in
    elim (Bool-cases (ltb start end)) [
      | inl full ↦
          rw full
            ((omega (arith, below, begins), ground (arith, full), omega (arith, above, ends)), tt)
      | inr empty ↦ rw empty tt
    ]

static_loop-IsBetween :
    (source : Bytes) (l : Lexer) (text : Bytes) (low high index depth segment_start : ℕ)
    (leading : Bool)
    → low ≤ segment_start
    → low ≤ index
    → index + length text ≤ high
    → All (IsBetween low high) (static_loop source l text index depth segment_start leading)
unfolding static_loop
static_loop-IsBetween source l [] low high index depth segment_start leading below begun fits =
    static_range-IsBetween source low high segment_start index below (omega (arith, fits))
static_loop-IsBetween source l (value ∷ rest) low high index depth segment_start leading below begun
      fits =
    let (next, code) = lex l value rest in
    let onward = λ (d s : ℕ) (e : Bool) (b : low ≤ s).
      static_loop-IsBetween source next rest low high (index + 1) d s e b (omega (arith, begun))
        (omega (arith, fits)) in
    elim (Bool-cases (l.comment && not next.comment)) [
      | inl ended ↦ rw ended (
          onward depth (if leading then index + 1 else segment_start) false
            (ground (arith, below, begun)))
      | inr same ↦ elim (Bool-cases (next.comment && not l.comment)) [
        | inl started ↦
            rw (same, started)
              (onward depth segment_start (is_leading source segment_start index) below)
        | inr within ↦ elim (Bool-cases code) [
          | inr text ↦ rw (same, within, text) (onward depth segment_start leading below)
          | inl live ↦ elim (Bool-cases (value == comma && depth == 0)) [
            | inl sep ↦
                rw (same, within, live, sep)
                  (All-append (IsBetween low high) (static_range source segment_start index)
                    (static_loop source next rest (index + 1) depth (index + 1) leading)
                    (static_range-IsBetween source low high segment_start index below
                      (omega (arith, fits)))
                    (onward depth (index + 1) leading (omega (arith, begun))))
            | inr other ↦
                rw (same, within, live, other)
                  (onward (next_depth value depth) segment_start leading below)
          ]
        ]
      ]
    ]

static_fits :
    (size start end : ℕ) (a b : Bool)
    → (ltb size end || ltb end (start + 2) || a || b) ≡ false
    → (end ≤ size) × (start + 2 ≤ end)
static_fits size start end a b h = (ground (arith, h), ground (arith, h))

-- Every range that `splitStaticArguments` gives has a byte at least and lies between the
-- parentheses of the call.
pub split_static_arguments-IsBetween :
    (source : Bytes) (arguments : ByteRange)
    → All
        (IsBetween (arguments.start + 1) (arguments.end - 1))
        (split_static_arguments source arguments)
unfolding split_static_arguments
split_static_arguments-IsBetween source arguments =
    let start = arguments.start + 1 in
    let end = arguments.end - 1 in
    elim (Bool-cases (
      ltb (length source) arguments.end
      || ltb arguments.end (arguments.start + 2)
      || not (byte_at source arguments.start == open_parenthesis)
      || not (byte_at source end == close_parenthesis))) [
        | inl other ↦ rw other tt
        | inr call ↦
            let (inside, room) =
              static_fits (length source) arguments.start arguments.end
                (not (byte_at source arguments.start == open_parenthesis))
                (not (byte_at source end == close_parenthesis)) call in
            rw call (
              static_loop-IsBetween source start_lexer (slice start end source) start end start 0
                start false (omega arith) (omega arith)
                (omega (
                  arith,
                  inside,
                  room,
                  length-take (end - start) (drop start source),
                  length-drop start source,
                )))
      ]
