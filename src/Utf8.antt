-- ===== src/Utf8.antt =====
-- The part of Go's `unicode/utf8` that internal/analysis/document.go calls: `DecodeRune`, `Valid`
-- and `RuneStart`, over byte values.
pub mod Runes
pub mod Valid
use pogo.Prelude.{
  ℕ, zero, suc, ◌+◌, ◌*◌, ◌%◌, Bool, true, false, not, ◌&&◌, ◌||◌, List, [], ◌∷◌, ltb, leb, ◌==◌,
  if◌then◌else◌, length, drop, Bytes,
}

abbrev pub rune_error : ℕ
rune_error = 0xFFFD

abbrev pub within : ℕ → ℕ → ℕ → Bool
within lo hi b = leb lo b && leb b hi

abbrev pub is_continuation : ℕ → Bool
is_continuation b = within 0x80 0xBF b

abbrev invalid : ℕ × ℕ
invalid = (rune_error, 1)

pub decode_two : ℕ → Bytes → ℕ × ℕ
decode_two a [] = invalid
decode_two a (b ∷ _) = if is_continuation b then (a % 32 * 64 + b % 64, 2) else invalid

-- The second byte of a three-byte rune excludes overlong forms and surrogates.
abbrev pub second_of_three : ℕ → ℕ → Bool
second_of_three a b = within (if a == 0xE0 then 0xA0 else 0x80) (if a == 0xED then 0x9F else 0xBF) b

pub decode_three : ℕ → Bytes → ℕ × ℕ
decode_three a [] = invalid
decode_three a (b ∷ []) = invalid
decode_three a (b ∷ c ∷ _) =
    if second_of_three a b && is_continuation c
    then (a % 16 * 4096 + b % 64 * 64 + c % 64, 3)
    else invalid

-- The second byte of a four-byte rune excludes overlong forms and values above 0x10FFFF.
abbrev pub second_of_four : ℕ → ℕ → Bool
second_of_four a b = within (if a == 0xF0 then 0x90 else 0x80) (if a == 0xF4 then 0x8F else 0xBF) b

pub decode_four : ℕ → Bytes → ℕ × ℕ
decode_four a [] = invalid
decode_four a (b ∷ []) = invalid
decode_four a (b ∷ c ∷ []) = invalid
decode_four a (b ∷ c ∷ d ∷ _) =
    if second_of_four a b && is_continuation c && is_continuation d
    then (a % 8 * 262144 + b % 64 * 4096 + c % 64 * 64 + d % 64, 4)
    else invalid

-- The rune at the front and the bytes that it takes.
unfoldable pub decode_rune : Bytes → ℕ × ℕ
unfolding decode_two decode_three decode_four
decode_rune [] = (rune_error, 0)
decode_rune (a ∷ rest) =
    if ltb a 0x80
    then (a, 1)
    else if within 0xC2 0xDF a
    then decode_two a rest
    else if within 0xE0 0xEF a
    then decode_three a rest
    else if within 0xF0 0xF4 a
    then decode_four a rest
    else invalid

-- `r == utf8.RuneError && size == 1`
abbrev pub is_bad : ℕ × ℕ → Bool
is_bad (r, size) = r == rune_error && size == 1

abbrev pub rune_start : ℕ → Bool
rune_start b = not (is_continuation b)

pub valid_loop : ℕ → Bytes → Bool
valid_loop fuel [] = true
valid_loop zero (a ∷ s) = false
valid_loop (suc fuel) (a ∷ s) =
    let (r, size) = decode_rune (a ∷ s) in
    let rest = valid_loop fuel (drop size (a ∷ s)) in if is_bad (r, size) then false else rest

unfoldable pub valid : Bytes → Bool
unfolding valid_loop decode_rune
valid s = valid_loop (length s) s
