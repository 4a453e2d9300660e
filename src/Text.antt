-- ===== src/Text.antt =====
-- What the scanners of internal/analysis call of Go's `strings`, `unicode` and `utf8`, and their own
-- tests of bytes and runes (infer.go, path.go). The tables of `unicode` are a parameter.
use pogo.Prelude.{
  ℕ, zero, suc, ◌-◌, Bool, true, false, ◌&&◌, ◌||◌, [], ◌∷◌, Option, none, some, ltb, leb, ◌==◌,
  if◌then◌else◌, length, take, drop, get_elem?, Bytes,
}
use pogo.Utf8.{decode_rune, rune_start, rune_error, within}

-- path.go: isSpace
abbrev pub is_space : ℕ → Bool
is_space value = value == 32 || value == 9 || value == 13 || value == 10

-- infer.go: isIdentifierByte
abbrev pub is_identifier_byte : ℕ → Bool
is_identifier_byte value =
    value == 95 || within 97 122 value || within 65 90 value || within 48 57 value

-- unicode.IsSpace
abbrev pub is_unicode_space : ℕ → Bool
is_unicode_space r =
    within 9 13 r
    || r == 32
    || r == 0x85
    || r == 0xA0
    || r == 0x1680
    || within 0x2000 0x200A r
    || r == 0x2028
    || r == 0x2029
    || r == 0x202F
    || r == 0x205F
    || r == 0x3000

-- The last byte that starts a rune among the second, third and fourth from the end.
abbrev pub last_start : Bytes → Option ℕ
last_start s =
    let n = length s in
    let starts =
      λ (k : ℕ). leb k n && (elim (get_elem? s (n - k)) [ none ↦ false | some b ↦ rune_start b ]) in
    if starts 2 then some 2 else if starts 3 then some 3 else if starts 4 then some 4 else none

abbrev pub ends_rune : ℕ → ℕ × ℕ → ℕ × ℕ
ends_rune k (r, size) = if size == k then (r, size) else (rune_error, 1)

-- utf8.DecodeLastRune
unfoldable pub decode_last_rune : Bytes → ℕ × ℕ
unfolding decode_rune
decode_last_rune [] = (rune_error, 0)
decode_last_rune (b ∷ s) =
    let last : ℕ = elim (get_elem? (b ∷ s) (length s)) [ none ↦ 0 | some c ↦ c ] in
    if ltb last 0x80 then (last, 1) else elim (last_start (b ∷ s)) [
      | none ↦ (rune_error, 1)
      | some k ↦ ends_rune k (decode_rune (drop (length (b ∷ s) - k) (b ∷ s)))
    ]

trim_left : ℕ → Bytes → Bytes
unfolding decode_rune
trim_left zero s = s
trim_left (suc fuel) [] = []
trim_left (suc fuel) (b ∷ s) =
    let (r, size) = decode_rune (b ∷ s) in
    let rest = trim_left fuel (drop size (b ∷ s)) in if is_unicode_space r then rest else b ∷ s

trim_right : ℕ → Bytes → Bytes
unfolding decode_last_rune
trim_right zero s = s
trim_right (suc fuel) [] = []
trim_right (suc fuel) (b ∷ s) =
    let (r, size) = decode_last_rune (b ∷ s) in
    let rest = trim_right fuel (take (length (b ∷ s) - size) (b ∷ s)) in
    if is_unicode_space r then rest else b ∷ s

-- strings.TrimSpace. Every round takes a byte at least.
unfoldable pub trim_space : Bytes → Bytes
unfolding trim_left trim_right
trim_space s = let left = trim_left (length s) s in trim_right (length left) left

-- The index of the first byte.
unfoldable pub index_byte : Bytes → ℕ → Option ℕ
index_byte [] wanted = none
index_byte (b ∷ s) wanted =
    if b == wanted
    then some 0
    else elim (index_byte s wanted) [ none ↦ none | some i ↦ some (suc i) ]

abbrev pub contains_byte : Bytes → ℕ → Bool
contains_byte [] wanted = false
contains_byte (b ∷ s) wanted = b == wanted || contains_byte s wanted

-- `unicode.IsLetter`, `unicode.IsDigit` or `unicode.IsMark`
module _ (is_word : ℕ → Bool) where
  -- infer.go: isIdentifierRune
  abbrev pub is_identifier_rune : ℕ → Bool
  is_identifier_rune r = r == 95 || is_word r

  -- path.go: the loop of identifierText, which sees U+FFFD for a bad byte
  pub identifier_runes : ℕ → Bytes → Bool
  unfolding decode_rune
  identifier_runes zero s = true
  identifier_runes (suc fuel) [] = true
  identifier_runes (suc fuel) (b ∷ s) =
      let (r, size) = decode_rune (b ∷ s) in
      let rest = identifier_runes fuel (drop size (b ∷ s)) in
      if is_identifier_rune r then rest else false

  unfoldable pub identifier_text : Bytes → Bool
  unfolding identifier_runes
  identifier_text [] = false
  identifier_text (b ∷ s) = identifier_runes (length (b ∷ s)) (b ∷ s)
