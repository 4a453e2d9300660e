-- ===== src/Position/Samples.antt =====
-- Positions in concrete texts.
use pogo.Prelude.{◌≡◌, refl, true, [], ◌∷◌, some, arith, Bytes}
use pogo.Utf8.{valid}
use pogo.Position.{Position, byte_offset, position_at}
use pogo.Position.RoundTrip.{position_at-byte_offset, byte_offset-position_at, SplitsCrlf}

-- "a", CRLF, a rune of four bytes, "b"
abbrev emoji_text : Bytes
emoji_text = 97 ∷ 13 ∷ 10 ∷ 0xF0 ∷ 0x9F ∷ 0x98 ∷ 0x80 ∷ 98 ∷ []

abbrev behind_emoji : Position
behind_emoji = record { line = 1; character = 2 }

emoji_text-valid : valid emoji_text ≡ true
unfolding valid
emoji_text-valid = refl

behind_emoji_offset : byte_offset emoji_text behind_emoji ≡ some 7
unfolding byte_offset
behind_emoji_offset = refl

behind_emoji_position : position_at emoji_text 7 ≡ some behind_emoji
unfolding position_at
behind_emoji_position = refl

seven_whole : ¬ SplitsCrlf emoji_text 7
seven_whole = λ split. absurd (ground arith)

position_at-byte_offset_example : position_at emoji_text 7 ≡ some behind_emoji
position_at-byte_offset_example =
    position_at-byte_offset emoji_text behind_emoji 7 emoji_text-valid behind_emoji_offset

byte_offset-position_at_example : byte_offset emoji_text behind_emoji ≡ some 7
byte_offset-position_at_example =
    byte_offset-position_at emoji_text 7 behind_emoji (omega arith) seven_whole
      behind_emoji_position
