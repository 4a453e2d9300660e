-- ===== src/Utf8/Runes.antt =====
-- What a successful decoding says of the bytes.
use pogo.Prelude.{
  ℕ, zero, suc, ◌≤◌, ◌<◌, ◌≡◌, refl, false, true, [], ◌∷◌, arith, length, take, get_elem?, some,
  Bytes,
}
use pogo.Utf8.{decode_rune, is_bad, rune_start}

pub decode_rune_size :
    (a : ℕ) (s : Bytes) → (0 < (decode_rune (a ∷ s)).1) × ((decode_rune (a ∷ s)).1 ≤ suc (length s))
unfolding decode_rune
decode_rune_size a [] = ground arith
decode_rune_size a (b ∷ []) = ground arith
decode_rune_size a (b ∷ c ∷ []) = ground arith
decode_rune_size a (b ∷ c ∷ d ∷ s) = ground arith

-- Cutting the text behind the first rune does not change what is decoded.
pub decode_rune-take :
    (k : ℕ) (s : Bytes)
    → is_bad (decode_rune s) ≡ false
    → (decode_rune s).1 ≤ k
    → decode_rune (take k s) ≡ decode_rune s
unfolding decode_rune
decode_rune-take zero [] h le = refl
decode_rune-take zero (a ∷ s) h le = absurd (omega (arith, decode_rune_size a s))
decode_rune-take (suc k) [] h le = refl
decode_rune-take (suc zero) (a ∷ []) h le = ground arith
decode_rune-take (suc zero) (a ∷ b ∷ []) h le = ground arith
decode_rune-take (suc zero) (a ∷ b ∷ c ∷ []) h le = ground arith
decode_rune-take (suc zero) (a ∷ b ∷ c ∷ d ∷ s) h le = ground arith
decode_rune-take (suc (suc zero)) (a ∷ []) h le = refl
decode_rune-take (suc (suc zero)) (a ∷ b ∷ []) h le = refl
decode_rune-take (suc (suc zero)) (a ∷ b ∷ c ∷ []) h le = ground arith
decode_rune-take (suc (suc zero)) (a ∷ b ∷ c ∷ d ∷ s) h le = ground arith
decode_rune-take (suc (suc (suc zero))) (a ∷ []) h le = refl
decode_rune-take (suc (suc (suc zero))) (a ∷ b ∷ []) h le = refl
decode_rune-take (suc (suc (suc zero))) (a ∷ b ∷ c ∷ []) h le = refl
decode_rune-take (suc (suc (suc zero))) (a ∷ b ∷ c ∷ d ∷ s) h le = ground arith
decode_rune-take (suc (suc (suc (suc k)))) (a ∷ []) h le = refl
decode_rune-take (suc (suc (suc (suc k)))) (a ∷ b ∷ []) h le = refl
decode_rune-take (suc (suc (suc (suc k)))) (a ∷ b ∷ c ∷ []) h le = refl
decode_rune-take (suc (suc (suc (suc k)))) (a ∷ b ∷ c ∷ d ∷ s) h le = refl

-- A rune that starts at a byte is not a continuation byte.
pub decode_rune-rune_start :
    (a : ℕ) (s : Bytes) → is_bad (decode_rune (a ∷ s)) ≡ false → rune_start a ≡ true
unfolding decode_rune
decode_rune-rune_start a [] h = ground arith
decode_rune-rune_start a (b ∷ []) h = ground arith
decode_rune-rune_start a (b ∷ c ∷ []) h = ground arith
decode_rune-rune_start a (b ∷ c ∷ d ∷ s) h = ground arith

-- No byte behind the first of a rune is below 0x80, so none is a line feed.
pub decode_rune-get_elem? :
    (s : Bytes) (i : ℕ) {v : ℕ}
    → is_bad (decode_rune s) ≡ false
    → suc i < (decode_rune s).1
    → get_elem? s (suc i) ≡ some v
    → 0x80 ≤ v
unfolding decode_rune
decode_rune-get_elem? [] i h l e = ground arith
decode_rune-get_elem? (a ∷ []) i h l e = ground arith
decode_rune-get_elem? (a ∷ b ∷ []) zero h l e = ground arith
decode_rune-get_elem? (a ∷ b ∷ []) (suc i) h l e = ground arith
decode_rune-get_elem? (a ∷ b ∷ c ∷ []) zero h l e = ground arith
decode_rune-get_elem? (a ∷ b ∷ c ∷ []) (suc zero) h l e = ground arith
decode_rune-get_elem? (a ∷ b ∷ c ∷ []) (suc (suc i)) h l e = ground arith
decode_rune-get_elem? (a ∷ b ∷ c ∷ d ∷ s) zero h l e = ground arith
decode_rune-get_elem? (a ∷ b ∷ c ∷ d ∷ s) (suc zero) h l e = ground arith
decode_rune-get_elem? (a ∷ b ∷ c ∷ d ∷ s) (suc (suc zero)) h l e = ground arith
decode_rune-get_elem? (a ∷ b ∷ c ∷ d ∷ s) (suc (suc (suc i))) h l e = ground arith

-- A rune that decodes in a cut text decodes alike in the whole text.
pub decode_rune-extend :
    (k : ℕ) (s : Bytes) {a : ℕ} {t : Bytes}
    → take k s ≡ a ∷ t
    → is_bad (decode_rune (take k s)) ≡ false
    → decode_rune s ≡ decode_rune (take k s)
unfolding decode_rune
decode_rune-extend zero s e h = cc
decode_rune-extend (suc k) [] e h = refl
decode_rune-extend (suc zero) (a ∷ []) e h = refl
decode_rune-extend (suc zero) (a ∷ b ∷ []) e h = ground arith
decode_rune-extend (suc zero) (a ∷ b ∷ c ∷ []) e h = ground arith
decode_rune-extend (suc zero) (a ∷ b ∷ c ∷ d ∷ s) e h = ground arith
decode_rune-extend (suc (suc zero)) (a ∷ []) e h = refl
decode_rune-extend (suc (suc zero)) (a ∷ b ∷ []) e h = refl
decode_rune-extend (suc (suc zero)) (a ∷ b ∷ c ∷ []) e h = ground arith
decode_rune-extend (suc (suc zero)) (a ∷ b ∷ c ∷ d ∷ s) e h = ground arith
decode_rune-extend (suc (suc (suc zero))) (a ∷ []) e h = refl
decode_rune-extend (suc (suc (suc zero))) (a ∷ b ∷ []) e h = refl
decode_rune-extend (suc (suc (suc zero))) (a ∷ b ∷ c ∷ []) e h = refl
decode_rune-extend (suc (suc (suc zero))) (a ∷ b ∷ c ∷ d ∷ s) e h = ground arith
decode_rune-extend (suc (suc (suc (suc k)))) (a ∷ []) e h = refl
decode_rune-extend (suc (suc (suc (suc k)))) (a ∷ b ∷ []) e h = refl
decode_rune-extend (suc (suc (suc (suc k)))) (a ∷ b ∷ c ∷ []) e h = refl
decode_rune-extend (suc (suc (suc (suc k)))) (a ∷ b ∷ c ∷ d ∷ s) e h = refl

pub decode_rune_ascii : (a : ℕ) (s : Bytes) → a < 0x80 → decode_rune (a ∷ s) ≡ (a, 1)
unfolding decode_rune
decode_rune_ascii a s h = ground arith

-- A rune above the basic plane takes four bytes.
pub decode_rune_wide :
    (a : ℕ) (s : Bytes) → 0xFFFF < (decode_rune (a ∷ s)).0 → (decode_rune (a ∷ s)).1 ≡ 4
unfolding decode_rune
decode_rune_wide a [] h = ground arith
decode_rune_wide a (b ∷ []) h = ground arith
decode_rune_wide a (b ∷ c ∷ []) h = ground arith
decode_rune_wide a (b ∷ c ∷ d ∷ s) h = ground arith
