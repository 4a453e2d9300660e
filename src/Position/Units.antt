-- ===== src/Position/Units.antt =====
-- The unit counts of `ByteOffset` and `PositionAt` take the same steps, a rune at a time.
use pogo.Prelude.{
  ℕ, zero, suc, ◌+◌, ◌<◌, ◌≡◌, refl, ap, false, ◌∷◌, arith, ltb, ◌==◌, if◌then◌else◌, u32, take,
  drop, drop-take, Bytes,
}
use pogo.Utf8.{decode_rune, is_bad}
use pogo.Utf8.Runes.{decode_rune_size, decode_rune-take}
use pogo.Position.{width_of, offset_loop, units_loop}

take_head : (n a : ℕ) (s : Bytes) → 0 < n → (t : Bytes) × (take n (a ∷ s) ≡ a ∷ t)
take_head zero a s h = absurd (omega arith)
take_head (suc n) a s h = (take n s, refl)

-- `character++`, and once more above the basic plane
pub advance_eq :
    (r units : ℕ)
    → (if ltb 0xffff r then u32 (u32 (units + 1) + 1) else u32 (units + 1))
      ≡ u32 (units + width_of r)
advance_eq r units = ground arith

module _ (a : ℕ) (s : Bytes) (good : is_bad (decode_rune (a ∷ s)) ≡ false) where
  -- the size of the first rune, and the text behind it
  abbrev size : ℕ
  size = (decode_rune (a ∷ s)).1

  abbrev behind : Bytes
  behind = drop size (a ∷ s)

  abbrev width : ℕ
  width = width_of (decode_rune (a ∷ s)).0

  cut_head : (k : ℕ) → (t : Bytes) × (take (size + k) (a ∷ s) ≡ a ∷ t)
  cut_head k = let (pos, _) = decode_rune_size a s in take_head (size + k) a s (omega arith)

  pub units_loop-step :
      (g k units : ℕ)
      → units_loop (suc g) (take (size + k) (a ∷ s)) units
        ≡ units_loop g (take k behind) (u32 (units + width))
  unfolding units_loop
  units_loop-step g k units =
      let (t, e) = cut_head k in
      let d : decode_rune (a ∷ t) ≡ decode_rune (a ∷ s) =
        rw (← e) (decode_rune-take (size + k) (a ∷ s) good (omega arith)) in
      let tail : drop size (a ∷ t) ≡ take k behind = rw (← e) (drop-take size k (a ∷ s)) in
      rw e (rw d (rw (good, tail) (ap (units_loop g (take k behind)) (advance_eq _ units))))

  pub offset_loop-step :
      (f k offset units target : ℕ)
      → (units == target) ≡ false
      → ltb target (u32 (units + width)) ≡ false
      → offset_loop (suc f) (take (size + k) (a ∷ s)) offset units target
        ≡ offset_loop f (take k behind) (offset + size) (u32 (units + width)) target
  unfolding offset_loop
  offset_loop-step f k offset units target ne fits =
      let (t, e) = cut_head k in
      let d : decode_rune (a ∷ t) ≡ decode_rune (a ∷ s) =
        rw (← e) (decode_rune-take (size + k) (a ∷ s) good (omega arith)) in
      let tail : drop size (a ∷ t) ≡ take k behind = rw (← e) (drop-take size k (a ∷ s)) in
      rw e (rw d (rw (ne, good, fits, tail)))
