-- ===== src/Position/Walk.antt =====
-- The walk of `ByteOffset` along a line stops where the count of `PositionAt` agrees, and the other
-- way round.
use pogo.Prelude.{
  ℕ, zero, suc, ◌+◌, ◌-◌, ◌≤◌, ◌<◌, ◌≡◌, refl, sym, ap, ◌∙◌, ◌⊎◌, inl, inr, false, [], ◌∷◌, some,
  arith, lt→neq, le→not_ltb, u32, length, take, drop, length-drop, length-take, drop-drop,
  drop-take, take-nil, subst, Bytes,
}
use pogo.Utf8.{decode_rune, is_bad}
use pogo.Utf8.Runes.{decode_rune_size, decode_rune-extend, decode_rune_wide}
use pogo.Utf8.Valid.{IsUtf8, IsUtf8-drop_rune}
use pogo.Position.{width_of, offset_loop, units_loop}
use pogo.Position.Units.{advance_eq, units_loop-step, offset_loop-step}

units_loop_nil : (g units : ℕ) → 0 < g → units_loop g [] units ≡ some units
unfolding units_loop
units_loop_nil zero units h = absurd (omega arith)
units_loop_nil (suc g) units h = refl

-- What one round of the walk has found, if the walk succeeds.
offset_loop_inv :
    (f a : ℕ) (t : Bytes) (offset units target off : ℕ)
    → offset_loop (suc f) (a ∷ t) offset units target ≡ some off
    → ((units ≡ target) × (off ≡ offset))
      ⊎ ((is_bad (decode_rune (a ∷ t)) ≡ false)
          × (offset_loop f
                (drop (decode_rune (a ∷ t)).1 (a ∷ t))
                (offset + (decode_rune (a ∷ t)).1)
                (u32 (units + width_of (decode_rune (a ∷ t)).0))
                target
              ≡ some off))
unfolding offset_loop
offset_loop_inv f a t offset units target off h = ground arith

-- What one round of the count has found, if the count succeeds.
units_loop_inv :
    (g a : ℕ) (t : Bytes) (units target : ℕ)
    → units_loop (suc g) (a ∷ t) units ≡ some target
    → (is_bad (decode_rune (a ∷ t)) ≡ false)
      × (units_loop g
            (drop (decode_rune (a ∷ t)).1 (a ∷ t))
            (u32 (units + width_of (decode_rune (a ∷ t)).0))
          ≡ some target)
unfolding units_loop
units_loop_inv g a t units target h = ground (arith, advance_eq (decode_rune (a ∷ t)).0 units)

module _ (m a : ℕ) (s : Bytes) (good : is_bad (decode_rune (a ∷ take m s)) ≡ false) where
  same_rune : decode_rune (a ∷ s) ≡ decode_rune (a ∷ take m s)
  same_rune = decode_rune-extend (suc m) (a ∷ s) refl good

  size-le : (decode_rune (a ∷ s)).1 ≤ suc m
  size-le =
      let (_, short) = decode_rune_size a (take m s) in
      rw same_rune (omega (arith, length-take m s))

  good_whole : is_bad (decode_rune (a ∷ s)) ≡ false
  good_whole = rw same_rune good

  drop-cut :
      drop (decode_rune (a ∷ s)).1 (a ∷ take m s)
      ≡ take (suc m - (decode_rune (a ∷ s)).1) (drop (decode_rune (a ∷ s)).1 (a ∷ s))
  drop-cut =
      let n = (decode_rune (a ∷ s)).1 in
      let e : n + (suc m - n) ≡ suc m = omega (arith, size-le) in
      ap (λ l. drop n (take l (a ∷ s))) (sym e) ∙ drop-take n (suc m - n) (a ∷ s)

-- The walk stops on a boundary `k` bytes along, where the count of those bytes is the target.
abbrev pub StopsAt : Bytes → ℕ → ℕ → ℕ → Type 0
StopsAt full units target k =
    (k ≤ length full)
    × IsUtf8 (drop k full)
    × ((g : ℕ) → k < g → units_loop g (take k full) units ≡ some target)

StopsAt-here : (full : Bytes) (units : ℕ) → IsUtf8 full → StopsAt full units units 0
StopsAt-here full units u = (omega arith, u, λ g h. units_loop_nil g units h)

StopsAt-next :
    (a : ℕ) (s : Bytes) (good : is_bad (decode_rune (a ∷ s)) ≡ false) (units target k : ℕ)
    → StopsAt
        (drop (decode_rune (a ∷ s)).1 (a ∷ s))
        (u32 (units + width_of (decode_rune (a ∷ s)).0))
        target
        k
    → StopsAt (a ∷ s) units target ((decode_rune (a ∷ s)).1 + k)
StopsAt-next a s good units target k (le, u, count) =
    let n = (decode_rune (a ∷ s)).1 in
    let (pos, short) = decode_rune_size a s in
    (omega (arith, length-drop n (a ∷ s)), rw drop-drop at u, go)
  where
    go :
        (g : ℕ)
        → (decode_rune (a ∷ s)).1 + k < g
        → units_loop g (take ((decode_rune (a ∷ s)).1 + k) (a ∷ s)) units ≡ some target
    go zero h = absurd (omega arith)
    go (suc g) h =
        let (pos, short) = decode_rune_size a s in
        units_loop-step a s good g k units ∙ count g (omega arith)

-- The walk of an empty rest stops at once.
offset_loop_nil :
    (f offset units target off : ℕ)
    → offset_loop f [] offset units target ≡ some off
    → (units ≡ target) × (off ≡ offset)
unfolding offset_loop
offset_loop_nil zero offset units target off h = ground arith
offset_loop_nil (suc f) offset units target off h = ground arith

abbrev Stops : Bytes → ℕ → ℕ → ℕ → ℕ → ℕ → Type 0
Stops full m offset units target off =
    (k : ℕ) × (off ≡ offset + k) × (k ≤ m) × StopsAt full units target k

Stops-here :
    (full : Bytes) (m offset units target off : ℕ)
    → IsUtf8 full
    → (units ≡ target) × (off ≡ offset)
    → Stops full m offset units target off
Stops-here full m offset units target off u (hit, at) = (
  0,
  omega arith,
  omega arith,
  subst (λ t. StopsAt full units t 0) hit (StopsAt-here full units u),
)

-- A successful walk over the first `m` bytes stops where the count agrees.
pub offset_loop-StopsAt :
    (f : ℕ) (full : Bytes) (m offset units target off : ℕ)
    → IsUtf8 full
    → offset_loop f (take m full) offset units target ≡ some off
    → Stops full m offset units target off
offset_loop-StopsAt f [] m offset units target off u h = Stops-here [] m offset units target off u (
    offset_loop_nil f offset units target off
      (subst (λ l. offset_loop f l offset units target ≡ some off) (sym (take-nil m)) h))
offset_loop-StopsAt f (a ∷ s) zero offset units target off u h =
    Stops-here (a ∷ s) zero offset units target off u (offset_loop_nil f offset units target off h)
offset_loop-StopsAt zero (a ∷ s) (suc m) offset units target off u h =
    absurd (unfold offset_loop in cc)
offset_loop-StopsAt (suc f) (a ∷ s) (suc m) offset units target off u h =
    elim (offset_loop_inv f a (take m s) offset units target off h) [
      | inl hit ↦ Stops-here (a ∷ s) (suc m) offset units target off u hit
      | inr (good, on) ↦
          let whole = good_whole m a s good in
          let n = (decode_rune (a ∷ s)).1 in
          let (k, at, le, stop) =
            offset_loop-StopsAt f (drop n (a ∷ s)) (suc m - n) (offset + n)
              (u32 (units + width_of (decode_rune (a ∷ s)).0)) target off (IsUtf8-drop_rune a s u)
              (rw (← drop-cut m a s good) (rw (same_rune m a s good) on)) in
          (
            n + k,
            omega arith,
            omega (arith, size-le m a s good),
            StopsAt-next a s whole units target k stop,
          )
    ]

width-pos : (r : ℕ) → 1 ≤ width_of r
width-pos r = ground arith

width-le-size : (a : ℕ) (s : Bytes) → width_of (decode_rune (a ∷ s)).0 ≤ (decode_rune (a ∷ s)).1
width-le-size a s = ground (arith, decode_rune_size a s, decode_rune_wide a s)

-- Counting a text needs no more units than bytes.
units_loop-bound :
    (g : ℕ) (s : Bytes) (units target : ℕ)
    → units + length s < 4294967296
    → units_loop g s units ≡ some target
    → (units ≤ target) × (target ≤ units + length s)
unfolding units_loop
units_loop-bound zero s units target small h = absurd (cc)
units_loop-bound (suc g) [] units target small h = ground arith
units_loop-bound (suc g) (a ∷ s) units target small h =
    let d = decode_rune (a ∷ s) in
    let (_, on) = units_loop_inv g a s units target h in
    let wn = width-le-size a s in
    let (pos, short) = decode_rune_size a s in
    let (low, high) =
      units_loop-bound g (drop d.1 (a ∷ s)) (u32 (units + width_of d.0)) target
        (omega (arith, length-drop d.1 (a ∷ s))) on in
    (omega arith, omega (arith, length-drop d.1 (a ∷ s)))

offset_loop_hit :
    (f : ℕ) (l : Bytes) (offset units : ℕ)
    → 0 < f
    → offset_loop f l offset units units ≡ some offset
unfolding offset_loop
offset_loop_hit zero l offset units h = absurd (omega arith)
offset_loop_hit (suc f) [] offset units h = ground arith
offset_loop_hit (suc f) (a ∷ l) offset units h = ground arith

units_loop_nil_inv : (g units target : ℕ) → units_loop g [] units ≡ some target → units ≡ target
unfolding units_loop
units_loop_nil_inv zero units target h = absurd (cc)
units_loop_nil_inv (suc g) units target h = ground arith

-- A count of the first `k` bytes is found by the walk, which goes on to the same place.
pub units_loop-walk :
    (g k f : ℕ) (full : Bytes) (m offset units target : ℕ)
    → k ≤ m
    → k ≤ length full
    → k < f
    → units + k < 4294967296
    → units_loop g (take k full) units ≡ some target
    → offset_loop f (take m full) offset units target ≡ some (offset + k)
units_loop-walk g zero f full m offset units target km kl kf small h =
    let e : offset + 0 ≡ offset = omega arith in
    rw e (
      subst (λ t. offset_loop f (take m full) offset units t ≡ some offset)
        (units_loop_nil_inv g units target h) (offset_loop_hit f (take m full) offset units kf))
units_loop-walk g (suc k) f [] m offset units target km kl kf small h = absurd (omega arith)
units_loop-walk zero (suc k) f (a ∷ s) m offset units target km kl kf small h =
    absurd (unfold units_loop in cc)
units_loop-walk (suc g) (suc k) zero (a ∷ s) m offset units target km kl kf small h =
    absurd (omega arith)
units_loop-walk (suc g) (suc k) (suc f) (a ∷ s) m offset units target km kl kf small h =
    let (cut, _) = units_loop_inv g a (take k s) units target h in
    let good = good_whole k a s cut in
    let n = (decode_rune (a ∷ s)).1 in
    let w = width_of (decode_rune (a ∷ s)).0 in
    let (pos, short) = decode_rune_size a s in
    let nk = size-le k a s cut in
    let wn = width-le-size a s in
    let ek : n + (suc k - n) ≡ suc k = omega arith in
    let em : n + (m - n) ≡ m = omega arith in
    let eo : offset + n + (suc k - n) ≡ offset + suc k = omega arith in
    let step : units_loop g (take (suc k - n) (drop n (a ∷ s))) (u32 (units + w)) ≡ some target =
      sym (units_loop-step a s good g (suc k - n) units)
      ∙ ap (λ l. units_loop (suc g) (take l (a ∷ s)) units) ek
      ∙ h in
    let (low, _) =
      units_loop-bound g (take (suc k - n) (drop n (a ∷ s))) (u32 (units + w)) target
        (omega (arith, length-take (suc k - n) (drop n (a ∷ s)))) step in
    ap (λ l. offset_loop (suc f) (take l (a ∷ s)) offset units target) (sym em)
    ∙ offset_loop-step a s good f (m - n) offset units target
        (lt→neq _ _ (omega (arith, width-pos (decode_rune (a ∷ s)).0))) (le→not_ltb _ _ low)
    ∙ units_loop-walk g (suc k - n) f (drop n (a ∷ s)) (m - n) (offset + n) (u32 (units + w)) target
        (omega arith) (omega (arith, length-drop n (a ∷ s))) (omega arith) (omega arith) step
    ∙ ap some eo
