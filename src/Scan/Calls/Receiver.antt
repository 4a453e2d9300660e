-- ===== src/Scan/Calls/Receiver.antt =====
-- expressionBefore ends, at or in front of where it starts.
use pogo.Prelude.{
  ℕ, zero, suc, ◌+◌, ◌-◌, ◌≤◌, ◌<◌, ◌≡◌, refl, Bool, true, false, not, ◌&&◌, List, Option, none,
  some, arith, ltb, ◌==◌, if◌then◌else◌, Bytes,
}
use pogo.Text.{is_space, is_identifier_byte}
use pogo.Position.{byte_at}
use pogo.Store.{ByteRange}
use pogo.Scan.Calls.{
  spaces_before, name_before, is_back_closing, is_back_opening, full_stop, close_parenthesis,
  before_loop, expression_before,
}

pub spaces_before_bound : (source : Bytes) (n : ℕ) → spaces_before source n ≤ n
unfolding spaces_before
spaces_before_bound source zero = omega arith
spaces_before_bound source (suc n) = ground (arith, spaces_before_bound source n)

pub name_before_bound : (source : Bytes) (mask : List Bool) (n : ℕ) → name_before source mask n ≤ n
unfolding name_before
name_before_bound source mask zero = omega arith
name_before_bound source mask (suc n) = ground (arith, name_before_bound source mask n)

-- The loop has come to an end, at or in front of the bound.
StopsBy : ℕ → Option ℕ → Type 0
StopsBy bound o = (n : ℕ) × (o ≡ some n) × (n ≤ bound)

StopsBy-weaken : (m n : ℕ) (o : Option ℕ) → m ≤ n → StopsBy m o → StopsBy n o
unfolding StopsBy
StopsBy-weaken m n o h (k, e, b) = (k, e, omega (arith, h, b))

StopsBy-if :
    (n : ℕ) (b : Bool) (x y : Option ℕ) → StopsBy n x → StopsBy n y → StopsBy n (if b then x else y)
StopsBy-if n true x y hx hy = hx
StopsBy-if n false x y hx hy = hy

before_loop-StopsBy :
    (fuel : ℕ) (source : Bytes) (end depth start : ℕ)
    → start < fuel
    → StopsBy start (before_loop fuel source end depth start)
unfolding before_loop StopsBy
before_loop-StopsBy zero source end depth start h = absurd (omega (arith, h))
before_loop-StopsBy (suc fuel) source end depth zero h = (0, refl, omega arith)
before_loop-StopsBy (suc fuel) source end depth (suc start) h =
    let value = byte_at source start in
    let gap = spaces_before source start in
    let low = spaces_before_bound source start in
    let here : StopsBy (suc start) (some (suc start)) = (suc start, refl, omega arith) in
    let step = λ (d : ℕ).
      StopsBy-weaken start (suc start) (before_loop fuel source end d start) (omega arith)
        (before_loop-StopsBy fuel source end d start (omega (arith, h))) in
    let past =
      StopsBy-weaken gap (suc start) (before_loop fuel source end depth gap) (omega (arith, low))
        (before_loop-StopsBy fuel source end depth gap (omega (arith, h, low))) in
    let back = StopsBy-if (suc start) in
    back (is_back_closing value) _ _ (step (depth + 1)) (
      back (is_back_opening value) _ _ (back (depth == 0) _ _ here (step (depth - 1))) (
        back
          (depth == 0
            && is_space value
            && ltb (suc start) end
            && byte_at source (suc start) == full_stop
            && ltb 0 gap
            && byte_at source (gap - 1) == close_parenthesis)
          _ _ past
          (back (depth == 0 && not (is_identifier_byte value) && not (value == full_stop)) _ _ here
            (step depth))))

abbrev range_from : ℕ → Option ℕ → Option ByteRange
range_from end none = none
range_from end (some start) = some (record { start = start; end = end })

range_from-StopsBy :
    (end : ℕ) (o : Option ℕ)
    → StopsBy end o
    → (range : ByteRange) × (range_from end o ≡ some range)
      × (range.start ≤ end)
      × (range.end ≡ end)
unfolding StopsBy
range_from-StopsBy end none (n, e, b) = absurd (cc)
range_from-StopsBy end (some start) (n, e, b) =
    (record { start = start; end = end }, refl, ground (arith, e, b), refl)

expression_before-range_from :
    (source : Bytes) (end : ℕ)
    → expression_before source end
      ≡ range_from end (before_loop (suc end) source end 0 (spaces_before source end))
unfolding expression_before
expression_before-range_from source end = ground arith

-- `expressionBefore` comes to an end on every text, with the fuel of one more than the offset,
-- and gives a range that starts at or in front of the offset and ends at it.
pub expression_before_bound :
    (source : Bytes) (end : ℕ)
    → (range : ByteRange) × (expression_before source end ≡ some range)
      × (range.start ≤ end)
      × (range.end ≡ end)
expression_before_bound source end =
    let low = spaces_before_bound source end in
    let loop = before_loop (suc end) source end 0 (spaces_before source end) in
    rw (expression_before-range_from source end) (
      range_from-StopsBy end loop (
        StopsBy-weaken (spaces_before source end) end loop low (
          before_loop-StopsBy (suc end) source end 0 (spaces_before source end)
            (omega (arith, low)))))
