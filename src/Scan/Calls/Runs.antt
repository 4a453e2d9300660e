-- ===== src/Scan/Calls/Runs.antt =====
-- The runs of spaces and of identifier bytes that the loops in front of a parenthesis pass.
use pogo.Prelude.{
  ℕ, zero, suc, ◌≡◌, refl, subst, ◌≤◌, inl, inr, Bool, true, false, ◌&&◌, if◌then◌else◌, leb, List,
  arith, Bytes, Bool-cases,
}
use pogo.Text.{is_space, is_identifier_byte}
use pogo.Position.{byte_at}
use pogo.Scan.Calls.{spaces_before, code_at, name_before}
use pogo.Scan.Calls.Receiver.{spaces_before_bound, name_before_bound}

-- All indexes from the lower one up to the one before the higher one meet the test.
pub all_between : (ℕ → Bool) → ℕ → ℕ → Bool
all_between test low zero = true
all_between test low (suc n) = if leb low n then test n && all_between test low n else true

all_between_empty : (test : ℕ → Bool) (n : ℕ) → all_between test n n ≡ true
unfolding all_between
all_between_empty test zero = refl
all_between_empty test (suc n) = let e : leb (suc n) n ≡ false = ground arith in rw e refl

all_between_at_start : (test : ℕ → Bool) (low : ℕ) → all_between test low 0 ≡ true
unfolding all_between
all_between_at_start test low = refl

all_between_step :
    (test : ℕ → Bool) (low n : ℕ)
    → low ≤ n
    → test n ≡ true
    → all_between test low n ≡ true
    → all_between test low (suc n) ≡ true
unfolding all_between
all_between_step test low n h here rest =
    let e : leb low n ≡ true = ground (arith, h) in rw (e, here) rest

abbrev pub is_name_byte : Bytes → List Bool → ℕ → Bool
is_name_byte source mask k = is_identifier_byte (byte_at source k) && code_at mask k

abbrev pub is_space_at : Bytes → ℕ → Bool
is_space_at source k = is_space (byte_at source k)

name_before_in :
    (source : Bytes) (mask : List Bool) (n : ℕ)
    → is_name_byte source mask n ≡ true
    → name_before source mask n ≡ name_before source mask (suc n)
unfolding name_before
name_before_in source mask n h = rw h refl

name_before_out :
    (source : Bytes) (mask : List Bool) (n : ℕ)
    → is_name_byte source mask n ≡ false
    → suc n ≡ name_before source mask (suc n)
unfolding name_before
name_before_out source mask n h = rw h refl

spaces_before_in :
    (source : Bytes) (n : ℕ)
    → is_space_at source n ≡ true
    → spaces_before source n ≡ spaces_before source (suc n)
unfolding spaces_before
spaces_before_in source n h = rw h refl

spaces_before_out :
    (source : Bytes) (n : ℕ) → is_space_at source n ≡ false → suc n ≡ spaces_before source (suc n)
unfolding spaces_before
spaces_before_out source n h = rw h refl

pub name_before-all_between :
    (source : Bytes) (mask : List Bool) (n : ℕ)
    → all_between (is_name_byte source mask) (name_before source mask n) n ≡ true
name_before-all_between source mask zero =
    all_between_at_start (is_name_byte source mask) (name_before source mask 0)
name_before-all_between source mask (suc n) =
    let test = is_name_byte source mask in
    let holds = λ (m : ℕ). all_between test m (suc n) ≡ true in
    elim (Bool-cases (test n)) [
      | inl name ↦ subst holds (name_before_in source mask n name) (
          all_between_step test (name_before source mask n) n (name_before_bound source mask n) name
            (name_before-all_between source mask n))
      | inr other ↦
          subst holds (name_before_out source mask n other) (all_between_empty test (suc n))
    ]

pub spaces_before-all_between :
    (source : Bytes) (n : ℕ) → all_between (is_space_at source) (spaces_before source n) n ≡ true
spaces_before-all_between source zero =
    all_between_at_start (is_space_at source) (spaces_before source 0)
spaces_before-all_between source (suc n) =
    let test = is_space_at source in
    let holds = λ (m : ℕ). all_between test m (suc n) ≡ true in
    elim (Bool-cases (test n)) [
      | inl space ↦ subst holds (spaces_before_in source n space) (
          all_between_step test (spaces_before source n) n (spaces_before_bound source n) space
            (spaces_before-all_between source n))
      | inr other ↦ subst holds (spaces_before_out source n other) (all_between_empty test (suc n))
    ]
