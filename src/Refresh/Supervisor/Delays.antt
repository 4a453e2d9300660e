-- ===== src/Refresh/Supervisor/Delays.antt =====
-- How often, and after how long, a failing worker is started again.
use pogo.Prelude.{
  ℕ, ℤ, pos, ◌+◌, ◌-◌, ◌*◌, ◌^◌, ◌≤◌, ◌<◌, ◌≡◌, refl, ap, ◌∙◌, ◌⊎◌, inl, inr, Bool, true, false,
  not, ◌&&◌, ◌||◌, Option, none, some, ltb, leb, leb_ℤ, arith, if◌then◌else◌, u64, Bool-cases,
}
use native.Mathlib.Nat.{mul-le-mul_left, pow-le-pow_right}
use pogo.Refresh.Supervisor.{
  Config, second, effective_limit, effective_base, Supervisor, new_supervisor, RunError, no_error,
  cleanup_error, other_error, Backoff, backoff_over, backoff_refreshed, backoff_stopped, Round,
  signed, delay, Decision, returns, refreshed_session, failed_session, ended_session, after_backoff,
  supervise,
}

-- At most two seconds.
abbrev pub capped : ℕ → ℕ
capped n = if leb n (2 * second) then n else 2 * second

-- No delay, or the base doubled less often than the limit, up to two seconds.
abbrev pub IsDelay : Config → Option ℤ → Type 0
IsDelay config d =
    (d ≡ none)
    ⊎ ((n : ℕ) × (n < effective_limit config)
        × (d ≡ some (pos (capped (effective_base config * 2 ^ n)))))

signed_small : (n : ℕ) → n < 2 ^ 63 → signed (u64 n) ≡ pos n
signed_small n h =
    let e : u64 n ≡ n = omega (arith, h) in
    let small : ltb n (2 ^ 63) ≡ true = ground (arith, h) in rw (e, small) refl

pos_if : (b : Bool) (x y : ℕ) → (if b then pos x else pos y) ≡ pos (if b then x else y)
pos_if true x y = refl
pos_if false x y = refl

capped_pos :
    (x : ℕ)
    → (if leb_ℤ (pos x) (pos (2 * second)) then pos x else pos (2 * second)) ≡ pos (capped x)
capped_pos x = let e : x + 0 ≡ x = omega arith in rw e (pos_if (leb x (2 * second)) x (2 * second))

delay-capped :
    (base failures : ℕ)
    → base * 2 ^ (failures - 1) < 2 ^ 63
    → delay base failures ≡ pos (capped (base * 2 ^ (failures - 1)))
unfolding delay
delay-capped base failures h =
    let e = signed_small (base * 2 ^ (failures - 1)) h in
    rw (delay, e) (capped_pos (base * 2 ^ (failures - 1)))

after_backoff-IsDelay :
    (config : Config) (s : Supervisor) (outage : Bool) (d : ℤ) (b : Backoff) (n : ℕ)
    → n < effective_limit config
    → s.failures ≤ effective_limit config
    → d ≡ pos (capped (effective_base config * 2 ^ n))
    → ((after_backoff s outage d b).state.failures ≤ effective_limit config)
      × IsDelay config (after_backoff s outage d b).delayed
after_backoff-IsDelay config s outage d backoff_over n low bound e =
    (bound, inr (n, low, ap some e))
after_backoff-IsDelay config s outage d backoff_refreshed n low bound e =
    (omega arith, inr (n, low, ap some e))
after_backoff-IsDelay config s outage d backoff_stopped n low bound e =
    (bound, inr (n, low, ap some e))

power_fits : (base n limit : ℕ) → n ≤ limit → base * 2 ^ limit < 2 ^ 63 → base * 2 ^ n < 2 ^ 63
power_fits base n limit low fits =
    let grows : base * 2 ^ n ≤ base * 2 ^ limit =
      mul-le-mul_left base (pow-le-pow_right (omega arith) low) in
    omega (arith, grows, fits)

-- The decisions that keep the failures within the limit, with a delay as said.
abbrev pub KeepsBounds : Config → Decision → Type 0
KeepsBounds config d =
    ((d.goes_on ≡ false) ⊎ (d.state.failures ≤ effective_limit config)) × IsDelay config d.delayed

failed_session-KeepsBounds :
    (config : Config) (s : Supervisor) (r : Round)
    → effective_base config * 2 ^ effective_limit config < 2 ^ 63
    → KeepsBounds config (failed_session config s r)
unfolding failed_session
failed_session-KeepsBounds config s r fits =
    let fresh = if r.loaded then new_supervisor else s in
    let counted : Supervisor = record { failures = fresh.failures + 1; notified = true } in
    elim (Bool-cases (ltb (effective_limit config) counted.failures)) [
      | inl many ↦ elim (Bool-cases r.waited) [
        | inl waited ↦ rw (many, waited) (inr (omega arith), inl refl)
        | inr left ↦ rw (many, left) (inl refl, inl refl)
      ]
      | inr more ↦
          let low : fresh.failures + 1 ≤ effective_limit config = ground (arith, more) in
          let back : fresh.failures + 1 - 1 ≡ fresh.failures = omega arith in
          let value : delay (effective_base config) counted.failures
              ≡ pos (capped (effective_base config * 2 ^ fresh.failures)) =
            delay-capped (effective_base config) counted.failures (
              power_fits (effective_base config) (counted.failures - 1) (effective_limit config)
                (omega (arith, low)) fits)
            ∙ ap (λ n. pos (capped (effective_base config * 2 ^ n))) back in
          let (bound, delayed) =
            after_backoff-IsDelay config counted (not fresh.notified)
              (delay (effective_base config) counted.failures) r.backoff fresh.failures
              (omega (arith, low)) low value in
          rw more (inr bound, delayed)
    ]

ended_session-KeepsBounds :
    (config : Config) (s : Supervisor) (r : Round) (e : RunError)
    → effective_base config * 2 ^ effective_limit config < 2 ^ 63
    → KeepsBounds config (ended_session config s r e)
ended_session-KeepsBounds config s r no_error fits = (inl refl, inl refl)
ended_session-KeepsBounds config s r cleanup_error fits = (inl refl, inl refl)
ended_session-KeepsBounds config s r other_error fits = failed_session-KeepsBounds config s r fits

refreshed_session-KeepsBounds :
    (config : Config) (s : Supervisor) (e : RunError) → KeepsBounds config (refreshed_session s e)
refreshed_session-KeepsBounds config s no_error = (inr (omega arith), inl refl)
refreshed_session-KeepsBounds config s cleanup_error = (inl refl, inl refl)
refreshed_session-KeepsBounds config s other_error = (inr (omega arith), inl refl)

decided-KeepsBounds :
    (config : Config) (s : Supervisor) (r : Round) (stopped left refreshes : Bool)
    → effective_base config * 2 ^ effective_limit config < 2 ^ 63
    → KeepsBounds config (
        if stopped
        then returns s false
        else if left
        then returns s false
        else if refreshes
        then refreshed_session s r.error
        else ended_session config s r r.error)
decided-KeepsBounds config s r true left refreshes fits = (inl refl, inl refl)
decided-KeepsBounds config s r false true refreshes fits = (inl refl, inl refl)
decided-KeepsBounds config s r false false true fits =
    refreshed_session-KeepsBounds config s r.error
decided-KeepsBounds config s r false false false fits =
    ended_session-KeepsBounds config s r r.error fits

-- The base of the backoff, doubled as often as the restart limit, stays below 2^63. Then the loop
-- goes on only with failures within the limit, and a delay that it waits is the base, doubled
-- less often than the limit, up to two seconds.
pub supervise-KeepsBounds :
    (config : Config) (s : Supervisor) (r : Round)
    → effective_base config * 2 ^ effective_limit config < 2 ^ 63
    → KeepsBounds config (supervise config s r)
unfolding supervise
supervise-KeepsBounds config s r fits =
    let before = if r.reported then record s { notified = false } else s in
    decided-KeepsBounds config before r r.stopped (r.superseded && not r.refresh && not r.waited)
      (r.superseded || r.refresh) fits
