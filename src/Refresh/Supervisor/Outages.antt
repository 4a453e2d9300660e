-- ===== src/Refresh/Supervisor/Outages.antt =====
-- How often the user is told of an outage.
use pogo.Prelude.{
  ℕ, ◌+◌, ◌≤◌, ◌≡◌, refl, inl, inr, Bool, true, false, not, ◌&&◌, ◌||◌, List, [], ◌∷◌, ltb, arith,
  if◌then◌else◌, Bool-cases, ℤ,
}
use pogo.Refresh.Supervisor.{
  Config, effective_limit, effective_base, Supervisor, new_supervisor, RunError, no_error,
  cleanup_error, other_error, Backoff, backoff_over, backoff_refreshed, backoff_stopped, Round,
  delay, Decision, returns, refreshed_session, failed_session, ended_session, after_backoff,
  supervise,
}

abbrev one_if : Bool → ℕ
one_if true = 1
one_if false = 0

-- The outages that the loop reports over the rounds, until it returns.
unfoldable pub outages : Config → Supervisor → List Round → ℕ
unfolding supervise
outages config s [] = 0
outages config s (r ∷ rounds) =
    let d = supervise config s r in
    let rest = outages config d.state rounds in one_if d.outage + (if d.goes_on then rest else 0)

-- The rounds that have loaded a graph.
unfoldable pub loads : List Round → ℕ
loads [] = 0
loads (r ∷ rounds) = one_if (r.reported || r.loaded) + loads rounds

-- What the loop may still report: nothing where an outage is pending.
abbrev pending : Decision → ℕ
pending d = if d.goes_on then one_if d.state.notified else 1

-- An outage is reported only where none is pending, or a graph has been loaded since, and is pending
-- behind the round.
Fair : Bool → Bool → Decision → Type 0
Fair notified loaded d =
    (one_if d.outage ≤ pending d) × (one_if d.outage + one_if notified ≤ pending d + one_if loaded)

returns-Fair :
    (s : Supervisor) (notified loaded outage : Bool)
    → one_if outage + one_if notified ≤ 1 + one_if loaded
    → Fair notified loaded (returns s outage)
unfolding Fair
returns-Fair s notified loaded outage h = (ground arith, h)

after_backoff-Fair :
    (s : Supervisor) (outage notified loaded : Bool) (d : ℤ) (b : Backoff)
    → s.notified ≡ true
    → one_if outage + one_if notified ≤ 1 + one_if loaded
    → Fair notified loaded (after_backoff s outage d b)
unfolding Fair
after_backoff-Fair s outage notified loaded d backoff_over e h = rw e (ground arith, h)
after_backoff-Fair s outage notified loaded d backoff_refreshed e h = rw e (ground arith, h)
after_backoff-Fair s outage notified loaded d backoff_stopped e h = (ground arith, h)

failed_session-Fair :
    (config : Config) (s : Supervisor) (r : Round)
    → Fair s.notified r.loaded (failed_session config s r)
unfolding failed_session Fair
failed_session-Fair config s r =
    let fresh = if r.loaded then new_supervisor else s in
    let counted : Supervisor = record { failures = fresh.failures + 1; notified = true } in
    let few : one_if (not fresh.notified) + one_if s.notified ≤ 1 + one_if r.loaded =
      ground arith in
    let one : one_if (not fresh.notified) ≤ 1 = ground arith in
    elim (Bool-cases (ltb (effective_limit config) counted.failures)) [
      | inl many ↦ elim (Bool-cases r.waited) [
        | inl waited ↦ rw (many, waited) (one, few)
        | inr left ↦ rw (many, left) (one, few)
      ]
      | inr more ↦ rw more (
          after_backoff-Fair counted (not fresh.notified) s.notified r.loaded
            (delay (effective_base config) counted.failures) r.backoff refl few)
    ]

ended_session-Fair :
    (config : Config) (s : Supervisor) (r : Round) (e : RunError)
    → Fair s.notified r.loaded (ended_session config s r e)
ended_session-Fair config s r no_error = returns-Fair s s.notified r.loaded false (ground arith)
ended_session-Fair config s r cleanup_error =
    returns-Fair s s.notified r.loaded (not s.notified) (ground arith)
ended_session-Fair config s r other_error = failed_session-Fair config s r

refreshed_session-Fair :
    (s : Supervisor) (loaded : Bool) (e : RunError) → Fair s.notified loaded (refreshed_session s e)
unfolding Fair
refreshed_session-Fair s loaded no_error = (ground arith, ground arith)
refreshed_session-Fair s loaded cleanup_error = (ground arith, ground arith)
refreshed_session-Fair s loaded other_error = (ground arith, ground arith)

-- The callback of the run clears what is pending.
Fair-reported : (notified loaded : Bool) (d : Decision) → Fair false loaded d → Fair notified true d
unfolding Fair
Fair-reported notified loaded d (one, few) = (one, ground (arith, one))

Fair-same :
    (notified loaded : Bool) (d : Decision)
    → Fair notified loaded d
    → Fair notified (false || loaded) d
Fair-same notified loaded d fair = fair

decided-Fair :
    (config : Config) (s : Supervisor) (r : Round) (stopped left refreshes : Bool)
    → Fair s.notified r.loaded (
        if stopped
        then returns s false
        else if left
        then returns s false
        else if refreshes
        then refreshed_session s r.error
        else ended_session config s r r.error)
decided-Fair config s r true left refreshes =
    returns-Fair s s.notified r.loaded false (ground arith)
decided-Fair config s r false true refreshes =
    returns-Fair s s.notified r.loaded false (ground arith)
decided-Fair config s r false false true = refreshed_session-Fair s r.loaded r.error
decided-Fair config s r false false false = ended_session-Fair config s r r.error

supervise-Fair :
    (config : Config) (s : Supervisor) (r : Round)
    → Fair s.notified (r.reported || r.loaded) (supervise config s r)
unfolding supervise
supervise-Fair config s r =
    let left = r.superseded && not r.refresh && not r.waited in
    elim (Bool-cases r.reported) [
      | inl reported ↦ rw reported (
          Fair-reported s.notified r.loaded _ (
            decided-Fair config (record s { notified = false }) r r.stopped left
              (r.superseded || r.refresh)))
      | inr silent ↦ rw silent (decided-Fair config s r r.stopped left (r.superseded || r.refresh))
    ]

sum_bound :
    (goes_on : Bool) (outage owed notified loaded rest later : ℕ)
    → outage + notified ≤ (if goes_on then owed else 1) + loaded
    → rest + owed ≤ 1 + later
    → outage + (if goes_on then rest else 0) + notified ≤ 1 + (loaded + later)
sum_bound true outage owed notified loaded rest later h k = omega (arith, h, k)
sum_bound false outage owed notified loaded rest later h k = omega (arith, h, k)

outages_bound :
    (config : Config) (s : Supervisor) (rounds : List Round)
    → outages config s rounds + one_if s.notified ≤ 1 + loads rounds
unfolding outages loads Fair
outages_bound config s [] = ground arith
outages_bound config s (r ∷ rounds) =
    let d = supervise config s r in
    let (one, few) = supervise-Fair config s r in
    sum_bound d.goes_on (one_if d.outage) (one_if d.state.notified) (one_if s.notified)
      (one_if (r.reported || r.loaded)) (outages config d.state rounds) (loads rounds) few
      (outages_bound config d.state rounds)

-- Whatever a new loop meets, in however many rounds: it tells the user of an outage at most once
-- more often than there are rounds that have loaded a graph.
pub outages-loads :
    (config : Config) (rounds : List Round)
    → outages config new_supervisor rounds ≤ 1 + loads rounds
outages-loads config rounds = omega (arith, outages_bound config new_supervisor rounds)
