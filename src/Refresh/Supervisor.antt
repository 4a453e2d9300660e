-- ===== src/Refresh/Supervisor.antt =====
-- internal/python/manager.go: what `Manager.loop` decides behind each run of the worker: whether the
-- user is told of an outage, and how long it waits before the next run. What the run, the sections
-- under the lock and the two waits have seen is an argument.
pub mod Outages
pub mod Delays
mod Samples
use pogo.Prelude.{
  ℕ, zero, suc, ℤ, pos, negsuc, ◌+◌, ◌-◌, ◌*◌, ◌%◌, ◌^◌, Bool, true, false, not, ◌&&◌, ◌||◌, List,
  [], ◌∷◌, Option, none, some, ltb, leb_ℤ, if◌then◌else◌, u64,
}

-- `RestartLimit`, and `BackoffBase` in nanoseconds; both are int64 numbers.
pub record Config : Type 0 where
  pub restart_limit : ℤ
  pub backoff_base : ℤ

abbrev pub second : ℕ
second = 1000000000

abbrev pub positive_or : ℤ → ℕ → ℕ
positive_or (pos zero) default = default
positive_or (pos (suc n)) default = suc n
positive_or (negsuc n) default = default

-- What NewManager makes of the limit and the base, which are positive then.
unfoldable pub effective_limit : Config → ℕ
effective_limit config = positive_or config.restart_limit 5

unfoldable pub effective_base : Config → ℕ
effective_base config = positive_or config.backoff_base 100000000

pub record Supervisor : Type 0 where
  pub failures : ℕ
  pub notified : Bool

abbrev pub new_supervisor : Supervisor
new_supervisor = record { failures = 0; notified = false }

pub data RunError : Type 0 where
  no_error cleanup_error other_error : RunError

pub data Backoff : Type 0 where
  backoff_over backoff_refreshed backoff_stopped : Backoff

-- `reported` is that the run has called back with a loaded graph, `loaded` its result; `refresh` and
-- `superseded` are read under the lock behind the run; `waited` is the result of waitForRefresh and
-- `backoff` that of waitForBackoff, where they are called.
pub record Round : Type 0 where
  pub reported : Bool
  pub loaded : Bool
  pub error : RunError
  pub stopped : Bool
  pub refresh : Bool
  pub superseded : Bool
  pub waited : Bool
  pub backoff : Backoff

-- A number of 64 bits that is read as a signed one.
abbrev pub signed : ℕ → ℤ
signed n = if ltb n (2 ^ 63) then pos n else negsuc (2 ^ 64 - 1 - n)

-- `BackoffBase << (failures - 1)`, at most two seconds
unfoldable pub delay : ℕ → ℕ → ℤ
delay base failures =
    let shifted = signed (u64 (base * 2 ^ (failures - 1))) in
    if leb_ℤ shifted (pos (2 * second)) then shifted else pos (2 * second)

-- The state behind a round, whether the user was told of an outage, and whether the loop goes on.
pub record Decision : Type 0 where
  pub state : Supervisor
  pub outage : Bool
  pub goes_on : Bool
  pub delayed : Option ℤ

abbrev pub returns : Supervisor → Bool → Decision
returns s outage = record { state = s; outage = outage; goes_on = false; delayed = none }

abbrev pub told : Supervisor → Supervisor
told s = record s { notified = true }

abbrev pub onward : Supervisor → Bool → Option ℤ → Decision
onward s outage delayed = record { state = s; outage = outage; goes_on = true; delayed = delayed }

-- A session that a refresh has ended.
abbrev pub refreshed_session : Supervisor → RunError → Decision
refreshed_session s cleanup_error = returns (told s) (not s.notified)
refreshed_session s _ = onward (record s { failures = 0 }) false none

abbrev pub after_backoff : Supervisor → Bool → ℤ → Backoff → Decision
after_backoff s outage d backoff_over = onward s outage (some d)
after_backoff s outage d backoff_refreshed = onward (record s { failures = 0 }) outage (some d)
after_backoff s outage d backoff_stopped = record {
  state = s;
  outage = outage;
  goes_on = false;
  delayed = some d;
}

-- A run that has failed.
unfoldable pub failed_session : Config → Supervisor → Round → Decision
unfolding delay effective_limit effective_base
failed_session config s r =
    let fresh = if r.loaded then new_supervisor else s in
    let outage = not fresh.notified in
    let counted : Supervisor = record { failures = fresh.failures + 1; notified = true } in
    if ltb (effective_limit config) counted.failures
    then (if r.waited
        then onward (record counted { failures = 0 }) outage none
        else returns counted outage)
    else after_backoff counted outage (delay (effective_base config) counted.failures) r.backoff

abbrev pub ended_session : Config → Supervisor → Round → RunError → Decision
ended_session config s r no_error = returns s false
ended_session config s r cleanup_error = returns s (not s.notified)
ended_session config s r other_error = failed_session config s r

-- The body of the loop from the call of `run` on.
unfoldable pub supervise : Config → Supervisor → Round → Decision
unfolding failed_session
supervise config before r =
    let s = if r.reported then record before { notified = false } else before in
    if r.stopped
    then returns s false
    else if r.superseded && not r.refresh && not r.waited
    then returns s false
    else if r.superseded || r.refresh
    then refreshed_session s r.error
    else ended_session config s r r.error
