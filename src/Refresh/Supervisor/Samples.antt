-- ===== src/Refresh/Supervisor/Samples.antt =====
-- A worker that fails twice under the limits that NewManager chooses.
use pogo.Prelude.{pos, ◌*◌, ◌^◌, ◌+◌, ◌≤◌, ◌<◌, ◌≡◌, refl, true, false, [], ◌∷◌, some, arith}
use pogo.Refresh.Supervisor.{
  Config, effective_limit, effective_base, Supervisor, new_supervisor, other_error, backoff_over,
  Round, supervise,
}
use pogo.Refresh.Supervisor.Outages.{outages, loads, outages-loads}
use pogo.Refresh.Supervisor.Delays.{KeepsBounds, supervise-KeepsBounds}

abbrev default_config : Config
default_config = record { restart_limit = pos 0; backoff_base = pos 0 }

abbrev failed_round : Round
failed_round = record {
  reported = false;
  loaded = false;
  error = other_error;
  stopped = false;
  refresh = false;
  superseded = false;
  waited = false;
  backoff = backoff_over;
}

abbrev failing : Supervisor
failing = record { failures = 1; notified = true }

second_delay : (supervise default_config failing failed_round).delayed ≡ some (pos 200000000)
unfolding supervise
second_delay = refl

default_fits : effective_base default_config * 2 ^ effective_limit default_config < 2 ^ 63
unfolding effective_base effective_limit
default_fits = omega arith

two_failures : outages default_config new_supervisor (failed_round ∷ failed_round ∷ []) ≡ 1
unfolding outages
two_failures = refl

supervise-KeepsBounds_example :
    KeepsBounds default_config (supervise default_config failing failed_round)
supervise-KeepsBounds_example =
    supervise-KeepsBounds default_config failing failed_round default_fits

outages-loads_example :
    outages default_config new_supervisor (failed_round ∷ failed_round ∷ [])
    ≤ 1 + loads (failed_round ∷ failed_round ∷ [])
outages-loads_example = outages-loads default_config (failed_round ∷ failed_round ∷ [])
