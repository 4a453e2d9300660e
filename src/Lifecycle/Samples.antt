-- ===== src/Lifecycle/Samples.antt =====
-- Concrete sessions of a client.
use pogo.Prelude.{
  ◌≡◌, ◌≤◌, ◌+◌, ◌⊎◌, ◌&&◌, if◌then◌else◌, refl, true, false, List, [], ◌∷◌, none, some, is_some,
  arith,
}
use pogo.Lifecycle.{
  state_running, state_shutdown, Method, initialize, initialized, shutdown, exit, feature, Request,
  Lifecycle, new_lifecycle, feature_called, failure_notified, count_effect, is_shutdown, state_new,
  ServerEvent, requested, load_failed, react_all, is_running, is_feature, handle, serve,
}
use pogo.Lifecycle.States.{
  rank, next_state, handle-next_state, handle-next_state_taken, reached_all, last_exit, code_of,
  serve-reached_all, handle-feature,
}
use pogo.Lifecycle.Workers.{starts, stops, serve-workers, SameEffects, react_all-SameEffects}

abbrev request : Method → Request
request m = record {
  method = m;
  valid_method = true;
  valid_params = true;
  factory_fails = false;
  stop_fails = false;
  feature_fails = false;
}

abbrev running_server : Lifecycle
running_server =
    serve (new_lifecycle true false true) (request initialize ∷ request initialized ∷ [])

running_server_state : running_server.state ≡ state_running
unfolding serve
running_server_state = refl

handle-next_state_example :
    ((handle running_server (request shutdown)).0.state ≡ running_server.state)
    ⊎ (next_state running_server.state (request shutdown).method
        ≡ some (handle running_server (request shutdown)).0.state)
handle-next_state_example = handle-next_state running_server (request shutdown)

running_server_edge :
    next_state running_server.state (request shutdown).method ≡ some state_shutdown
running_server_edge = ground (arith, running_server_state)

handle-next_state_taken_example :
    (handle running_server (request shutdown)).0.state ≡ state_shutdown
handle-next_state_taken_example =
    handle-next_state_taken running_server (request shutdown) state_shutdown running_server_edge
      refl

handle-feature_example :
    count_effect feature_called (handle running_server (request feature)).0.effects
    ≡ count_effect feature_called running_server.effects
      + (if is_running running_server.state
            && is_feature (request feature).method
            && (request feature).valid_method
            && (request feature).valid_params
          then 1
          else 0)
handle-feature_example = handle-feature running_server (request feature)

abbrev whole_session : List Request
whole_session =
    request initialize
    ∷ request initialized
    ∷ request feature
    ∷ request shutdown
    ∷ request exit
    ∷ []

serve-workers_example :
    (starts (serve (new_lifecycle true false true) whole_session) ≤ 1)
    × (stops (serve (new_lifecycle true false true) whole_session) ≤ 1)
    × ((starts (serve (new_lifecycle true false true) whole_session) ≡ 0)
        ⊎ (2 ≤ rank (serve (new_lifecycle true false true) whole_session).state))
    × (((is_shutdown (serve (new_lifecycle true false true) whole_session).state
            && (serve (new_lifecycle true false true) whole_session).has_worker)
          ≡ false)
        ⊎ (stops (serve (new_lifecycle true false true) whole_session) ≡ 1))
serve-workers_example = serve-workers true false true whole_session

abbrev first_part : List ServerEvent
first_part =
    requested (request initialize)
    ∷ requested (request initialized)
    ∷ load_failed
    ∷ requested (request shutdown)
    ∷ []

abbrev last_part : List ServerEvent
last_part = load_failed ∷ requested (request feature) ∷ requested (request exit) ∷ load_failed ∷ []

abbrev first_server : Lifecycle
first_server = react_all (new_lifecycle true false true) first_part

first_server_state : first_server.state ≡ state_shutdown
unfolding react_all
first_server_state = refl

first_server_warned : count_effect failure_notified first_server.effects ≡ 1
unfolding react_all
first_server_warned = refl

react_all-SameEffects_example : SameEffects first_server (react_all first_server last_part)
react_all-SameEffects_example =
    react_all-SameEffects true false true first_part last_part first_server_state

whole_session_exit : last_exit state_new none whole_session ≡ some state_shutdown
unfolding last_exit
whole_session_exit = refl

serve-reached_all_example :
    ((serve (new_lifecycle true false true) whole_session).state
      ≡ reached_all state_new whole_session)
    × ((serve (new_lifecycle true false true) whole_session).exited
        ≡ is_some (last_exit state_new none whole_session))
    × ((serve (new_lifecycle true false true) whole_session).exit_code
        ≡ code_of (last_exit state_new none whole_session))
serve-reached_all_example = serve-reached_all true false true whole_session
