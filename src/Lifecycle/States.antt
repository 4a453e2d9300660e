-- ===== src/Lifecycle/States.antt =====
-- The states only go forward, one step at a time, and the exit code tells whether the server was shut
-- down.
use pogo.Prelude.{
  Option, none, some, is_some, refl, Bool, ℕ, ◌+◌, ◌≤◌, ◌≡◌, ◌⊎◌, ◌&&◌, if◌then◌else◌, true, List,
  [], ◌∷◌, arith,
}
use pogo.Lifecycle.{
  State, state_new, state_initialized, state_running, state_shutdown, Method, initialize,
  initialized, shutdown, Request, Lifecycle, feature_called, count_effect, is_running, is_feature,
  is_exit, new_lifecycle, handle, serve,
}

abbrev pub rank : State → ℕ
rank state_new = 0
rank state_initialized = 1
rank state_running = 2
rank state_shutdown = 3

-- One request moves the state forward by one step at most.
pub handle-rank :
    (l : Lifecycle) (r : Request)
    → (rank l.state ≤ rank (handle l r).0.state) × (rank (handle l r).0.state ≤ rank l.state + 1)
unfolding handle
handle-rank l r = ground arith

-- The diagram: the state that a method leads to.
abbrev pub next_state : State → Method → Option State
next_state state_new initialize = some state_initialized
next_state state_initialized initialized = some state_running
next_state state_running shutdown = some state_shutdown
next_state _ _ = none

-- A request either leaves the state alone or takes the edge of the diagram for its method.
pub handle-next_state :
    (l : Lifecycle) (r : Request)
    → ((handle l r).0.state ≡ l.state) ⊎ (next_state l.state r.method ≡ some (handle l r).0.state)
unfolding handle
handle-next_state l r = ground arith

-- A request that glsp accepts takes the edge that the diagram has for its method.
pub handle-next_state_taken :
    (l : Lifecycle) (r : Request) (s : State)
    → next_state l.state r.method ≡ some s
    → (r.valid_method && r.valid_params) ≡ true
    → (handle l r).0.state ≡ s
unfolding handle
handle-next_state_taken l r s edge valid = ground arith

-- The states that a sequence of requests goes through are in order.
pub serve-rank : (l : Lifecycle) (rs : List Request) → rank l.state ≤ rank (serve l rs).state
unfolding serve
serve-rank l [] = omega arith
serve-rank l (r ∷ rs) = omega (arith, handle-rank l r, serve-rank (handle l r).0 rs)

-- Where the diagram stands behind a request, which counts only if glsp accepts it.
abbrev pub reached : State → Request → State
reached s r =
    if r.valid_method && r.valid_params
    then elim (next_state s r.method) [ none ↦ s | some t ↦ t ]
    else s

pub reached_all : State → List Request → State
reached_all s [] = s
reached_all s (r ∷ rs) = reached_all (reached s r) rs

-- Where the diagram stands at the last exit request, if there is one.
unfoldable pub last_exit : State → Option State → List Request → Option State
last_exit s at [] = at
last_exit s at (r ∷ rs) = last_exit (reached s r) (if is_exit r.method then some s else at) rs

abbrev pub code_of : Option State → ℕ
code_of none = 0
code_of (some state_shutdown) = 0
code_of (some _) = 1

handle-reached : (l : Lifecycle) (r : Request) → (handle l r).0.state ≡ reached l.state r
unfolding handle
handle-reached l r = ground arith

handle-last_exit :
    (l : Lifecycle) (r : Request) (at : Option State)
    → l.exited ≡ is_some at
    → l.exit_code ≡ code_of at
    → ((handle l r).0.exited ≡ is_some (if is_exit r.method then some l.state else at))
      × ((handle l r).0.exit_code ≡ code_of (if is_exit r.method then some l.state else at))
unfolding handle
handle-last_exit l r at ended code = ground arith

serve-last_exit :
    (l : Lifecycle) (at : Option State) (rs : List Request)
    → l.exited ≡ is_some at
    → l.exit_code ≡ code_of at
    → ((serve l rs).state ≡ reached_all l.state rs)
      × ((serve l rs).exited ≡ is_some (last_exit l.state at rs))
      × ((serve l rs).exit_code ≡ code_of (last_exit l.state at rs))
unfolding serve reached_all last_exit
serve-last_exit l at [] ended code = (refl, ended, code)
serve-last_exit l at (r ∷ rs) ended code =
    let (ended', code') = handle-last_exit l r at ended code in
    rw (← handle-reached l r) (
      serve-last_exit (handle l r).0 (if is_exit r.method then some l.state else at) rs ended'
        code')

-- Whatever requests a new server gets: it is in the state to which the diagram leads with the
-- requests that glsp accepts; it has exited exactly if there was an exit request; and its exit
-- code is 1 if the diagram stood elsewhere than at the shutdown when the last exit request came,
-- and 0 otherwise.
pub serve-reached_all :
    (factory worker features : Bool) (rs : List Request)
    → let l = serve (new_lifecycle factory worker features) rs in
      (l.state ≡ reached_all state_new rs)
      × (l.exited ≡ is_some (last_exit state_new none rs))
      × (l.exit_code ≡ code_of (last_exit state_new none rs))
serve-reached_all factory worker features rs =
    serve-last_exit (new_lifecycle factory worker features) none rs refl refl

-- The features are called for a feature request that glsp accepts while the server is running,
-- once, and for no other request.
pub handle-feature :
    (l : Lifecycle) (r : Request)
    → count_effect feature_called (handle l r).0.effects
      ≡ count_effect feature_called l.effects
        + (if is_running l.state && is_feature r.method && r.valid_method && r.valid_params
            then 1
            else 0)
unfolding handle
handle-feature l r = ground arith
