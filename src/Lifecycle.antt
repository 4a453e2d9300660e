-- ===== src/Lifecycle.antt =====
-- internal/lsp/lifecycle.go: the one-way states of the language server. glsp's generated handler
-- decodes a request and calls the callback of its method; what it decides, and what the worker, the
-- factory and the features answer, comes with the request.
pub mod States
mod Samples
pub mod Workers
use pogo.Prelude.{
  ℕ, suc, ◌+◌, Bool, true, false, not, ◌&&◌, ◌||◌, List, [], ◌∷◌, Option, none, some, if◌then◌else◌,
}

pub data State : Type 0 where
  state_new state_initialized state_running state_shutdown : State

-- `feature` stands for the methods that `features` and `didSave` handle.
pub data Method : Type 0 where
  initialize initialized shutdown exit cancel_request set_trace feature : Method

-- A request, with what the code that is called for it answers.
pub record Request : Type 0 where
  pub method : Method
  pub valid_method : Bool  -- glsp knows the method
  pub valid_params : Bool  -- glsp could decode the parameters
  pub factory_fails : Bool
  pub stop_fails : Bool
  pub feature_fails : Bool

-- What a request does outside, the latest first.
pub data Effect : Type 0 where
  worker_start worker_stop cancelled feature_called features_closed failure_notified : Effect

pub record Lifecycle : Type 0 where
  pub state : State
  pub exited : Bool
  pub exit_code : ℕ
  pub has_factory : Bool
  pub has_worker : Bool
  pub has_features : Bool
  pub configuration_error : Bool
  pub has_notifier : Bool
  pub worker_stopped : Bool  -- workerStop has run
  pub stop_error : Bool  -- workerStopErr
  pub effects : List Effect

-- `NewLifecycleContext` with or without a worker, `NewLifecycleContextWithFactory`.
abbrev pub new_lifecycle : Bool → Bool → Bool → Lifecycle
new_lifecycle factory worker features = record {
  state = state_new;
  exited = false;
  exit_code = 0;
  has_factory = factory;
  has_worker = worker;
  has_features = features;
  configuration_error = false;
  has_notifier = false;
  worker_stopped = false;
  stop_error = false;
  effects = [];
}

-- The error of a request, if any.
pub data Outcome : Type 0 where
  answered : Outcome
  not_initialized initialize_once initialized_once initialized_missing shut_down : Outcome
  invalid_method invalid_params handler_failed : Outcome

abbrev pub is_shutdown : State → Bool
is_shutdown state_shutdown = true
is_shutdown _ = false

abbrev pub emit : Lifecycle → Effect → Lifecycle
emit l e = record l { effects = e ∷ l.effects }

abbrev pub is_running : State → Bool
is_running state_running = true
is_running _ = false

abbrev pub is_feature : Method → Bool
is_feature feature = true
is_feature _ = false

abbrev pub same_effect : Effect → Effect → Bool
same_effect worker_start worker_start = true
same_effect worker_stop worker_stop = true
same_effect cancelled cancelled = true
same_effect feature_called feature_called = true
same_effect features_closed features_closed = true
same_effect failure_notified failure_notified = true
same_effect _ _ = false

abbrev pub count_effect : Effect → List Effect → ℕ
count_effect e [] = 0
count_effect e (f ∷ fs) = if same_effect e f then suc (count_effect e fs) else count_effect e fs

-- `notify` with the warning of a failed schema load.
pub notify_failure : Lifecycle → Lifecycle
notify_failure l =
    if not l.exited && not (is_shutdown l.state) && l.has_notifier
    then emit l failure_notified
    else l

-- `stopWorker`, whose body runs once.
pub stop_worker : Lifecycle → Bool → Lifecycle × Bool
stop_worker l fails =
    if not l.has_worker
    then (l, false)
    else if l.worker_stopped
    then (l, l.stop_error)
    else (emit (record l { worker_stopped = true; stop_error = fails }) worker_stop, fails)

pub on_initialize : Lifecycle → Bool → Lifecycle
on_initialize l factory_fails =
    if l.has_factory && not l.has_worker
    then (if factory_fails
        then record l { configuration_error = true }
        else record l { has_worker = true })
    else l

pub on_initialized : Lifecycle → Lifecycle
unfolding notify_failure
on_initialized l =
    let l1 = record l { has_notifier = true } in
    if l1.configuration_error
    then notify_failure l1
    else if l1.has_worker
    then emit l1 worker_start
    else l1

pub on_shutdown : Lifecycle → Bool → Lifecycle × Bool
unfolding stop_worker
on_shutdown l stop_fails =
    let (l1, err) =
      stop_worker (record l { state = state_shutdown; has_notifier = false }) stop_fails in
    (if l1.has_features then emit l1 features_closed else l1, err)

pub on_exit : Lifecycle → Bool → Lifecycle
unfolding stop_worker
on_exit l stop_fails =
    let l1 = record l { exited = true; exit_code = if is_shutdown l.state then 0 else 1 } in
    emit (stop_worker l1 stop_fails).0 cancelled

abbrev pub is_failure : Bool → Outcome
is_failure true = handler_failed
is_failure false = answered

-- The callback of a method, then the change of state that a success makes.
pub dispatch : Lifecycle → Request → Lifecycle × Outcome
unfolding on_initialize on_initialized on_shutdown
dispatch l r = elim r.method [
  | initialize ↦ (record (on_initialize l r.factory_fails) { state = state_initialized }, answered)
  | initialized ↦ (record (on_initialized l) { state = state_running }, answered)
  | shutdown ↦ let (l1, err) = on_shutdown l r.stop_fails in (l1, is_failure err)
  | exit ↦ (l, answered)
  | cancel_request ↦ (l, answered)
  | set_trace ↦ (l, answered)
  | feature ↦ (emit l feature_called, is_failure r.feature_fails)
]

-- The `switch` on the state in front of the handler: the error that ends the request there.
pub admission : State → Method → Option Outcome
admission state_new initialize = none
admission state_new _ = some not_initialized
admission state_initialized initialize = some initialize_once
admission state_initialized initialized = none
admission state_initialized cancel_request = none
admission state_initialized set_trace = none
admission state_initialized _ = some initialized_missing
admission state_running initialize = some initialize_once
admission state_running initialized = some initialized_once
admission state_running _ = none
admission state_shutdown _ = some shut_down

pub handle_admitted : Lifecycle → Request → Lifecycle × Outcome
unfolding dispatch
handle_admitted l r =
    if not r.valid_method
    then (l, invalid_method)
    else if not r.valid_params
    then (l, invalid_params)
    else dispatch l r

abbrev pub is_exit : Method → Bool
is_exit exit = true
is_exit _ = false

pub handle : Lifecycle → Request → Lifecycle × Outcome
unfolding on_exit admission handle_admitted
handle l r =
    if is_exit r.method
    then (on_exit l r.stop_fails, answered)
    else elim (admission l.state r.method) [ some error ↦ (l, error) | none ↦ handle_admitted l r ]

pub serve : Lifecycle → List Request → Lifecycle
unfolding handle
serve l [] = l
serve l (r ∷ rs) = serve (handle l r).0 rs

-- What the server meets: a request, or the goroutine that the worker's callback has started for a
-- schema that could not be loaded: the section of `notify` in which it decides to show a warning.
-- It may run at any time, also where the worker has not been started.
pub data ServerEvent : Type 0 where
  requested : Request → ServerEvent
  load_failed : ServerEvent

pub react : Lifecycle → ServerEvent → Lifecycle
unfolding handle notify_failure
react l (requested r) = (handle l r).0
react l load_failed = notify_failure l

pub react_all : Lifecycle → List ServerEvent → Lifecycle
unfolding react
react_all l [] = l
react_all l (e ∷ es) = react_all (react l e) es
