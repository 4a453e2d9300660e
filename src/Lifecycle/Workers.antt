-- ===== src/Lifecycle/Workers.antt =====
-- The Django worker is started once at most, only by `initialized`, and a shutdown has stopped it.
use pogo.Prelude.{
  ℕ, ◌+◌, ◌≤◌, ◌≡◌, ◌∙◌, ◌⊎◌, Bool, true, false, List, [], ◌∷◌, arith, ◌&&◌, if◌then◌else◌,
}
use pogo.Lifecycle.{
  state_shutdown, Request, Lifecycle, new_lifecycle, worker_start, worker_stop, failure_notified,
  feature_called, count_effect, is_shutdown, handle, serve, ServerEvent, requested, load_failed,
  react, react_all, notify_failure,
}
use pogo.Lifecycle.States.{rank}

abbrev pub starts : Lifecycle → ℕ
starts l = count_effect worker_start l.effects

abbrev pub stops : Lifecycle → ℕ
stops l = count_effect worker_stop l.effects

pub record IsConsistent (l : Lifecycle) : Type 0 where
  pub start_limit : starts l + 1 ≤ rank l.state ⊎ (starts l ≡ 0)
  pub stop_count : stops l ≡ (if l.worker_stopped then 1 else 0)
  pub one_start : starts l ≤ 1
  pub stopped_behind : (is_shutdown l.state && l.has_worker) ≡ true → l.worker_stopped ≡ true
  pub started_worker : starts l ≡ 0 ⊎ (l.has_worker ≡ true)

handle-IsConsistent : (l : Lifecycle) (r : Request) → IsConsistent l → IsConsistent (handle l r).0
unfolding handle
handle-IsConsistent l r c = ground arith

new_lifecycle-IsConsistent :
    (factory worker features : Bool) → IsConsistent (new_lifecycle factory worker features)
new_lifecycle-IsConsistent factory worker features = ground arith

serve-IsConsistent :
    (l : Lifecycle) (rs : List Request) → IsConsistent l → IsConsistent (serve l rs)
unfolding serve
serve-IsConsistent l [] c = c
serve-IsConsistent l (r ∷ rs) c = serve-IsConsistent (handle l r).0 rs (handle-IsConsistent l r c)

-- Whatever requests a new server gets, it starts its worker once at most and stops it once at
-- most, it has started none unless the client has sent `initialized`, and once it is shut down a
-- worker that it has is stopped, exactly once.
pub serve-workers :
    (factory worker features : Bool) (rs : List Request)
    → let l = serve (new_lifecycle factory worker features) rs in
      (starts l ≤ 1)
      × (stops l ≤ 1)
      × ((starts l ≡ 0) ⊎ (2 ≤ rank l.state))
      × (((is_shutdown l.state && l.has_worker) ≡ false) ⊎ (stops l ≡ 1))
serve-workers factory worker features rs =
    let l = serve (new_lifecycle factory worker features) rs in
    let c =
      serve-IsConsistent (new_lifecycle factory worker features) rs
        (new_lifecycle-IsConsistent factory worker features) in
    (ground arith, ground arith, ground arith, ground (arith, c.stopped_behind))

react-IsConsistent : (l : Lifecycle) (e : ServerEvent) → IsConsistent l → IsConsistent (react l e)
unfolding react
react-IsConsistent l (requested r) c = handle-IsConsistent l r c
react-IsConsistent l load_failed c = ground arith

react_all-IsConsistent :
    (l : Lifecycle) (es : List ServerEvent) → IsConsistent l → IsConsistent (react_all l es)
unfolding react_all
react_all-IsConsistent l [] c = c
react_all-IsConsistent l (e ∷ es) c =
    react_all-IsConsistent (react l e) es (react-IsConsistent l e c)

-- The effects that a server which is shut down has no more.
pub record SameEffects (l m : Lifecycle) : Type 0 where
  pub same_starts : starts m ≡ starts l
  pub same_stops : stops m ≡ stops l
  pub same_features : count_effect feature_called m.effects ≡ count_effect feature_called l.effects
  pub same_warnings :
      count_effect failure_notified m.effects ≡ count_effect failure_notified l.effects

react_shutdown :
    (l : Lifecycle) (e : ServerEvent)
    → IsConsistent l
    → l.state ≡ state_shutdown
    → ((react l e).state ≡ state_shutdown) × SameEffects l (react l e)
unfolding react handle notify_failure
react_shutdown l (requested r) c down = ground (arith, c.stopped_behind)
react_shutdown l load_failed c down = ground arith

react_all_shutdown :
    (l : Lifecycle) (es : List ServerEvent)
    → IsConsistent l
    → l.state ≡ state_shutdown
    → SameEffects l (react_all l es)
unfolding react_all
react_all_shutdown l [] c down = ground arith
react_all_shutdown l (e ∷ es) c down =
    let (still, same) = react_shutdown l e c down in
    let later = react_all_shutdown (react l e) es (react-IsConsistent l e c) still in
    record {
      same_starts = later.same_starts ∙ same.same_starts;
      same_stops = later.same_stops ∙ same.same_stops;
      same_features = later.same_features ∙ same.same_features;
      same_warnings = later.same_warnings ∙ same.same_warnings;
    }

-- If a new server has been shut down, after any requests and any reports of a failed schema load:
-- whatever requests and reports follow, in whatever order, it starts no worker, stops none again,
-- calls no feature and decides on no further warning.
pub react_all-SameEffects :
    (factory worker features : Bool) (before later : List ServerEvent)
    → (react_all (new_lifecycle factory worker features) before).state ≡ state_shutdown
    → SameEffects
        (react_all (new_lifecycle factory worker features) before)
        (react_all (react_all (new_lifecycle factory worker features) before) later)
react_all-SameEffects factory worker features before later down =
    react_all_shutdown (react_all (new_lifecycle factory worker features) before) later
      (react_all-IsConsistent (new_lifecycle factory worker features) before
        (new_lifecycle-IsConsistent factory worker features))
      down
