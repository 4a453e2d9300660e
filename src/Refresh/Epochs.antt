-- ===== src/Refresh/Epochs.antt =====
-- Sequences of locked sections, in any order: the epochs stay in order, and a session that a save has
-- overtaken publishes nothing.
use pogo.Prelude.{
  ℕ, ◌+◌, ◌≤◌, ◌<◌, ◌≡◌, ◌∙◌, if◌then◌else◌, Bool, true, false, List, [], ◌∷◌, none, arith, length,
}
use pogo.Cache.{Cache}
use pogo.Refresh.{
  Manager, new_manager, start, did_save, timer_fired, begin_session, publish_graph,
  load_provisional, end_session, take_wake, stop, finish,
}

-- The locked sections, with what the clock, the contexts and the disk supply.
pub data Event (G : Type 0) : Type 0 where
  started : Event G
  saved : ℕ → ℕ → Event G
  timer : ℕ → ℕ → Event G
  begun : Event G
  published : Bool → G → Event G
  provisional : Bool → ℕ → G → Event G
  ended : Event G
  woken : ℕ → ℕ → Event G
  stopped : Bool → Event G
  finished : Event G

abbrev pub u64_max : ℕ
u64_max = 18446744073709551615

module _ (G : Type 0) where
  unfoldable pub step : Manager G → Event G → Manager G
  unfolding start did_save timer_fired begin_session publish_graph load_provisional end_session
      take_wake stop finish
  step m started = start G m
  step m (saved now delay) = did_save G m now delay
  step m (timer epoch now) = timer_fired G m epoch now
  step m begun = begin_session G m
  step m (published cancelled graph) = (publish_graph G m cancelled graph).0
  step m (provisional cancelled id graph) = (load_provisional G m cancelled id graph).0
  step m ended = (end_session G m).0
  step m (woken after now) = (take_wake G m after now).0
  step m (stopped was_running) = stop G m was_running
  step m finished = finish G m

  unfoldable pub run : Manager G → List (Event G) → Manager G
  unfolding step
  run m [] = m
  run m (e ∷ es) = run (step m e) es

  pub record IsOrdered (m : Manager G) : Type 0 where
    pub released_behind : m.released_epoch ≤ m.refresh_epoch
    pub active_behind : m.active_epoch ≤ m.refresh_epoch

  step-IsOrdered :
      (m : Manager G) (e : Event G) → m.refresh_epoch < u64_max → IsOrdered m → IsOrdered (step m e)
  unfolding step
  step-IsOrdered m e small o = ground arith

  -- A section moves the epoch forward by one at most.
  pub refresh_epoch-step :
      (m : Manager G) (e : Event G)
      → m.refresh_epoch < u64_max
      → (m.refresh_epoch ≤ (step m e).refresh_epoch)
        × ((step m e).refresh_epoch ≤ m.refresh_epoch + 1)
  unfolding step
  refresh_epoch-step m e small = ground arith

  -- No released and no active epoch gets ahead of the requested one.
  pub run-IsOrdered :
      (m : Manager G) (es : List (Event G))
      → m.refresh_epoch + length es ≤ u64_max
      → IsOrdered m
      → IsOrdered (run m es)
  unfolding run
  run-IsOrdered m [] small o = o
  run-IsOrdered m (e ∷ es) small o =
      run-IsOrdered (step m e) es (omega (arith, refresh_epoch-step m e (omega arith)))
        (step-IsOrdered m e (omega arith) o)

  -- The refreshes that a list of sections asks for, read off the list: a save counts while the loop
  -- runs, from a start to its end, and a stop counts if it found the loop running.
  unfoldable pub asked : Bool → List (Event G) → ℕ
  asked on [] = 0
  asked on (started ∷ es) = asked true es
  asked on (finished ∷ es) = asked false es
  asked on (saved now delay ∷ es) = (if on then 1 else 0) + asked on es
  asked on (stopped was_running ∷ es) = (if was_running then 1 else 0) + asked on es
  asked on (timer epoch now ∷ es) = asked on es
  asked on (begun ∷ es) = asked on es
  asked on (published cancelled graph ∷ es) = asked on es
  asked on (provisional cancelled id graph ∷ es) = asked on es
  asked on (ended ∷ es) = asked on es
  asked on (woken after now ∷ es) = asked on es

  asked-step :
      (m : Manager G) (e : Event G) (es : List (Event G))
      → m.refresh_epoch < u64_max
      → (step m e).refresh_epoch + asked (step m e).running es
        ≡ m.refresh_epoch + asked m.running (e ∷ es)
  unfolding step asked
  asked-step m e es small = ground arith

  run-asked :
      (m : Manager G) (es : List (Event G))
      → m.refresh_epoch + length es ≤ u64_max
      → (run m es).refresh_epoch ≡ m.refresh_epoch + asked m.running es
  unfolding run asked
  run-asked m [] small = omega arith
  run-asked m (e ∷ es) small =
      run-asked (step m e) es (omega (arith, refresh_epoch-step m e (omega arith)))
      ∙ asked-step m e es (omega arith)

  -- After any sequence of fewer than 2^64 sections that follows `NewManager`, the requested epoch
  -- is the number of saves that came while the loop ran, between a start and the end of the loop,
  -- and of stops that had found it running; no released and no active epoch is ahead of it.
  pub run-asked_epochs :
      (cache : Cache G) (es : List (Event G))
      → length es ≤ u64_max
      → let m = run (new_manager G cache) es in
        (m.refresh_epoch ≡ asked false es)
        × (m.released_epoch ≤ m.refresh_epoch)
        × (m.active_epoch ≤ m.refresh_epoch)
  run-asked_epochs cache es small =
      let fresh = new_manager G cache in
      let o =
        run-IsOrdered fresh es (omega (arith, small))
          (record { released_behind = omega arith; active_behind = omega arith }) in
      (
        run-asked fresh es (omega (arith, small)) ∙ (omega arith),
        o.released_behind,
        o.active_behind,
      )

  abbrev is_begun : Event G → Bool
  is_begun begun = true
  is_begun _ = false

  abbrev pub NoBegin : List (Event G) → Type 0
  NoBegin [] = Unit {0}
  NoBegin (e ∷ es) = (is_begun e ≡ false) × NoBegin es

  -- A session that is behind stays behind until another one begins.
  step_behind :
      (m : Manager G) (e : Event G)
      → m.refresh_epoch < u64_max
      → is_begun e ≡ false
      → m.active_epoch < m.refresh_epoch
      → (step m e).active_epoch < (step m e).refresh_epoch
  unfolding step
  step_behind m e small other behind = ground arith

  run_behind :
      (m : Manager G) (es : List (Event G))
      → m.refresh_epoch + length es ≤ u64_max
      → NoBegin es
      → m.active_epoch < m.refresh_epoch
      → (run m es).active_epoch < (run m es).refresh_epoch
  unfolding run
  run_behind m [] small other behind = behind
  run_behind m (e ∷ es) small (first, other) behind =
      run_behind (step m e) es (omega (arith, refresh_epoch-step m e (omega arith))) other
        (step_behind m e (omega arith) first behind)

  publish_graph_behind :
      (m : Manager G) (cancelled : Bool) (graph : G)
      → m.active_epoch < m.refresh_epoch
      → publish_graph G m cancelled graph ≡ (m, none)
  unfolding publish_graph
  publish_graph_behind m cancelled graph behind = ground arith

  did_save_behind :
      (m : Manager G) (now delay : ℕ)
      → m.refresh_epoch < u64_max
      → m.running ≡ true
      → IsOrdered m
      → ((did_save G m now delay).active_epoch < (did_save G m now delay).refresh_epoch)
        × ((did_save G m now delay).refresh_epoch ≡ m.refresh_epoch + 1)
  unfolding did_save
  did_save_behind m now delay small on o = ground arith

  -- While the manager runs, its epochs are in order and the number of refreshes stays below 2^64:
  -- a save that affects the schema overtakes the session that runs. Whatever other sections run
  -- after it, the session's graph is refused and changes nothing, until another session begins.
  pub publish_graph-run-did_save :
      (m : Manager G) (now delay : ℕ) (es : List (Event G)) (cancelled : Bool) (graph : G)
      → m.running ≡ true
      → IsOrdered m
      → m.refresh_epoch + 1 + length es ≤ u64_max
      → NoBegin es
      → publish_graph G (run (did_save G m now delay) es) cancelled graph
        ≡ (run (did_save G m now delay) es, none)
  publish_graph-run-did_save m now delay es cancelled graph on o small other =
      let (behind, next) = did_save_behind m now delay (omega arith) on o in
      publish_graph_behind (run (did_save G m now delay) es) cancelled graph
        (run_behind (did_save G m now delay) es (omega arith) other behind)
