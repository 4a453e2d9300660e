-- ===== src/Refresh.antt =====
-- internal/python/manager.go: the refresh of the schema. The state that `Manager.mu` guards, and one
-- function for each section that runs under the lock; goroutines and timers may interleave the
-- sections in any order. What a section sees outside the state, the clock, its context or a token of
-- the wake channel, is an argument. A graph is a parameter.
pub mod Epochs
mod Samples
pub mod Publish
pub mod Supervisor
use pogo.Prelude.{
  ℕ, ◌+◌, ◌≡◌, Bool, true, false, not, ◌&&◌, ◌||◌, List, [], ◌∷◌, Option, none, some, ltb, ◌==◌,
  if◌then◌else◌, is_some, u64,
}
use pogo.Cache.{Cache, load, replace}

pub data Authority : Type 0 where
  authority_none authority_existing authority_provisional authority_runtime : Authority

abbrev pub is_none_authority : Authority → Bool
is_none_authority authority_none = true
is_none_authority _ = false

module _ (G : Type 0) where
  pub record Manager : Type 0 where
    pub cache : Cache G
    pub running : Bool  -- cancel != nil
    pub start_id : ℕ  -- uint64
    pub has_session : Bool  -- sessionCancel != nil
    pub refresh_epoch : ℕ  -- uint64
    pub released_epoch : ℕ  -- uint64
    pub active_epoch : ℕ  -- uint64
    pub refresh_pending : Bool
    pub refresh_deadline : ℕ
    pub authority : Authority
    pub published_authority : ℕ  -- uint64

  -- What `NewManager` leaves.
  abbrev pub new_manager : Cache G → Manager
  new_manager cache = record {
    cache = cache;
    running = false;
    start_id = 0;
    has_session = false;
    refresh_epoch = 0;
    released_epoch = 0;
    active_epoch = 0;
    refresh_pending = false;
    refresh_deadline = 0;
    authority = elim (load cache).0 [ none ↦ authority_none | some g ↦ authority_existing ];
    published_authority = 0;
  }

  pub start : Manager → Manager
  start m = if m.running then m else record m {
    running = true;
    refresh_pending = false;
    released_epoch = m.refresh_epoch;
    start_id = u64 (m.start_id + 1);
  }

  -- `DidSave` for a path that affects the schema; the timer is armed for the new epoch.
  pub did_save : Manager → ℕ → ℕ → Manager
  did_save m now delay = if not m.running then m else record m {
    refresh_epoch = u64 (m.refresh_epoch + 1);
    refresh_pending = false;
    refresh_deadline = now + delay;
  }

  -- The timer's function for the epoch that it was armed for. A stopped timer may still run.
  pub timer_fired : Manager → ℕ → ℕ → Manager
  timer_fired m epoch now =
      if not m.running || not (m.refresh_epoch == epoch) || ltb now m.refresh_deadline
      then m
      else record m { refresh_pending = true; released_epoch = epoch }

  -- The top of `loop`: a session may begin if every requested refresh has been released.
  pub may_begin : Manager → Bool
  may_begin m = not (ltb m.released_epoch m.refresh_epoch)

  -- The next section of `loop`, where other sections may have run since `may_begin`.
  pub begin_session : Manager → Manager
  begin_session m = record m { has_session = true; active_epoch = m.refresh_epoch }

  -- `publishGraph`: the generation, if the graph is accepted.
  pub publish_graph : Manager → Bool → G → Manager × Option ℕ
  unfolding replace
  publish_graph m cancelled graph =
      if cancelled
        || m.refresh_pending
        || not (m.active_epoch == m.refresh_epoch)
        || not (m.active_epoch == m.released_epoch)
      then (m, none)
      else let (cache, generation) = replace m.cache (some graph) in
        (
          record m {
            cache = cache;
            authority = authority_runtime;
            published_authority = u64 (m.published_authority + 1);
          },
          some generation,
        )

  -- The last section of `loadProvisional`, for the graph that it has read from the disk.
  pub load_provisional : Manager → Bool → ℕ → G → Manager × Option ℕ
  unfolding load replace
  load_provisional m cancelled start_id graph =
      if cancelled
        || not m.running
        || not (m.start_id == start_id)
        || not (is_none_authority m.authority)
        || is_some (load m.cache).0
      then (m, none)
      else let (cache, generation) = replace m.cache (some graph) in
        (record m { cache = cache; authority = authority_provisional }, some generation)

  -- The section of `loop` behind a session: whether a refresh is pending.
  pub end_session : Manager → Manager × Bool
  end_session m = (record m { has_session = false; refresh_pending = false }, m.refresh_pending)

  -- A receive from `wake` in `waitForRefresh` and `waitForBackoff`: whether the refresh is valid.
  pub take_wake : Manager → ℕ → ℕ → Manager × Bool
  take_wake m after_epoch now =
      let valid =
        ltb after_epoch m.refresh_epoch
        && m.released_epoch == m.refresh_epoch
        && m.refresh_pending
        && not (ltb now m.refresh_deadline) in
      (record m { refresh_pending = if valid then false else m.refresh_pending }, valid)

  -- `Stop`: it reads `cancel` in one section; if there was one, the loop may have ended before the
  -- next section, where it counts the epoch up. The last one is the deferred section of `loop`.
  pub stop : Manager → Bool → Manager
  stop m was_running =
      if was_running then record m { refresh_epoch = u64 (m.refresh_epoch + 1) } else m

  pub finish : Manager → Manager
  finish m = record m { running = false }

  -- `persistGraph` reads these before it writes the file, and compares them before it installs it.
  abbrev pub persist_token : Manager → ℕ × ℕ
  persist_token m = (m.published_authority, m.active_epoch)

  pub may_install : Manager → Bool → ℕ × ℕ → Bool
  may_install m cancelled (authority, epoch) =
      not (cancelled || not (authority == m.published_authority) || not (epoch == m.refresh_epoch))
