-- ===== src/Refresh/Publish.antt =====
-- What is published: a graph read from the disk never replaces another one, and only the snapshot of
-- the newest published graph is written to the disk.
use pogo.Prelude.{
  ℕ, ◌+◌, ◌≤◌, ◌<◌, ◌≡◌, ◌⊎◌, refl, inl, inr, Bool, true, false, not, List, [], ◌∷◌, none, some,
  arith, if◌then◌else◌, is_some, length, Bool-cases,
}
use pogo.Cache.{Cache, load, generation_of}
use pogo.Refresh.{
  Manager, new_manager, publish_graph, load_provisional, persist_token, may_install,
  is_none_authority,
}
use pogo.Refresh.Epochs.{
  Event, published, provisional, step, run, u64_max, IsOrdered, refresh_epoch-step,
}

module _ (G : Type 0) where
  -- How many graphs a section publishes, from the worker and from the disk.
  pub accepts_runtime : Manager G → Event G → ℕ
  accepts_runtime m (published cancelled graph) =
      if is_some (publish_graph G m cancelled graph).1 then 1 else 0
  accepts_runtime m _ = 0

  pub accepts_provisional : Manager G → Event G → ℕ
  accepts_provisional m (provisional cancelled id graph) =
      if is_some (load_provisional G m cancelled id graph).1 then 1 else 0
  accepts_provisional m _ = 0

  pub runtime_count : Manager G → List (Event G) → ℕ
  unfolding accepts_runtime
  runtime_count m [] = 0
  runtime_count m (e ∷ es) = accepts_runtime m e + runtime_count (step G m e) es

  pub provisional_count : Manager G → List (Event G) → ℕ
  unfolding accepts_provisional
  provisional_count m [] = 0
  provisional_count m (e ∷ es) = accepts_provisional m e + provisional_count (step G m e) es

  -- The cache holds a graph exactly when it has an authority.
  abbrev pub IsKnown : Manager G → Type 0
  IsKnown m = is_none_authority m.authority ≡ not (is_some (load m.cache).0)

  step-IsKnown : (m : Manager G) (e : Event G) → IsKnown m → IsKnown (step G m e)
  unfolding step load
  step-IsKnown m e known = ground arith

  -- The generation counts the published graphs.
  step-generation :
      (m : Manager G) (e : Event G)
      → generation_of m.cache < u64_max
      → generation_of (step G m e).cache
        ≡ generation_of m.cache + accepts_runtime m e + accepts_provisional m e
  unfolding step accepts_runtime accepts_provisional
  step-generation m e small = ground arith

  -- A graph from the disk is accepted only by a cache that holds none, and no section empties the
  -- cache.
  step-accepts_provisional :
      (m : Manager G) (e : Event G)
      → IsKnown m
      → (accepts_provisional m e ≤ 1)
        × ((accepts_provisional m e ≡ 0) ⊎ (is_some (load m.cache).0 ≡ false))
        × ((accepts_provisional m e ≡ 0) ⊎ (is_some (load (step G m e).cache).0 ≡ true))
        × ((is_some (load m.cache).0 ≡ false) ⊎ (is_some (load (step G m e).cache).0 ≡ true))
  unfolding step accepts_provisional load
  step-accepts_provisional m e known = ground arith

  provisional_count_filled :
      (m : Manager G) (es : List (Event G))
      → IsKnown m
      → is_some (load m.cache).0 ≡ true
      → provisional_count m es ≡ 0
  unfolding provisional_count
  provisional_count_filled m [] known full = refl
  provisional_count_filled m (e ∷ es) known full = ground (
    arith,
    step-accepts_provisional m e known,
    provisional_count_filled (step G m e) es (step-IsKnown m e known),
  )

  provisional_count-le :
      (m : Manager G) (es : List (Event G)) → IsKnown m → provisional_count m es ≤ 1
  unfolding provisional_count
  provisional_count-le m [] known = omega arith
  provisional_count-le m (e ∷ es) known = ground (
    arith,
    step-accepts_provisional m e known,
    provisional_count-le (step G m e) es (step-IsKnown m e known),
    provisional_count_filled (step G m e) es (step-IsKnown m e known),
  )

  step_accepts_one :
      (m : Manager G) (e : Event G) → accepts_runtime m e + accepts_provisional m e ≤ 1
  unfolding accepts_runtime accepts_provisional
  step_accepts_one m e = ground arith

  run-generation :
      (m : Manager G) (es : List (Event G))
      → generation_of m.cache + length es ≤ u64_max
      → generation_of (run G m es).cache
        ≡ generation_of m.cache + runtime_count m es + provisional_count m es
  unfolding run runtime_count provisional_count
  run-generation m [] small = omega arith
  run-generation m (e ∷ es) small =
      let one = step-generation m e (omega arith) in
      let most = step_accepts_one m e in omega (arith, run-generation (step G m e) es (omega arith))

  new_manager-IsKnown : (cache : Cache G) → IsKnown (new_manager G cache)
  unfolding load
  new_manager-IsKnown none = refl
  new_manager-IsKnown (some (graph, generation)) = refl

  -- Whatever sections run after `NewManager`, and in whatever order, while the generation stays
  -- below 2^64: the generation counts the graphs that were published, and at most one of those
  -- came from the disk; none did, if there was a graph from the start.
  pub run-new_manager :
      (cache : Cache G) (es : List (Event G))
      → generation_of cache + length es ≤ u64_max
      → (generation_of (run G (new_manager G cache) es).cache
          ≡ generation_of cache
            + runtime_count (new_manager G cache) es
            + provisional_count (new_manager G cache) es)
        × (provisional_count (new_manager G cache) es ≤ 1)
        × ((is_some (load cache).0 ≡ false) ⊎ (provisional_count (new_manager G cache) es ≡ 0))
  run-new_manager cache es small =
      let m = new_manager G cache in
      (
        run-generation m es small,
        provisional_count-le m es (new_manager-IsKnown cache),
        elim (Bool-cases (is_some (load cache).0)) [
          | inl full ↦ inr (provisional_count_filled m es (new_manager-IsKnown cache) full)
          | inr empty ↦ inl empty
        ],
      )

  step-published_authority :
      (m : Manager G) (e : Event G)
      → m.published_authority < u64_max
      → (step G m e).published_authority ≡ m.published_authority + accepts_runtime m e
  unfolding step accepts_runtime
  step-published_authority m e small = ground arith

  run-published_authority :
      (m : Manager G) (es : List (Event G))
      → m.published_authority + length es ≤ u64_max
      → (run G m es).published_authority ≡ m.published_authority + runtime_count m es
  unfolding run runtime_count
  run-published_authority m [] small = omega arith
  run-published_authority m (e ∷ es) small =
      let one = step-published_authority m e (omega arith) in
      let most = step_accepts_one m e in
      omega (arith, run-published_authority (step G m e) es (omega arith))

  may_install_inv :
      (m : Manager G) (cancelled : Bool) (token : ℕ × ℕ)
      → may_install G m cancelled token ≡ true
      → (cancelled ≡ false) × (token.0 ≡ m.published_authority) × (token.1 ≡ m.refresh_epoch)
  unfolding may_install
  may_install_inv m cancelled token h = ground arith

  refresh_epoch-run :
      (m : Manager G) (es : List (Event G))
      → m.refresh_epoch + length es ≤ u64_max
      → m.refresh_epoch ≤ (run G m es).refresh_epoch
  unfolding run
  refresh_epoch-run m [] small = omega arith
  refresh_epoch-run m (e ∷ es) small =
      let (low, high) = refresh_epoch-step G m e (omega arith) in
      omega (arith, refresh_epoch-run (step G m e) es (omega arith))

  -- The counters in order and below 2^64: the snapshot of a published graph is installed on the
  -- disk only if, since the file was begun, no other graph has been published by a worker and no
  -- refresh has been asked for.
  pub may_install-newest :
      (m : Manager G) (es : List (Event G)) (cancelled : Bool)
      → IsOrdered G m
      → m.published_authority + length es ≤ u64_max
      → m.refresh_epoch + length es ≤ u64_max
      → may_install G (run G m es) cancelled (persist_token G m) ≡ true
      → (runtime_count m es ≡ 0)
        × ((run G m es).refresh_epoch ≡ m.refresh_epoch)
        × (m.active_epoch ≡ m.refresh_epoch)
  may_install-newest m es cancelled o small small' h =
      let (_, same, epoch) = may_install_inv (run G m es) cancelled (persist_token G m) h in
      let grown = refresh_epoch-run m es small' in
      let counted = run-published_authority m es small in (omega arith, omega arith, omega arith)
