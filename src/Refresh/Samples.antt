-- ===== src/Refresh/Samples.antt =====
-- Concrete sequences of sections, where a graph is a number.
use pogo.Prelude.{ℕ, ◌≡◌, ◌≤◌, ◌+◌, ◌⊎◌, refl, true, false, List, [], ◌∷◌, none, arith, is_some}
use pogo.Cache.{load, generation_of}
use pogo.Refresh.{Manager, new_manager, did_save, publish_graph, may_install, persist_token}
use pogo.Refresh.Epochs.{
  Event, started, timer, begun, published, provisional, ended, run, IsOrdered, run-IsOrdered, saved,
  stopped, finished, asked, run-asked_epochs, publish_graph-run-did_save,
}
use pogo.Refresh.Publish.{runtime_count, provisional_count, run-new_manager, may_install-newest}

-- A start, a graph from the disk and a session that publishes two graphs.
abbrev session : List (Event ℕ)
session =
    started
    ∷ provisional false 1 5
    ∷ begun
    ∷ published false 6
    ∷ provisional false 1 5
    ∷ published false 7
    ∷ []

abbrev fresh : Manager ℕ
fresh = new_manager ℕ none

fresh-IsOrdered : IsOrdered ℕ fresh
fresh-IsOrdered = record { released_behind = omega arith; active_behind = omega arith }

abbrev published_two : Manager ℕ
published_two = run ℕ fresh session

published_two-IsOrdered : IsOrdered ℕ published_two
published_two-IsOrdered = run-IsOrdered ℕ fresh session (omega arith) fresh-IsOrdered

published_two_running : published_two.running ≡ true
unfolding run
published_two_running = refl

published_two_epoch : published_two.refresh_epoch ≡ 0
unfolding run
published_two_epoch = refl

published_two_authority : published_two.published_authority ≡ 2
unfolding run
published_two_authority = refl

-- The saved file's refresh is released before the session tries to publish.
abbrev release : List (Event ℕ)
release = timer 1 20 ∷ []

publish_graph-run-did_save_example :
    publish_graph ℕ (run ℕ (did_save ℕ published_two 10 5) release) false 8
    ≡ (run ℕ (did_save ℕ published_two 10 5) release, none)
publish_graph-run-did_save_example =
    publish_graph-run-did_save ℕ published_two 10 5 release false 8 published_two_running
      published_two-IsOrdered (omega (arith, published_two_epoch)) (refl, tt)

-- Two saves while the loop runs, a stop that finds it running, its end, and a save behind it.
abbrev saves : List (Event ℕ)
saves =
    started
    ∷ saved 10 5
    ∷ begun
    ∷ saved 11 5
    ∷ timer 2 20
    ∷ stopped true
    ∷ finished
    ∷ saved 30 5
    ∷ []

asked-saves : asked ℕ false saves ≡ 3
unfolding asked
asked-saves = refl

run-asked_epochs_example :
    ((run ℕ (new_manager ℕ none) saves).refresh_epoch ≡ asked ℕ false saves)
    × ((run ℕ (new_manager ℕ none) saves).released_epoch
        ≤ (run ℕ (new_manager ℕ none) saves).refresh_epoch)
    × ((run ℕ (new_manager ℕ none) saves).active_epoch
        ≤ (run ℕ (new_manager ℕ none) saves).refresh_epoch)
run-asked_epochs_example = run-asked_epochs ℕ none saves (omega arith)

abbrev quiet : List (Event ℕ)
quiet = ended ∷ []

quiet_install :
    may_install ℕ (run ℕ published_two quiet) false (persist_token ℕ published_two) ≡ true
unfolding run may_install
quiet_install = refl

may_install-newest_example :
    (runtime_count ℕ published_two quiet ≡ 0)
    × ((run ℕ published_two quiet).refresh_epoch ≡ published_two.refresh_epoch)
    × (published_two.active_epoch ≡ published_two.refresh_epoch)
may_install-newest_example =
    may_install-newest ℕ published_two quiet false published_two-IsOrdered
      (omega (arith, published_two_authority)) (omega (arith, published_two_epoch)) quiet_install

run-new_manager_example :
    (generation_of (run ℕ fresh session).cache
      ≡ generation_of {G = ℕ} none
        + runtime_count ℕ fresh session
        + provisional_count ℕ fresh session)
    × (provisional_count ℕ fresh session ≤ 1)
    × ((is_some (load {G = ℕ} none).0 ≡ false) ⊎ (provisional_count ℕ fresh session ≡ 0))
run-new_manager_example = run-new_manager ℕ none session (omega arith)
