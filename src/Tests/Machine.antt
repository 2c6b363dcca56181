-- ===== src/Tests/Machine.antt =====
-- Runs of the state machine.
use go_flash_job.Base.{[], ◌∷◌, ◌≢◌, refl, List, inl, ◌↔◌, inr, ◌≡◌, ◌⊎◌}
use go_flash_job.Model.{TaskStatus, pending, ready, trigger, Error}
use go_flash_job.Redis.World.{World, ok, Link, up, err}
use go_flash_job.Redis.Memory.{memory, empty_db}
use go_flash_job.Status.{set_status}
use go_flash_job.Fsm.{
  new_fsm, legal_transitions, find_transition, fire, fire_to, cas_script, run_hooks, get_state,
  fire_from, Transition,
}
use go_flash_job.Fsm.Table.{Has}
use go_flash_job.Fsm.Fire.{AllKeep}
use go_flash_job.Fsm.Legal.{Legal, MovesOne, fire-legal}
use go_flash_job.Fsm.Race.{fire_race, fire_missing}
use go_flash_job.Tests.Samples.{task_a, at, pending_db}

no_hooks : (s : TaskStatus) → AllKeep memory ((new_fsm memory).hooks s)
unfolding new_fsm
no_hooks s = tt

exchange : (t a b : Transition) (r : List Transition) → Has t (a ∷ b ∷ r) → Has t (b ∷ a ∷ r)
exchange t a b r (inl p) = inr (inl p)
exchange t a b r (inr (inl p)) = inl p
exchange t a b r (inr (inr m)) = inr (inr m)

swap_two : List Transition → List Transition
swap_two (a ∷ b ∷ r) = b ∷ a ∷ r
swap_two r = r

swap_two-Has : (t : Transition) (l : List Transition) → Has t (swap_two l) ↔ Has t l
unfolding swap_two
swap_two-Has t [] = (λ h. h, λ h. h)
swap_two-Has t (a ∷ []) = (λ h. h, λ h. h)
swap_two-Has t (a ∷ b ∷ r) = (exchange t b a r, exchange t a b r)

abbrev fired_once : World memory
fired_once = (fire_to memory (new_fsm memory) task_a pending ready (at pending_db [])).1

fire_race_example : (fire_to memory (new_fsm memory) task_a pending ready fired_once).0 ≢ ok tt
unfolding memory empty_db set_status new_fsm fire fire_to fire_from cas_script run_hooks get_state
    legal_transitions find_transition
fire_race_example =
    fire_race memory (new_fsm memory) trigger task_a task_a pending ready ready (at pending_db [])
      fired_once fired_once tt tt refl refl refl refl refl

fire_missing_example :
    ((fire memory (new_fsm memory) trigger task_a (at empty_db [])).0 ≢ ok tt)
    × ((l : List Link)
        → (at empty_db []).links ≡ up ∷ l
        → (get_state memory "a" (at empty_db [])).0 ≡ ok pending)
unfolding memory empty_db
fire_missing_example =
    fire_missing memory (new_fsm memory) trigger task_a (at empty_db []) no_hooks refl

fire-legal_example :
    let w = at pending_db [] in
    ((w' : World memory)
      → fire memory (new_fsm memory) trigger task_a w ≡ (ok tt, w')
      → (b : TaskStatus) × Legal pending trigger b × MovesOne memory task_a b w.db w'.db)
    × (w.links ≡ []
        → ((b : TaskStatus) × Legal pending trigger b
            × ((fire memory (new_fsm memory) trigger task_a w).0 ≡ ok tt)
            × MovesOne memory task_a b w.db (fire memory (new_fsm memory) trigger task_a w).1.db)
          ⊎ (((b : TaskStatus) → ¬ Legal pending trigger b)
              × ((x : Error) × (fire memory (new_fsm memory) trigger task_a w).0 ≡ err x)
              × ((fire memory (new_fsm memory) trigger task_a w).1.db ≡ w.db)))
unfolding memory empty_db set_status new_fsm
fire-legal_example =
    fire-legal memory (new_fsm memory) trigger task_a (at pending_db []) pending no_hooks refl refl
