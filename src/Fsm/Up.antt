-- ===== src/Fsm/Up.antt =====
-- Fire when the calls that it makes get through.
use go_flash_job.Base.{◌≡◌, refl, some, List, [], ◌∷◌, arith}
use go_flash_job.Model.{TaskStatus, Task, Event}
use go_flash_job.Redis.{status, Redis}
use go_flash_job.Redis.World.{Link, up, ok, World}
use go_flash_job.Status.{status_eq_refl, status_field, set_status}
use go_flash_job.Fsm.{
  find_transition, Fsm, cas_script, get_state, run_hooks, fire_to, fire_from, fire,
}

module _ (R : Redis) (t : Task) (w : World R) (a : TaskStatus) (l : List Link)
    (stored : status_field R w.db t.id ≡ some (status a)) where
  get_state_up : w.links ≡ up ∷ l → get_state R t.id w ≡ (ok a, record w { links = l })
  unfolding get_state
  get_state_up on = ground arith

  pub cas_script_up :
      (b : TaskStatus) → cas_script R a b t w.now w.db ≡ (1, set_status R t b w.now w.db)
  unfolding cas_script
  cas_script_up b = rw (stored, cas_script) (rw (status_eq_refl a))

  fire_to_up :
      (f : Fsm R) (b : TaskStatus)
      → w.links ≡ up ∷ l
      → f.hooks b ≡ []
      → fire_to R f t a b w ≡ (ok tt, record w { db = set_status R t b w.now w.db; links = l })
  unfolding fire_to run_hooks
  fire_to_up f b on quiet = ground (arith, cas_script_up b)

module _ (R : Redis) (f : Fsm R) (e : Event) (t : Task) (a b : TaskStatus) (w : World R)
    (l : List Link) (on : w.links ≡ up ∷ up ∷ l)
    (stored : status_field R w.db t.id ≡ some (status a))
    (found : find_transition f.transitions a e ≡ some b) (quiet : f.hooks b ≡ []) where
  -- With its two calls answered, Fire moves a task along a legal transition.
  pub fire_up : fire R f e t w ≡ (ok tt, record w { db = set_status R t b w.now w.db; links = l })
  unfolding fire fire_from
  fire_up =
      rw (get_state_up R t w a (up ∷ l) stored on, found, fire_from)
        (fire_to_up R t (record w { links = up ∷ l }) a l stored f b refl quiet)

-- The network stays up from now on.
abbrev pub online : {R : Redis} → World R → World R
online w = record w { links = [] }

module _ (R : Redis) (f : Fsm R) (e : Event) (t : Task) (a b : TaskStatus) (w : World R)
    (stored : status_field R w.db t.id ≡ some (status a))
    (found : find_transition f.transitions a e ≡ some b) (quiet : f.hooks b ≡ []) where
  get_state-online : get_state R t.id (online w) ≡ (ok a, online w)
  unfolding get_state
  get_state-online = rw stored refl

  fire_to-online :
      fire_to R f t a b (online w) ≡ (ok tt, online (record w { db = set_status R t b w.now w.db }))
  unfolding fire_to run_hooks
  fire_to-online = rw (cas_script_up R t w a [] stored b, quiet) refl

  -- Fire while the network is up.
  pub fire-online :
      fire R f e t (online w) ≡ (ok tt, online (record w { db = set_status R t b w.now w.db }))
  unfolding fire fire_from
  fire-online = rw (get_state-online, found, fire_from) fire_to-online
