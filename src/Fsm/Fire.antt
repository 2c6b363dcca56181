-- ===== src/Fsm/Fire.antt =====
-- What Fire does to the statuses of the tasks, for any run of the network.
use Prim.Native.String.{String}
use text.Mathlib.Text.{◌==◌ as str_eq}
use go_flash_job.Base.{
  ◌≡◌, refl, sym, ap, ◌∙◌, ◌⊎◌, inl, inr, some, List, [], ◌∷◌, arith, if◌then◌else◌, Bool-cases,
  Option-cases, ℤ,
}
use go_flash_job.Model.{TaskStatus, Task, Event, Error}
use go_flash_job.Redis.{Value, status, Redis}
use go_flash_job.Redis.World.{Link, up, down, lost, Res, ok, err, tail_links, World, continue_with}
use go_flash_job.Status.{status_eq, status_eq→≡, as_status, status_field, set_status}
use go_flash_job.Status.Writes.{status-set_status}
use go_flash_job.Fsm.{
  find_transition, Hook, Fsm, cas_script, state_or_pending, get_state, run_hooks, fire_to,
  fire_from, fire,
}

module _ (R : Redis) where
  -- The hook leaves every task's status as it is.
  abbrev HookKeeps : Hook R → Type 0
  HookKeeps hook =
      (t : Task) (w : World R) (id : String)
      → status_field R (hook t w).1.db id ≡ status_field R w.db id

  abbrev pub AllKeep : List (Hook R) → Type 0
  AllKeep [] = Unit
  AllKeep (hook ∷ r) = HookKeeps hook × AllKeep r

  pub run_hooks-keep :
      (hooks : List (Hook R)) (t : Task) (w : World R) (id : String)
      → AllKeep hooks
      → (status_field R (run_hooks R hooks t w).1.db id ≡ status_field R w.db id)
        × ((run_hooks R hooks t w).0 ≡ ok tt)
  unfolding run_hooks
  run_hooks-keep [] t w id h = (refl, refl)
  run_hooks-keep (hook ∷ r) t w id h =
      let ih = run_hooks-keep r t (hook t w).1 id h.1 in (ih.0 ∙ h.0 t w id, ih.1)

  -- No call of the run takes effect without its reply.
  abbrev NoLost : List Link → Type 0
  NoLost [] = Unit
  NoLost (lost ∷ r) = ⊥
  NoLost (_ ∷ r) = NoLost r

  NoLost-tail_links : (l : List Link) → NoLost l → NoLost (tail_links l)
  NoLost-tail_links [] h = tt
  NoLost-tail_links (up ∷ r) h = h
  NoLost-tail_links (down ∷ r) h = h
  NoLost-tail_links (lost ∷ r) h = absurd h

  pub get_state-ok :
      (id : String) (w : World R) (s : TaskStatus) (w' : World R)
      → get_state R id w ≡ (ok s, w')
      → (s ≡ state_or_pending R (status_field R w.db id)) × (w'.db ≡ w.db)
  unfolding get_state
  get_state-ok id w s w' h = ground arith

  pub get_state-err :
      (id : String) (w : World R) (x : Error) (w' : World R)
      → get_state R id w ≡ (err x, w')
      → w'.db ≡ w.db
  unfolding get_state
  get_state-err id w x w' h = ground arith

  NoLost-tail :
      (w w' : World R) (s : TaskStatus) (id : String)
      → NoLost w.links
      → get_state R id w ≡ (ok s, w')
      → NoLost w'.links
  unfolding get_state
  NoLost-tail w w' s id nl h =
      let rest : w'.links ≡ tail_links w.links = ground arith in
      rw rest (NoLost-tail_links w.links nl)

  -- The script answers 1 exactly when the stored status is the expected one.
  cas_script-cases :
      (a b : TaskStatus) (t : Task) (now : ℤ) (d : R.Db)
      → (cas_script R a b t now d ≡ (0, d))
        ⊎ (v : Value) × (status_field R d t.id ≡ some v)
          × (as_status (some v) ≡ a)
          × (cas_script R a b t now d ≡ (1, set_status R t b now d))
  unfolding cas_script
  cas_script-cases a b t now d = elim (Option-cases (status_field R d t.id)) [
    | inl e ↦ inl (rw (e, cas_script))
    | inr (v, e) ↦ elim (Bool-cases (status_eq (as_status (some v)) a)) [
      | inl same ↦ inr (v, e, status_eq→≡ (as_status (some v)) a same, rw (e, cas_script) (rw same))
      | inr other ↦ inl (rw (e, cas_script) (rw other))
    ]
  ]

  -- What a run of `fire_to` that succeeds has done.
  abbrev Moved : Task → TaskStatus → TaskStatus → R.Db → R.Db → Type 0
  Moved t a b d d' =
      (v : Value) × (status_field R d t.id ≡ some v)
      × (as_status (some v) ≡ a)
      × ((id : String)
          → status_field R d' id
            ≡ (if str_eq t.id id then some (status b) else status_field R d id))

  pub fire_to-ok :
      (f : Fsm R) (t : Task) (a b : TaskStatus) (w : World R) {w' : World R}
      → AllKeep (f.hooks b)
      → fire_to R f t a b w ≡ (ok tt, w')
      → Moved t a b w.db w'.db
  unfolding fire_to
  fire_to-ok f t a b w {w'} keep h = elim (cas_script-cases a b t w.now w.db) [
    | inl e ↦ absurd (ground arith)
    | inr (v, p, q, e) ↦ (
      v,
      p,
      q,
      λ id.
          let w₁ = record w { db = set_status R t b w.now w.db; links = tail_links w.links } in
          let ran : w' ≡ (run_hooks R (f.hooks b) t w₁).1 = ground arith in
          ap (λ u. status_field R u.db id) ran
          ∙ (run_hooks-keep (f.hooks b) t w₁ id keep).0
          ∙ status-set_status R w.db t b w.now id,
    )
  ]

  fire_to-err :
      (f : Fsm R) (t : Task) (a b : TaskStatus) (w : World R) {x : Error} {w' : World R}
      → AllKeep (f.hooks b)
      → NoLost w.links
      → fire_to R f t a b w ≡ (err x, w')
      → w'.db ≡ w.db
  unfolding fire_to
  fire_to-err f t a b w keep nl h = elim (cas_script-cases a b t w.now w.db) [
    | inl e ↦ ground arith
    | inr (v, p, q, e) ↦ ground (
      arith,
      (run_hooks-keep (f.hooks b) t
          (record w { db = set_status R t b w.now w.db; links = tail_links w.links }) t.id keep).1,
    )
  ]

  -- Which status Fire moves a task to, and what it answers, when it succeeds.
  abbrev pub Fired : Fsm R → Event → Task → R.Db → R.Db → Type 0
  Fired f e t d d' =
      (v : Value) × (b : TaskStatus) × (status_field R d t.id ≡ some v)
      × (find_transition f.transitions (as_status (some v)) e ≡ some b)
      × ((id : String)
          → status_field R d' id
            ≡ (if str_eq t.id id then some (status b) else status_field R d id))

  fire_from-ok :
      (f : Fsm R) (e : Event) (t : Task) (w w' : World R) (r : Res TaskStatus × World R)
      → ((s : TaskStatus) → AllKeep (f.hooks s))
      → get_state R t.id w ≡ r
      → continue_with r (fire_from R f e t) ≡ (ok tt, w')
      → Fired f e t w.db w'.db
  unfolding fire_from
  fire_from-ok f e t w w' (err x, w₁) keep g h = cc
  fire_from-ok f e t w w' (ok a, w₁) keep g h =
      elim (Option-cases (find_transition f.transitions a e)) [
        | inl none_found ↦ absurd (ground arith)
        | inr (b, found) ↦
            let same = (get_state-ok t.id w a w₁ g).1 in
            let moved : fire_to R f t a b w₁ ≡ (ok tt, w') = ground arith in
            let (v, p, q, all) = rw same at (fire_to-ok f t a b w₁ (keep b) moved) in
            (v, b, p, rw q found, all)
      ]

  fire_from-err :
      (f : Fsm R) (e : Event) (t : Task) (w w' : World R) (x : Error) (r : Res TaskStatus × World R)
      → ((s : TaskStatus) → AllKeep (f.hooks s))
      → NoLost w.links
      → get_state R t.id w ≡ r
      → continue_with r (fire_from R f e t) ≡ (err x, w')
      → w'.db ≡ w.db
  unfolding fire_from
  fire_from-err f e t w w' x (err y, w₁) keep nl g h =
      ap (λ u. u.1.db) (sym h) ∙ get_state-err t.id w y w₁ g
  fire_from-err f e t w w' x (ok a, w₁) keep nl g h =
      elim (Option-cases (find_transition f.transitions a e)) [
        | inl none_found ↦
            let stopped : w' ≡ w₁ = ground arith in
            ap (λ u. u.db) stopped ∙ (get_state-ok t.id w a w₁ g).1
        | inr (b, found) ↦
            let moved : fire_to R f t a b w₁ ≡ (err x, w') = ground arith in
            fire_to-err f t a b w₁ (keep b) (NoLost-tail w w₁ a t.id nl g) moved
            ∙ (get_state-ok t.id w a w₁ g).1
      ]

  -- If Fire succeeds, the task had a stored status with a legal transition for the event, its new
  -- status is the target of that transition, and the status of every other task is as it was.
  -- The hooks are supposed to leave the statuses alone; the network may fail in any way.
  pub fire-ok :
      (f : Fsm R) (e : Event) (t : Task) (w w' : World R)
      → ((s : TaskStatus) → AllKeep (f.hooks s))
      → fire R f e t w ≡ (ok tt, w')
      → Fired f e t w.db w'.db
  unfolding fire
  fire-ok f e t w w' keep h = fire_from-ok f e t w w' (get_state R t.id w) keep refl h

  -- If Fire fails, no reply was lost on the way and the hooks leave the statuses alone, the
  -- database is unchanged.
  pub fire-err :
      (f : Fsm R) (e : Event) (t : Task) (w w' : World R) (x : Error)
      → ((s : TaskStatus) → AllKeep (f.hooks s))
      → NoLost w.links
      → fire R f e t w ≡ (err x, w')
      → w'.db ≡ w.db
  unfolding fire
  fire-err f e t w w' x keep nl h = fire_from-err f e t w w' x (get_state R t.id w) keep nl refl h
