-- ===== src/Fsm/Table.antt =====
-- The table of legal transitions: the order in which the map is searched does not matter, and
-- which statuses a task can pass through.
use go_flash_job.Base.{
  ◌≡◌, refl, sym, ap, ◌∙◌, ◌≢◌, ◌↔◌, ◌⊎◌, inl, inr, Bool, true, ◌&&◌, none, some, List, [], ◌∷◌,
  arith, Bool-cases, Option-cases,
}
use go_flash_job.Model.{TaskStatus, Event}
use go_flash_job.Status.{status_eq}
use go_flash_job.Fsm.{event_eq, Transition, legal_transitions, find_transition}

abbrev pub matches : Transition → TaskStatus → Event → Bool
matches t s e = status_eq t.source s && event_eq t.event e

-- `t` is an entry of the table.
abbrev pub Has : Transition → List Transition → Type 0
Has t [] = ⊥
Has t (u ∷ r) = (u ≡ t) ⊎ Has t r

pub found_entry :
    (ts : List Transition) (s : TaskStatus) (e : Event) {b : TaskStatus}
    → find_transition ts s e ≡ some b
    → (t : Transition) × Has t ts × (matches t s e ≡ true) × (t.target ≡ b)
unfolding find_transition
found_entry [] s e h = cc
found_entry (t ∷ r) s e h = elim (Bool-cases (matches t s e)) [
  | inl fits ↦ (t, inl refl, fits, ground arith)
  | inr other ↦ let (u, m, p, q) = found_entry r s e (ground arith) in (u, inr m, p, q)
]

entry_found :
    (ts : List Transition) (s : TaskStatus) (e : Event) (t : Transition)
    → Has t ts
    → matches t s e ≡ true
    → find_transition ts s e ≢ none
unfolding find_transition
entry_found [] s e t m h = absurd m
entry_found (u ∷ r) s e t (inl p) h = rw p (rw h (λ q. cc))
entry_found (u ∷ r) s e t (inr m) h = ground (arith, entry_found r s e t m h)

-- A status and an event fit one entry of the legal table at most.
legal_target :
    (t : Transition) (s : TaskStatus) (e : Event)
    → Has t legal_transitions
    → matches t s e ≡ true
    → find_transition legal_transitions s e ≡ some t.target
unfolding find_transition legal_transitions
legal_target t s e m h = ground arith

-- The search finds the same target in whatever order it meets the entries of the map that NewFSM
-- fills: for every list with the entries of the legal table and no others.
pub find_transition_order :
    (ts : List Transition)
    → ((t : Transition) → Has t ts ↔ Has t legal_transitions)
    → (s : TaskStatus) (e : Event) → find_transition ts s e ≡ find_transition legal_transitions s e
find_transition_order ts same s e = elim (Option-cases (find_transition ts s e)) [
  | inr (b, p) ↦
      let (t, m, fits, target) = found_entry ts s e p in
      p ∙ ap some (sym target) ∙ sym (legal_target t s e ((same t).0 m) fits)
  | inl p ↦ elim (Option-cases (find_transition legal_transitions s e)) [
    | inl q ↦ p ∙ sym q
    | inr (b, q) ↦
        let (t, m, fits, target) = found_entry legal_transitions s e q in
        absurd (entry_found ts s e t ((same t).1 m) fits p)
  ]
]
