-- ===== src/Logger/Others.antt =====
-- buffer.go: writeBatch adds rotated files to the directory and leaves those that are there.
use Prim.Native.String.{String}
use mathlib.Core.List.{append-nil, append_assoc}
use go_flash_job.Base.{
  ℕ, suc, ◌+◌, ◌≡◌, refl, sym, ap, ◌∙◌, inl, inr, Option, none, some, List, [], ◌∷◌, ◌++◌, arith,
  ltb, Bool-cases, Option-cases, false,
}
use go_flash_job.Model.{JobLog}
use go_flash_job.Logger.Free.{free_seq-calls}
use go_flash_job.Logger.Disk.{
  FileName, rotated, File, Os, Disk, Outcome, done, failed, hung, open_current_file_locked,
  free_seq, rename, reopened, rotate_file_locked, write_line, if_done, make_room, write_entry,
  write_batch,
}

-- The files of `t` are those of `d` and some more.
abbrev pub Adds : Disk → Disk → Type 0
Adds d t = (new : List (FileName × File)) × (t.others ≡ d.others ++ new)

Adds-same : (d t : Disk) → t.others ≡ d.others → Adds d t
Adds-same d t e = ([], e ∙ sym (append-nil d.others))

Adds-trans : (d t u : Disk) → Adds d t → Adds t u → Adds d u
Adds-trans d t u (new, e) (more, e') =
    (new ++ more, e' ∙ ap (λ l. l ++ more) e ∙ append_assoc d.others new more)

module _ (os : Os) where
  open_current_file_locked-Adds : (d : Disk) → Adds d (open_current_file_locked os d).1
  unfolding open_current_file_locked
  open_current_file_locked-Adds d = Adds-same d (open_current_file_locked os d).1 (ground arith)

  rename-Adds : (name : FileName) (d : Disk) → Adds d (rename os name d)
  unfolding rename
  rename-Adds name d = elim (Bool-cases (os.renames d.calls)) [
    | inr stays ↦ rw stays ([], sym (append-nil d.others))
    | inl moves ↦ elim (Option-cases d.job_log) [
      | inl e ↦ rw (moves, e) ([], sym (append-nil d.others))
      | inr (f, e) ↦ rw (moves, e) ((name, f) ∷ [], refl)
    ]
  ]

  reopened-Adds : (date : String) (r : Option ℕ × Disk) → Adds r.1 (reopened os date r).1
  unfolding reopened
  reopened-Adds date (none, d) = Adds-same d d refl
  reopened-Adds date (some seq, d) =
      let t = rename os (rotated date seq) d in
      Adds-trans d t (open_current_file_locked os t).1 (rename-Adds (rotated date seq) d)
        (open_current_file_locked-Adds t)

  rotate_file_locked-Adds : (fuel : ℕ) (d : Disk) → Adds d (rotate_file_locked os fuel d).1
  unfolding rotate_file_locked
  rotate_file_locked-Adds fuel d =
      let date = os.day d.calls in
      let closed : Disk = record d { opened = false } in
      let (n, e) = free_seq-calls os fuel date 1 closed in
      let found = free_seq os fuel date 1 closed in
      Adds-trans d found.1 (reopened os date found).1
        (Adds-same d found.1 (ap (λ (t : Disk). t.others) e)) (reopened-Adds date found)

  make_room-Adds : (fuel n : ℕ) (d : Disk) → Adds d (make_room os fuel n d).1
  unfolding make_room
  make_room-Adds fuel n d = elim (Bool-cases (ltb d.max_size_bytes (d.current_size + n))) [
    | inl full ↦ rw full (rotate_file_locked-Adds fuel d)
    | inr room ↦ rw room (Adds-same d d refl)
  ]

  write_line-Adds : (e : JobLog) (n : ℕ) (d : Disk) → Adds d (write_line os e n d).1
  unfolding write_line
  write_line-Adds e n d = Adds-same d (write_line os e n d).1 (ground arith)

  then_Adds :
      (d : Disk) (r : Outcome × Disk) (k : Disk → Outcome × Disk)
      → Adds d r.1
      → ((t : Disk) → Adds t (k t).1)
      → Adds d (if_done r k).1
  then_Adds d (done, t) k h go = Adds-trans d t (k t).1 h (go t)
  then_Adds d (failed, t) k h go = h
  then_Adds d (hung, t) k h go = h

  module _ (json_size : JobLog → Option ℕ) (fuel : ℕ) where
    write_entry-Adds : (e : JobLog) (d : Disk) → Adds d (write_entry os json_size fuel e d).1
    unfolding write_entry
    write_entry-Adds e d = elim (Option-cases (json_size e)) [
      | inl h ↦ rw (write_entry, h) (Adds-same d d refl)
      | inr (n, h) ↦
          rw (write_entry, h)
            (then_Adds d (make_room os fuel (suc n) d) (write_line os e (suc n))
              (make_room-Adds fuel (suc n) d) (write_line-Adds e (suc n)))
    ]

    pub write_batch-Adds :
        (b : List JobLog) (d : Disk) → Adds d (write_batch os json_size fuel b d).1
    unfolding write_batch
    write_batch-Adds [] d = Adds-same d d refl
    write_batch-Adds (e ∷ r) d =
        then_Adds d (write_entry os json_size fuel e d) (write_batch os json_size fuel r)
          (write_entry-Adds e d) (write_batch-Adds r)
