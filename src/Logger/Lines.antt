-- ===== src/Logger/Lines.antt =====
-- buffer.go: what the files of the storage hold, as lines.
use mathlib.Core.List.{append-nil, append_assoc}
use go_flash_job.Base.{
  ℕ, zero, suc, ◌≡◌, refl, sym, ap, ◌∙◌, Bool, true, false, Option, none, some, List, [], ◌∷◌, ◌++◌,
}
use go_flash_job.Model.{JobLog}
use go_flash_job.Logger.Disk.{FileName, line, torn, File, Disk, content}

-- Whether a text ends in the middle of a line, when the text before it does or does not.
abbrev pub torn_after : Bool → File → Bool
torn_after glued [] = glued
torn_after glued (line e n ∷ f) = torn_after false f
torn_after glued (torn e zero ∷ f) = torn_after glued f
torn_after glued (torn e (suc n) ∷ f) = torn_after true f

abbrev pub ends_torn : File → Bool
ends_torn f = torn_after false f

-- The entries that stand in a text as whole lines: one that is written after a torn one stands in
-- the same line, which is none of a whole entry.
abbrev pub whole_lines : Bool → File → List JobLog
whole_lines glued [] = []
whole_lines true (line e n ∷ f) = whole_lines false f
whole_lines false (line e n ∷ f) = e ∷ whole_lines false f
whole_lines glued (torn e zero ∷ f) = whole_lines glued f
whole_lines glued (torn e (suc n) ∷ f) = whole_lines true f

abbrev pub entries : File → List JobLog
entries f = whole_lines false f

abbrev pub archived : List (FileName × File) → List JobLog
archived [] = []
archived ((name, f) ∷ r) = entries f ++ archived r

-- The rotated files in the order of their rotation, and `job.log` after them.
abbrev pub log_of : Disk → List JobLog
log_of d = archived d.others ++ entries (content d.job_log)

pub whole_lines-append :
    (b : Bool) (f g : File)
    → whole_lines b (f ++ g) ≡ whole_lines b f ++ whole_lines (torn_after b f) g
whole_lines-append b [] g = refl
whole_lines-append true (line e n ∷ f) g = whole_lines-append false f g
whole_lines-append false (line e n ∷ f) g = ap (◌∷◌ e) (whole_lines-append false f g)
whole_lines-append b (torn e zero ∷ f) g = whole_lines-append b f g
whole_lines-append b (torn e (suc n) ∷ f) g = whole_lines-append true f g

pub torn_after-append :
    (b : Bool) (f g : File) → torn_after b (f ++ g) ≡ torn_after (torn_after b f) g
torn_after-append b [] g = refl
torn_after-append b (line e n ∷ f) g = torn_after-append false f g
torn_after-append b (torn e zero ∷ f) g = torn_after-append b f g
torn_after-append b (torn e (suc n) ∷ f) g = torn_after-append true f g

pub archived-append :
    (r : List (FileName × File)) (name : FileName) (f : File)
    → archived (r ++ (name, f) ∷ []) ≡ archived r ++ entries f
archived-append [] name f = append-nil (entries f)
archived-append ((m, g) ∷ r) name f =
    ap (◌++◌ (entries g)) (archived-append r name f)
    ∙ sym (append_assoc (entries g) (archived r) (entries f))

-- job.log ends in the middle of a line.
abbrev pub is_torn : Disk → Bool
is_torn d = ends_torn (content d.job_log)

-- The log is the same, and job.log ends in the middle of a line only if it did.
abbrev pub Same : Disk → Disk → Type 0
Same d t = (log_of t ≡ log_of d) × (is_torn t ≡ true → is_torn d ≡ true)

module _ (json_size : JobLog → Option ℕ) where
  -- The entry as the list of what json.Marshal can encode of it.
  abbrev pub encodable : JobLog → List JobLog
  encodable e = elim (json_size e) [ none ↦ [] | some n ↦ e ∷ [] ]

  abbrev pub all_encodable : List JobLog → List JobLog
  all_encodable [] = []
  all_encodable (e ∷ r) = encodable e ++ all_encodable r
