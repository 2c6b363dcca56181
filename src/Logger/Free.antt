-- ===== src/Logger/Free.antt =====
-- The search of rotateFileLocked for a free name: when it ends, and with which name.
use Prim.Native.String.{String}
use text.Mathlib.Text.{◌==◌ as str_eq}
use mathlib.Core.Path.{ap₂}
use go_flash_job.Base.{
  ℕ, zero, suc, ◌≤◌, ◌<◌, ◌≡◌, refl, sym, ap, ◌∙◌, inl, inr, Bool, true, false, not, ◌&&◌, none,
  some, List, [], ◌∷◌, ◌++◌, arith, leb, ◌==◌, Bool-cases, length, count, count-le, ==_iff,
}
use go_flash_job.Logger.Disk.{
  FileName, rotated, other, File, opens, Os, Disk, done, hung, is_file, called,
  open_current_file_locked, free_seq, rename, reopened, rotate_file_locked,
}

-- A rotated file of that day with a number from `seq` on.
abbrev from : String → ℕ → FileName × File → Bool
from date seq (rotated e m, f) = str_eq e date && leb seq m
from date seq (other s, f) = false

module _ (date : String) where
  count-from-le :
      (seq : ℕ) (r : List (FileName × File))
      → count (from date (suc seq)) r ≤ count (from date seq) r
  count-from-le seq [] = omega arith
  count-from-le seq ((rotated e m, f) ∷ r) = ground (arith, count-from-le seq r)
  count-from-le seq ((other s, f) ∷ r) = omega (arith, count-from-le seq r)

  -- A taken number is one fewer to come.
  count-from-lt :
      (seq : ℕ) (r : List (FileName × File))
      → is_file (rotated date seq) r ≡ true
      → count (from date (suc seq)) r < count (from date seq) r
  count-from-lt seq [] h = absurd cc
  count-from-lt seq ((rotated e m, f) ∷ r) h =
      ground (arith, count-from-lt seq r, count-from-le seq r)
  count-from-lt seq ((other s, f) ∷ r) h = ground (arith, count-from-lt seq r)

-- The number that the search finds: free, and every number before it is taken.
abbrev pub IsFirstFree : String → ℕ → List (FileName × File) → ℕ → Type 0
IsFirstFree date seq r found =
    (seq ≤ found)
    × (is_file (rotated date found) r ≡ false)
    × ((m : ℕ) → seq ≤ m → m < found → is_file (rotated date m) r ≡ true)

-- The search changes nothing but the count of calls.
pub free_seq-calls :
    (os : Os) (fuel : ℕ) (date : String) (seq : ℕ) (d : Disk)
    → (n : ℕ) × ((free_seq os fuel date seq d).1 ≡ record d { calls = n })
unfolding free_seq
free_seq-calls os zero date seq d = (d.calls, refl)
free_seq-calls os (suc fuel) date seq d =
    elim (Bool-cases (not (os.stat_fails d.calls) && not (is_file (rotated date seq) d.others))) [
      | inl free ↦ (suc d.calls, rw free refl)
      | inr taken ↦ let (n, e) = free_seq-calls os fuel date (suc seq) (called d) in (n, rw taken e)
    ]

module _ (os : Os) (works : (n : ℕ) → os.stat_fails n ≡ false) where
  free_seq-ends :
      (fuel : ℕ) (date : String) (seq : ℕ) (d : Disk)
      → count (from date seq) d.others < fuel
      → (found : ℕ) × ((free_seq os fuel date seq d).0 ≡ some found)
        × IsFirstFree date seq d.others found
  unfolding free_seq
  free_seq-ends zero date seq d lt = absurd (omega arith)
  free_seq-ends (suc fuel) date seq d lt = elim (Bool-cases (is_file (rotated date seq) d.others)) [
    | inl taken ↦
        let (found, e, (le, free, before)) =
          free_seq-ends fuel date (suc seq) (called d)
            (omega (arith, count-from-lt date seq d.others taken)) in
        (
          found,
          rw (works d.calls, taken) e,
          (
            omega arith,
            free,
            λ m from_seq lt. elim (Bool-cases (seq == m)) [
              | inl same ↦ rw (sym ((==_iff seq m).0 same)) taken
              | inr differ ↦ before m (ground arith) lt
            ],
          ),
        )
    | inr free ↦
        (seq, rw (works d.calls, free) refl, (omega arith, free, λ m ge lt. absurd (omega arith)))
  ]

-- The disk after a rotation: the old file under its new name, and a new one.
abbrev pub fresh : FileName → File → ℕ → Disk → Disk
fresh name f n d = record d {
  job_log = some [];
  others = d.others ++ (name, f) ∷ [];
  opened = true;
  current_size = 0;
  calls = n;
}

pair_eq : {A B : Type 0} {p : A × B} {a : A} {b : B} → p.0 ≡ a → p.1 ≡ b → p ≡ (a, b)
pair_eq e f = ap₂ (λ x y. (x, y)) e f

module _ (os : Os) (works : (n : ℕ) → os.stat_fails n ≡ false)
    (moves : (n : ℕ) → os.renames n ≡ true) (opens_all : (n : ℕ) → os.opening n ≡ opens) where
  rename-moves :
      (name : FileName) (f : File) (d : Disk)
      → d.job_log ≡ some f
      → rename os name d ≡ record (called d) { job_log = none; others = d.others ++ (name, f) ∷ [] }
  unfolding rename
  rename-moves name f d has = rw (moves d.calls, has) refl

  reopened-fresh :
      (date : String) (found : ℕ) (f : File) (d : Disk)
      → d.job_log ≡ some f
      → reopened os date (some found, d)
        ≡ (done, fresh (rotated date found) f (suc (suc d.calls)) d)
  unfolding reopened open_current_file_locked
  reopened-fresh date found f d has =
      ap (open_current_file_locked os) (rename-moves (rotated date found) f d has)
      ∙ rw (open_current_file_locked, opens_all (suc d.calls)) refl

  -- With a system whose Stat, Rename and Open work, and more fuel than there are rotated files, a
  -- rotation ends: `job.log` stands under the first free name of the day, and a new, empty one is
  -- open.
  pub rotate_file_locked-rotates :
      (fuel : ℕ) (d : Disk) (f : File)
      → d.job_log ≡ some f
      → length d.others < fuel
      → (found : ℕ) × IsFirstFree (os.day d.calls) 1 d.others found
        × (n : ℕ) × (rotate_file_locked os fuel d
            ≡ (done, fresh (rotated (os.day d.calls) found) f n d))
  unfolding rotate_file_locked
  rotate_file_locked-rotates fuel d f has enough =
      let (found, e, first) =
        free_seq-ends os works fuel (os.day d.calls) 1 closed
          (omega (arith, count-le (from (os.day d.calls) 1) d.others)) in
      let (n, same) = free_seq-calls os fuel (os.day d.calls) 1 closed in
      (
        found,
        first,
        suc (suc n),
        ap (reopened os (os.day d.calls)) (pair_eq e same)
            ∙ reopened-fresh (os.day d.calls) found f (record closed { calls = n }) has,
      )
    where
      closed : Disk
      closed = record d { opened = false }

-- Stat that fails otherwise than with "does not exist", at every call, keeps the search going.
free_seq-hangs :
    (os : Os)
    → ((n : ℕ) → os.stat_fails n ≡ true)
    → (fuel : ℕ) (date : String) (seq : ℕ) (d : Disk) → (free_seq os fuel date seq d).0 ≡ none
unfolding free_seq
free_seq-hangs os fails zero date seq d = refl
free_seq-hangs os fails (suc fuel) date seq d =
    rw (fails d.calls) (free_seq-hangs os fails fuel date (suc seq) (called d))

-- When every Stat fails otherwise than with "does not exist", a rotation never ends: it is hung on
-- any fuel.
pub rotate_file_locked-hangs :
    (os : Os)
    → ((n : ℕ) → os.stat_fails n ≡ true)
    → (fuel : ℕ) (d : Disk) → (rotate_file_locked os fuel d).0 ≡ hung
unfolding rotate_file_locked reopened
rotate_file_locked-hangs os fails fuel d =
    ap (λ r. (reopened os (os.day d.calls) r).0)
      (pair_eq (free_seq-hangs os fails fuel (os.day d.calls) 1 (record d { opened = false })) refl)
