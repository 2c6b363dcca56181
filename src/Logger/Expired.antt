-- ===== src/Logger/Expired.antt =====
-- Which files the removal of expired logs deletes.
use Prim.Native.String.{String}
use text.Mathlib.Text.{◌==◌ as str_eq, starts_with}
use text.Mathlib.TextEquality.{eq_iff}
use text.Mathlib.TextPositions.{eq_refl}
use mathlib.Core.Path.{ap₂}
use go_flash_job.Base.{
  ℕ, ◌+◌, ◌*◌, ◌≡◌, refl, sym, ap, ◌∙◌, inl, inr, Bool, true, false, not, ◌&&◌, ◌||◌, Option, none,
  some, List, [], ◌∷◌, arith, if◌then◌else◌, Bool-cases, ℤ, pos, ◌-ℤ◌, ltb_ℤ, count, one_if,
}
use go_flash_job.Logger.Clean.{
  DirEntry, FileInfo, file_infos, insert_by_time, sort_by_time, remove_name, delete_expired,
  clean_expired_logs, ends_with,
}

abbrev pub keep : (DirEntry → Bool) → List DirEntry → List DirEntry
keep f [] = []
keep f (e ∷ r) = if f e then e ∷ keep f r else keep f r

abbrev pub is_named : String → List DirEntry → Bool
is_named n [] = false
is_named n (e ∷ r) = str_eq e.name n || is_named n r

abbrev pub AreDistinct : List DirEntry → Type 0
AreDistinct [] = Unit
AreDistinct (e ∷ r) = (is_named e.name r ≡ false) × AreDistinct r

abbrev pub is_before : ℤ → Option ℤ → Bool
is_before deadline none = false
is_before deadline (some t) = ltb_ℤ t deadline

-- Both predicates agree on every entry of a list.
abbrev Agree : (DirEntry → Bool) → (DirEntry → Bool) → List DirEntry → Type 0
Agree f g [] = Unit
Agree f g (e ∷ r) = (f e ≡ g e) × Agree f g r

keep-Agree : (f g : DirEntry → Bool) (l : List DirEntry) → Agree f g l → keep f l ≡ keep g l
keep-Agree f g [] h = refl
keep-Agree f g (e ∷ r) h = ground (arith, h.0, keep-Agree f g r h.1)

Agree-always :
    {f g : DirEntry → Bool} → ((e : DirEntry) → f e ≡ g e) → (l : List DirEntry) → Agree f g l
Agree-always h [] = tt
Agree-always h (e ∷ r) = (h e, Agree-always h r)

Agree-not :
    (f g : DirEntry → Bool) (l : List DirEntry)
    → Agree f g l
    → Agree (λ e. not (f e)) (λ e. not (g e)) l
Agree-not f g [] h = tt
Agree-not f g (e ∷ r) h = (ap not h.0, Agree-not f g r h.1)

keep-remove_name :
    (f : DirEntry → Bool) (n : String) (l : List DirEntry)
    → keep f (remove_name n l) ≡ keep (λ e. not (str_eq e.name n) && f e) l
keep-remove_name f n [] = refl
keep-remove_name f n (e ∷ r) = ground (arith, keep-remove_name f n r)

keep_all : (l : List DirEntry) → keep (λ e. true) l ≡ l
keep_all [] = refl
keep_all (e ∷ r) = ap (◌∷◌ e) (keep_all r)

module _ (removes : String → Bool) (deadline : ℤ) where
  -- A file named `job*.log` other than job.log, last written before the deadline, that os.Remove can delete.
  abbrev pub is_expired : DirEntry → Bool
  is_expired e =
      not e.is_dir
      && starts_with e.name "job"
      && ends_with e.name ".log"
      && not (str_eq e.name "job.log")
      && is_before deadline e.mod_time
      && removes e.name

  abbrev is_due : FileInfo → Bool
  is_due (name, t) = ltb_ℤ t deadline && removes name

  -- Some file of the list has that name and is deleted.
  abbrev names : List FileInfo → String → Bool
  names [] n = false
  names (x ∷ r) n = (is_due x && str_eq n x.0) || names r n

  names-insert :
      (x : FileInfo) (l : List FileInfo) (n : String)
      → names (insert_by_time x l) n ≡ names (x ∷ l) n
  names-insert x [] n = refl
  names-insert x (y ∷ r) n = ground (arith, names-insert x r n)

  names-sort : (l : List FileInfo) (n : String) → names (sort_by_time l) n ≡ names l n
  unfolding sort_by_time
  names-sort [] n = refl
  names-sort (x ∷ r) n =
      names-insert x (sort_by_time r) n ∙ ap (λ b. (is_due x && str_eq n x.0) || b) (names-sort r n)

  count-insert :
      (x : FileInfo) (l : List FileInfo)
      → count is_due (insert_by_time x l) ≡ one_if (is_due x) + count is_due l
  count-insert x [] = omega arith
  count-insert x (y ∷ r) = ground (arith, count-insert x r)

  count-sort : (l : List FileInfo) → count is_due (sort_by_time l) ≡ count is_due l
  unfolding sort_by_time
  count-sort [] = refl
  count-sort (x ∷ r) = omega (arith, count-insert x (sort_by_time r), count-sort r)

  count-file_infos : (l : List DirEntry) → count is_due (file_infos l) ≡ count is_expired l
  unfolding file_infos
  count-file_infos [] = refl
  count-file_infos (e ∷ r) = ground (arith, count-file_infos r)

  delete_expired-count :
      (l : List FileInfo) (dir : List DirEntry)
      → (delete_expired removes deadline l dir).0 ≡ count is_due l
  unfolding delete_expired
  delete_expired-count [] dir = refl
  delete_expired-count ((name, t) ∷ r) dir =
      ground (arith, delete_expired-count r dir, delete_expired-count r (remove_name name dir))

  delete_expired-keep :
      (l : List FileInfo) (dir : List DirEntry)
      → (delete_expired removes deadline l dir).1 ≡ keep (λ e. not (names l e.name)) dir
  unfolding delete_expired
  delete_expired-keep [] dir = sym (keep_all dir)
  delete_expired-keep ((name, t) ∷ r) dir = elim (Bool-cases (is_due (name, t))) [
    | inl due ↦ rw due (
        delete_expired-keep r (remove_name name dir)
        ∙ keep-remove_name _ name dir
        ∙ keep-Agree _ _ dir (Agree-always (λ e. ground arith) dir))
    | inr not_due ↦ rw not_due (delete_expired-keep r dir)
  ]

  names-missing :
      (n : String) (l : List DirEntry) → is_named n l ≡ false → names (file_infos l) n ≡ false
  unfolding file_infos
  names-missing n [] h = refl
  names-missing n (e ∷ r) h = ground (arith, names-missing n r, eq_iff e.name n, eq_iff n e.name)

  names-head :
      (e : DirEntry) (r : List DirEntry)
      → is_named e.name r ≡ false
      → names (file_infos (e ∷ r)) e.name ≡ is_expired e
  unfolding file_infos
  names-head e r h = ground (arith, names-missing e.name r h, eq_refl e.name)

  names-tail :
      (e : DirEntry) (r : List DirEntry) (n : String)
      → str_eq e.name n ≡ false
      → names (file_infos (e ∷ r)) n ≡ names (file_infos r) n
  unfolding file_infos
  names-tail e r n h = ground (arith, eq_iff e.name n, eq_iff n e.name)

  names_later :
      (e : DirEntry) (r l : List DirEntry)
      → is_named e.name l ≡ false
      → Agree (λ x. names (file_infos r) x.name) is_expired l
      → Agree (λ x. names (file_infos (e ∷ r)) x.name) is_expired l
  names_later e r [] h agree = tt
  names_later e r (x ∷ l) h agree = (
    names-tail e r x.name (ground (arith, eq_iff e.name x.name, eq_iff x.name e.name)) ∙ agree.0,
    names_later e r l (ground arith) agree.1,
  )

  names-file_infos :
      (l : List DirEntry) → AreDistinct l → Agree (λ x. names (file_infos l) x.name) is_expired l
  names-file_infos [] h = tt
  names-file_infos (e ∷ r) (fresh, h) =
      (names-head e r fresh, names_later e r r fresh (names-file_infos r h))

-- In a directory that names no file twice, cleanExpiredLogs deletes the entries that are rotated
-- log files (no directory, `job*.log`, not `job.log`), were last written before the deadline and
-- can be deleted; it counts them and leaves every other entry in its place.
pub clean_expired_logs-exact :
    (removes : String → Bool) (now : ℤ) (max_keep_days : ℕ) (dir : List DirEntry)
    → AreDistinct dir
    → let deadline = now -ℤ pos (max_keep_days * 86400) in
      clean_expired_logs removes now max_keep_days dir ≡ (
        count (is_expired removes deadline) dir,
        keep (λ e. not (is_expired removes deadline e)) dir,
      )
unfolding clean_expired_logs
clean_expired_logs-exact removes now max_keep_days dir distinct = ap₂ (λ n l. (n, l)) counted left
  where
    deadline : ℤ
    deadline = now -ℤ pos (max_keep_days * 86400)

    infos : List FileInfo
    infos = sort_by_time (file_infos dir)

    counted :
        (delete_expired removes deadline infos dir).0 ≡ count (is_expired removes deadline) dir
    counted =
        delete_expired-count removes deadline infos dir
        ∙ count-sort removes deadline (file_infos dir)
        ∙ count-file_infos removes deadline dir

    left :
        (delete_expired removes deadline infos dir).1
        ≡ keep (λ e. not (is_expired removes deadline e)) dir
    left =
        delete_expired-keep removes deadline infos dir
        ∙ keep-Agree _ _ dir
            (Agree-always (λ e. ap not (names-sort removes deadline (file_infos dir) e.name)) dir)
        ∙ keep-Agree _ _ dir (Agree-not _ _ dir (names-file_infos removes deadline dir distinct))
