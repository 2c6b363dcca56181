-- ===== src/Logger/Clean.antt =====
-- cleanExpiredLogs of buffer.go. Times are whole seconds; a day has 86400 of them, as in a zone
-- without a summer time.
use Prim.Native.String.{String, len, slice}
use text.Mathlib.Text.{◌==◌ as str_eq, starts_with}
use go_flash_job.Base.{
  ℕ, suc, ◌-◌, ◌*◌, Bool, not, ◌&&◌, Option, none, some, List, [], ◌∷◌, leb, if◌then◌else◌, ℤ, pos,
  ◌-ℤ◌, ltb_ℤ,
}

-- An entry of os.ReadDir: `mod_time` is `none` where Info fails.
pub record DirEntry : Type 0 where
  pub name : String
  pub is_dir : Bool
  pub mod_time : Option ℤ

abbrev pub FileInfo : Type 0
FileInfo = String × ℤ

abbrev pub ends_with : String → String → Bool
ends_with s t = leb (len t) (len s) && str_eq (slice s (len s - len t) (len s)) t

-- The tests that skip an entry.
unfoldable pub is_rotated_log : DirEntry → Bool
is_rotated_log e =
    not e.is_dir
    && (starts_with e.name "job" && ends_with e.name ".log")
    && not (str_eq e.name "job.log")

unfoldable pub file_infos : List DirEntry → List FileInfo
unfolding is_rotated_log
file_infos [] = []
file_infos (e ∷ r) =
    if is_rotated_log e
    then elim e.mod_time [ none ↦ file_infos r | some t ↦ (e.name, t) ∷ file_infos r ]
    else file_infos r

-- The oldest first.
abbrev pub insert_by_time : FileInfo → List FileInfo → List FileInfo
insert_by_time x [] = x ∷ []
insert_by_time x (y ∷ r) = if ltb_ℤ y.1 x.1 then y ∷ insert_by_time x r else x ∷ y ∷ r

unfoldable pub sort_by_time : List FileInfo → List FileInfo
sort_by_time [] = []
sort_by_time (x ∷ r) = insert_by_time x (sort_by_time r)

-- os.Remove of a name.
abbrev pub remove_name : String → List DirEntry → List DirEntry
remove_name n [] = []
remove_name n (e ∷ r) = if str_eq e.name n then remove_name n r else e ∷ remove_name n r

module _ (removes : String → Bool) where
  -- The loop that deletes, with its count; `removes` tells whether os.Remove of a name works.
  unfoldable pub delete_expired : ℤ → List FileInfo → List DirEntry → ℕ × List DirEntry
  delete_expired deadline [] dir = (0, dir)
  delete_expired deadline ((name, t) ∷ r) dir =
      if ltb_ℤ t deadline && removes name
      then (let (n, left) = delete_expired deadline r (remove_name name dir) in (suc n, left))
      else delete_expired deadline r dir

  -- cleanExpiredLogs, once the directory is read.
  unfoldable pub clean_expired_logs : ℤ → ℕ → List DirEntry → ℕ × List DirEntry
  unfolding delete_expired sort_by_time file_infos ◌-ℤ◌
  clean_expired_logs now max_keep_days dir =
      delete_expired (now -ℤ pos (max_keep_days * 86400)) (sort_by_time (file_infos dir)) dir
