-- ===== src/Base/Arrays.antt =====
-- Reads, writes and exchanges in a list that stands for a slice.
use Prim.Native.Nat.{ℕ, zero, suc, ◌<◌}
use mathlib.Core.Path.{◌≡◌, refl, ap}
use mathlib.Core.List.{List, [], ◌∷◌, ◌++◌, Perm, perm_middle, append-nil}
use mathlib.Core.List.Perm
use native.Mathlib.Omega.{arith}
use go_flash_job.Base.Tests.{◌==◌, if◌then◌else◌}
use go_flash_job.Base.Lists.{length, get_or, set, take}

module _ {ℓ} {A : Type ℓ} where
  pub get_or-set :
      (d : A) (xs : List A) (i j : ℕ) (v : A)
      → i < length xs
      → get_or (set xs i v) j d ≡ (if i == j then v else get_or xs j d)
  get_or-set d [] i j v h = absurd (omega arith)
  get_or-set d (x ∷ xs) zero zero v h = refl
  get_or-set d (x ∷ xs) zero (suc j) v h = ground arith
  get_or-set d (x ∷ xs) (suc i) zero v h = ground arith
  get_or-set d (x ∷ xs) (suc i) (suc j) v h = ground (arith, get_or-set d xs i j v)

  pub get_or-append :
      (d : A) (xs ys : List A) (i : ℕ) → i < length xs → get_or (xs ++ ys) i d ≡ get_or xs i d
  get_or-append d [] ys i h = absurd (omega arith)
  get_or-append d (x ∷ xs) ys zero h = refl
  get_or-append d (x ∷ xs) ys (suc i) h = get_or-append d xs ys i (omega arith)

  pub get_or-take :
      (d : A) (n : ℕ) (xs : List A) (i : ℕ) → i < n → get_or (take n xs) i d ≡ get_or xs i d
  get_or-take d zero xs i h = absurd (omega arith)
  get_or-take d (suc n) [] i h = refl
  get_or-take d (suc n) (x ∷ xs) zero h = refl
  get_or-take d (suc n) (x ∷ xs) (suc i) h = get_or-take d n xs i (omega arith)

  -- The last element apart from the rest.
  pub take-append-last :
      (d : A) (n : ℕ) (xs : List A) → length xs ≡ suc n → take n xs ++ get_or xs n d ∷ [] ≡ xs
  take-append-last d n [] h = absurd (omega arith)
  take-append-last d zero (x ∷ []) h = refl
  take-append-last d zero (x ∷ y ∷ xs) h = absurd (omega arith)
  take-append-last d (suc n) (x ∷ xs) h = ap (◌∷◌ x) (take-append-last d n xs (omega arith))

  pub append_one-perm : (xs : List A) (x : A) → Perm (xs ++ x ∷ []) (x ∷ xs)
  append_one-perm xs x = rw (append-nil xs) at (perm_middle {a = x} xs [])

  -- A write trades the old element for the new one.
  pub set-perm :
      (d : A) (xs : List A) (i : ℕ) (v : A)
      → i < length xs
      → Perm (get_or xs i d ∷ set xs i v) (v ∷ xs)
  set-perm d [] i v h = absurd (omega arith)
  set-perm d (x ∷ xs) zero v h = Perm.swap v x xs
  set-perm d (x ∷ xs) (suc i) v h =
      Perm.trans (Perm.swap x _ _)
        (Perm.trans (Perm.cons x (set-perm d xs i v (omega arith))) (Perm.swap v x xs))
