-- ===== src/Base/Count.antt =====
-- How many elements pass a test: lists with equal counts for every test hold the same elements.
use Prim.Native.Nat.{ℕ, ◌+◌, ◌≤◌}
use go_flash_job.Base.Lists.{length}
use mathlib.Core.Path.{◌≡◌, refl, ap, ◌∙◌}
use mathlib.Core.Logic.{∥∥₁_elim}
use mathlib.Core.Bool.{Bool, true, false}
use mathlib.Core.List.{List, [], ◌∷◌, ◌++◌, Perm, Permᴰ}
use native.Mathlib.Nat.{ℕ_set}
use native.Mathlib.Omega.{arith}

abbrev pub one_if : Bool → ℕ
one_if true = 1
one_if false = 0

module _ {ℓ} {A : Type ℓ} (p : A → Bool) where
  abbrev pub count : List A → ℕ
  count [] = 0
  count (x ∷ xs) = one_if (p x) + count xs

  pub count-append : (xs ys : List A) → count (xs ++ ys) ≡ count xs + count ys
  count-append [] ys = omega arith
  count-append (x ∷ xs) ys = omega (arith, count-append xs ys)

  Permᴰ-count : {a b : List A} → Permᴰ a b → count a ≡ count b
  Permᴰ-count Permᴰ.nil = refl
  Permᴰ-count (Permᴰ.cons e q) = omega (arith, ap (λ (x : A). one_if (p x)) e, Permᴰ-count q)
  Permᴰ-count (Permᴰ.swap e f) =
      omega (arith, ap (λ (x : A). one_if (p x)) e, ap (λ (x : A). one_if (p x)) f)
  Permᴰ-count (Permᴰ.trans q r) = Permᴰ-count q ∙ Permᴰ-count r

  pub count-perm : {a b : List A} → Perm a b → count a ≡ count b
  count-perm q = ∥∥₁_elim q (ℕ_set _ _) Permᴰ-count

module _ {ℓ} {A : Type ℓ} where
  pub count-length : (xs : List A) → length xs ≡ count (λ _. true) xs
  count-length [] = refl
  count-length (x ∷ xs) = omega (arith, count-length xs)

  pub length-perm : {a b : List A} → Perm a b → length a ≡ length b
  length-perm {a} {b} q =
      omega (arith, count-length a, count-length b, count-perm (λ (x : A). true) q)

  pub count-le : (p : A → Bool) (xs : List A) → count p xs ≤ length xs
  count-le p [] = omega arith
  count-le p (x ∷ xs) = ground (arith, count-le p xs)
