-- ===== src/Heap/Order.antt =====
-- The heap order on a prefix of a slice, and what an exchange of two elements does.
use mathlib.Core.List.Perm
use go_flash_job.Base.{
  ℕ, zero, suc, ◌<◌, ◌≡◌, false, List, Perm, arith, ◌==◌, if◌then◌else◌, length, get_or, set,
  length-set, get_or-set, set-perm,
}
use go_flash_job.Heap.{Ordered, elem, swap, parent}

module _ {A : Type 0} (o : Ordered A) where
  -- `x` may stand above `y`.
  abbrev pub Le : A → A → Type 0
  Le x y = o.less y x ≡ false

  -- The edge above `c` is in order.
  abbrev pub EdgeAt : List A → ℕ → Type 0
  EdgeAt h c = Le (elem o h (parent o c)) (elem o h c)

  abbrev pub IsHeapTo : ℕ → List A → Type 0
  IsHeapTo n h = (c : ℕ) → 0 < c → c < n → EdgeAt h c

  abbrev pub IsHeap : List A → Type 0
  IsHeap h = IsHeapTo (length h) h

  pub Le-refl : (x : A) → Le x x
  Le-refl x = ground (arith, o.asym x x)

  pub length-swap : (h : List A) (i j : ℕ) → length (swap o h i j) ≡ length h
  unfolding swap
  length-swap h i j = simp length-set

  module _ (h : List A) (i j : ℕ) (hi : i < length h) (hj : j < length h) where
    pub elem-swap :
        (c : ℕ)
        → elem o (swap o h i j) c
          ≡ (if j == c then elem o h i else if i == c then elem o h j else elem o h c)
    unfolding swap
    elem-swap c = rw (
      get_or-set o.zero_value (set h i (elem o h j)) j c (elem o h i) (rw length-set hj),
      get_or-set o.zero_value h i c (elem o h j) hi,
    )

    pub swap-perm : Perm (swap o h i j) h
    unfolding swap
    swap-perm =
        let z = o.zero_value in
        let at_j : get_or (set h i (elem o h j)) j z ≡ elem o h j =
          ground (arith, get_or-set z h i j (elem o h j)) in
        let write =
          rw at_j at (set-perm z (set h i (elem o h j)) j (elem o h i) (rw length-set hj)) in
        Perm.cons_inv (Perm.trans write (set-perm z h i (elem o h j) hi))

  root_le_fuel :
      (k n : ℕ) (h : List A) (i : ℕ) → IsHeapTo n h → i < k → i < n → Le (elem o h 0) (elem o h i)
  root_le_fuel zero n h i heap f p = absurd (omega arith)
  root_le_fuel (suc k) n h zero heap f p = Le-refl (elem o h 0)
  root_le_fuel (suc k) n h (suc i) heap f p =
      o.trans (elem o h 0) (elem o h (parent o (suc i))) (elem o h (suc i))
        (root_le_fuel k n h (parent o (suc i)) heap (omega arith) (omega arith))
        (heap (suc i) (omega arith) p)

  -- No element of a heap is less than the root.
  pub root_le : (n : ℕ) (h : List A) (i : ℕ) → IsHeapTo n h → i < n → Le (elem o h 0) (elem o h i)
  root_le n h i heap p = root_le_fuel (suc i) n h i heap (omega arith) p
