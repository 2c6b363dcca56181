-- ===== src/Heap/Up.antt =====
-- heap.up restores the order of a heap in which one element may be too low.
use mathlib.Core.List.Perm
use go_flash_job.Base.{
  ℕ, zero, suc, ◌<◌, ◌≡◌, ◌≢◌, true, List, Perm, arith, ◌==◌, length, inl, inr, Bool-cases,
}
use go_flash_job.Heap.{Ordered, elem, swap, parent, up_loop}
use go_flash_job.Heap.Order.{Le, EdgeAt, IsHeap, length-swap, elem-swap, swap-perm}

module _ {A : Type 0} (o : Ordered A) where
  -- Only the edge above `j` may be out of order.
  pub record UpInv (h : List A) (j : ℕ) : Type 0 where
    pub inside : j < length h
    pub edges : (c : ℕ) → 0 < c → c < length h → c ≢ j → EdgeAt o h c
    pub bridge :
        (c : ℕ)
        → 0 < c
        → c < length h
        → parent o c ≡ j
        → 0 < j
        → Le o (elem o h (parent o j)) (elem o h c)

  swap-UpInv :
      (h : List A) (j : ℕ)
      → UpInv h j
      → 0 < j
      → o.less (elem o h j) (elem o h (parent o j)) ≡ true
      → UpInv (swap o h (parent o j) j) (parent o j)
  swap-UpInv h j v pos below =
      let at = elem-swap o h (parent o j) j (omega (arith, v.inside)) v.inside in
      let size = length-swap o h (parent o j) j in
      record {
        inside = omega (arith, v.inside, size);
        edges = λ c p q r. ground (
          arith,
          at c,
          at (parent o c),
          size,
          v.edges c,
          v.bridge c,
          v.inside,
          o.asym (elem o h j) (elem o h (parent o j)),
          o.trans (elem o h j) (elem o h (parent o j)) (elem o h c),
        );
        bridge = λ c p q r s. ground (
          arith,
          at c,
          at (parent o (parent o j)),
          size,
          v.edges c,
          v.edges (parent o j),
          v.inside,
          o.trans (elem o h (parent o (parent o j))) (elem o h (parent o j)) (elem o h c),
        );
      }

  abbrev Sifted : List A → List A → Type 0
  Sifted h h' = IsHeap o h' × Perm h' h

  pub up_loop-Sifted :
      (fuel : ℕ) (h : List A) (j : ℕ) → j < fuel → UpInv h j → Sifted h (up_loop o fuel h j)
  unfolding up_loop
  up_loop-Sifted zero h j f v = absurd (omega arith)
  up_loop-Sifted (suc fuel) h j f v = elim (Bool-cases (parent o j == j)) [
    | inl root ↦ rw root ((λ c p q. v.edges c p q (ground arith)), Perm.rfl)
    | inr inner ↦ elim (Bool-cases (o.less (elem o h j) (elem o h (parent o j)))) [
      | inl below ↦
          rw (inner, below)
            (let (heap, perm) =
                up_loop-Sifted fuel (swap o h (parent o j) j) (parent o j) (ground arith)
                  (swap-UpInv h j v (ground arith) below) in
              (
                heap,
                Perm.trans perm (swap-perm o h (parent o j) j (omega (arith, v.inside)) v.inside),
              ))
      | inr settled ↦ rw (inner, settled) ((λ c p q. ground (arith, v.edges c p q)), Perm.rfl)
    ]
  ]
