-- ===== src/Heap/Down.antt =====
-- heap.down restores the order of a prefix in which one element may be too high.
use mathlib.Core.List.Perm
use go_flash_job.Base.{
  ℕ, zero, suc, ◌+◌, ◌-◌, ◌*◌, ◌/◌, ◌≤◌, ◌<◌, ◌≡◌, ◌≢◌, ◌⊎◌, ◌∙◌, refl, true, List, Perm, arith,
  length, inl, inr, Bool-cases, leb, ltb,
}
use go_flash_job.Heap.{Ordered, elem, swap, parent, child, down_loop}
use go_flash_job.Heap.Order.{Le, EdgeAt, IsHeapTo, Le-refl, length-swap, elem-swap, swap-perm}

two_children : (c i : ℕ) → 0 < c → (c - 1) / 2 ≡ i → (c ≡ 2 * i + 1) ⊎ (c ≡ 2 * i + 2)
two_children c i p e = omega arith

module _ {A : Type 0} (o : Ordered A) where
  -- Only the edges below `i` may be out of order.
  pub record DownInv (n : ℕ) (h : List A) (i : ℕ) : Type 0 where
    pub fits : n ≤ length h
    pub edges : (c : ℕ) → 0 < c → c < n → parent o c ≢ i → EdgeAt o h c
    pub bridge :
        (c : ℕ) → 0 < c → c < n → parent o c ≡ i → 0 < i → Le o (elem o h (parent o i)) (elem o h c)

  -- `m` is a child of `i` that may stand above every child of `i`.
  record IsTopChild (n : ℕ) (h : List A) (i m : ℕ) : Type 0 where
    inside : m < n
    below : parent o m ≡ i
    later : i < m
    top : (c : ℕ) → 0 < c → c < n → parent o c ≡ i → Le o (elem o h m) (elem o h c)

  child-IsTopChild : (n : ℕ) (h : List A) (i : ℕ) → 2 * i + 1 < n → IsTopChild n h i (child o n h i)
  unfolding child
  child-IsTopChild n h i p = elim (Bool-cases (ltb (2 * i + 2) n)) [
    | inr only ↦ rw only (record {
      inside = p;
      below = omega arith;
      later = omega arith;
      top = λ c q r s.
          let e : c ≡ 2 * i + 1 = ground arith in rw e (Le-refl o (elem o h (2 * i + 1)));
    })
    | inl two ↦ elim (Bool-cases (o.less (elem o h (2 * i + 2)) (elem o h (2 * i + 1)))) [
      | inl right ↦
          rw (two, right)
            (record {
              inside = ground arith;
              below = omega arith;
              later = omega arith;
              top = λ c q r s. ground (
                arith,
                Le-refl o (elem o h (2 * i + 2)),
                o.asym (elem o h (2 * i + 2)) (elem o h (2 * i + 1)),
                two_children c i q s,
              );
            })
      | inr left ↦
          rw (two, left)
            (record {
              inside = p;
              below = omega arith;
              later = omega arith;
              top =
                  λ c q r s. ground (arith, Le-refl o (elem o h (2 * i + 1)), two_children c i q s);
            })
    ]
  ]

  swap-DownInv :
      (n : ℕ) (h : List A) (i m : ℕ)
      → DownInv n h i
      → IsTopChild n h i m
      → o.less (elem o h m) (elem o h i) ≡ true
      → DownInv n (swap o h i m) m
  swap-DownInv n h i m v t below =
      let at =
        elem-swap o h i m (omega (arith, v.fits, t.inside, t.later))
          (omega (arith, v.fits, t.inside)) in
      record {
        fits = omega (arith, v.fits, length-swap o h i m);
        edges = λ c p q r. ground (
          arith,
          at c,
          at (parent o c),
          v.edges c,
          v.bridge m,
          v.bridge c,
          t.top c,
          t.below,
          t.later,
          t.inside,
          o.asym (elem o h m) (elem o h i),
        );
        bridge = λ c p q r s.
            ground (arith, at c, at (parent o m), v.edges c, t.below, t.later, t.inside);
      }

  -- `h'` holds the elements of `h`, its first `n` in heap order and the others where they were.
  pub record Sunk (n : ℕ) (h h' : List A) : Type 0 where
    pub heap : IsHeapTo o n h'
    pub same : Perm h' h
    pub kept : (k : ℕ) → n ≤ k → elem o h' k ≡ elem o h k

  Sunk-swap :
      (n : ℕ) (h h' : List A) (i m : ℕ)
      → n ≤ length h
      → i < n
      → m < n
      → Sunk n (swap o h i m) h'
      → Sunk n h h'
  Sunk-swap n h h' i m fits p q s = record {
    heap = s.heap;
    same = Perm.trans s.same (swap-perm o h i m (omega arith) (omega arith));
    kept = λ k r. s.kept k r ∙ ground (arith, elem-swap o h i m (omega arith) (omega arith) k);
  }

  pub down_loop-Sunk :
      (fuel n : ℕ) (h : List A) (i : ℕ)
      → n - i ≤ fuel
      → DownInv n h i
      → Sunk n h (down_loop o fuel n h i)
  unfolding down_loop
  down_loop-Sunk zero n h i f v = record {
    heap = λ c p q. v.edges c p q (omega arith);
    same = Perm.rfl;
    kept = λ k r. refl;
  }
  down_loop-Sunk (suc fuel) n h i f v = elim (Bool-cases (leb n (2 * i + 1))) [
    | inl leaf ↦ rw leaf (record {
      heap = λ c p q. v.edges c p q (ground arith);
      same = Perm.rfl;
      kept = λ k r. refl;
    })
    | inr inner ↦
        let m = child o n h i in
        let t = child-IsTopChild n h i (ground arith) in
        elim (Bool-cases (o.less (elem o h m) (elem o h i))) [
          | inl below ↦
              rw (inner, below)
                (Sunk-swap n h _ i m v.fits (ground arith) t.inside (
                  down_loop-Sunk fuel n (swap o h i m) m (omega (arith, t.later))
                    (swap-DownInv n h i m v t below)))
          | inr settled ↦
              rw (inner, settled)
                (record {
                  heap = λ c p q.
                      ground
                        (arith, v.edges c, t.top c, o.trans (elem o h i) (elem o h m) (elem o h c));
                  same = Perm.rfl;
                  kept = λ k r. refl;
                })
        ]
  ]
