-- ===== src/Heap/Correct.antt =====
-- heap.Push and heap.Pop on a heap.
use mathlib.Core.List.{not-mem-nil, mem-cons}
use mathlib.Core.Logic.Or
use mathlib.Core.List.Perm
use go_flash_job.Base.{
  ℕ, suc, ◌<◌, ◌≡◌, refl, ◌∙◌, List, [], ◌∷◌, ◌++◌, Mem, Perm, some, arith, length, take,
  length-append, length-perm, get_or-append, get_or-take, take-append-last, append_one-perm, none,
}
use go_flash_job.Heap.{Ordered, elem, swap, parent, push, pop}
use go_flash_job.Heap.Order.{Le, IsHeap, root_le, elem-swap, length-swap, swap-perm}
use go_flash_job.Heap.Up.{UpInv, up_loop-Sifted}
use go_flash_job.Heap.Down.{DownInv, Sunk, down_loop-Sunk}

module _ {A : Type 0} (o : Ordered A) where
  push-UpInv : (h : List A) (x : A) → IsHeap o h → UpInv o (h ++ x ∷ []) (length h)
  push-UpInv h x heap =
      let size = length-append h (x ∷ []) in
      record {
        inside = omega (arith, size);
        edges = λ c p q r. ground (
          arith,
          size,
          heap c,
          get_or-append o.zero_value h (x ∷ []) c,
          get_or-append o.zero_value h (x ∷ []) (parent o c),
        );
        bridge = λ c p q r s. absurd (omega (arith, size));
      }

  -- heap.Push keeps the heap order and adds exactly the new element.
  pub push-IsHeap :
      (h : List A) (x : A) → IsHeap o h → IsHeap o (push o h x) × Perm (push o h x) (x ∷ h)
  unfolding push
  push-IsHeap h x heap =
      let (h', same) =
        up_loop-Sifted o (suc (length h)) (h ++ x ∷ []) (length h) (omega arith)
          (push-UpInv h x heap) in
      (h', Perm.trans same (append_one-perm h x))

  -- What heap.Pop returns from `h`: an element that none in `h` is less than, and a heap of the others.
  pub record Popped (h : List A) (x : A) (h' : List A) : Type 0 where
    pub same : Perm (x ∷ h') h
    pub heap : IsHeap o h'
    pub least : (y : A) → Mem y h → Le o x y
    pub root : x ≡ elem o h 0

  least_of_elems :
      (x : A) (h : List A)
      → ((i : ℕ) → i < length h → Le o x (elem o h i))
      → (y : A) → Mem y h
      → Le o x y
  least_of_elems x [] all y m = absurd (not-mem-nil m)
  least_of_elems x (z ∷ h) all y m =
      let prop : IsProp (Le o x y) = hlevel in
      Or.elim prop (mem-cons.0 m) (λ e. rw e (all 0 (omega arith)))
        (least_of_elems x h (λ i p. all (suc i) (omega arith)) y)

  module _ (x : A) (r : List A) (heap : IsHeap o (x ∷ r)) where
    swapped : List A
    swapped = swap o (x ∷ r) 0 (length r)

    swapped-DownInv : DownInv o (length r) swapped 0
    unfolding swapped
    swapped-DownInv =
        let at = elem-swap o (x ∷ r) 0 (length r) (omega arith) (omega arith) in
        record {
          fits = omega (arith, length-swap o (x ∷ r) 0 (length r));
          edges = λ c p q s. ground (arith, at c, at (parent o c), heap c);
          bridge = λ c p q s t. absurd (omega arith);
        }

    swapped_last : elem o swapped (length r) ≡ x
    unfolding swapped
    swapped_last =
        ground (arith, elem-swap o (x ∷ r) 0 (length r) (omega arith) (omega arith) (length r))

  Popped-Sunk :
      (x : A) (r h' : List A)
      → IsHeap o (x ∷ r)
      → Sunk o (length r) (swap o (x ∷ r) 0 (length r)) h'
      → Popped (x ∷ r) (elem o h' (length r)) (take (length r) h')
  unfolding swapped
  Popped-Sunk x r h' heap s =
      let n = length r in
      let top : elem o h' n ≡ x = s.kept n (omega arith) ∙ swapped_last x r heap in
      let same = Perm.trans s.same (swap-perm o (x ∷ r) 0 n (omega arith) (omega arith)) in
      let size : length h' ≡ suc n = length-perm same in
      let whole = take-append-last o.zero_value n h' size in
      let out : Perm (elem o h' n ∷ take n h') h' =
        rw whole at (Perm.symm (append_one-perm (take n h') (elem o h' n))) in
      let len = length-perm out in
      record {
        root = top;
        same = Perm.trans out same;
        heap = λ c p q. ground (
          arith,
          size,
          len,
          s.heap c,
          get_or-take o.zero_value n h' c,
          get_or-take o.zero_value n h' (parent o c),
        );
        least = rw top (least_of_elems x (x ∷ r) (λ i p. root_le o (suc n) (x ∷ r) i heap p));
      }

  -- For any strict weak order: heap.Pop on a heap that is not empty returns its first element,
  -- which none of its elements is less than, and a heap of the others.
  pub pop-Popped :
      (h : List A)
      → IsHeap o h
      → 0 < length h
      → (x : A) × (h' : List A) × (pop o h ≡ some (x, h')) × Popped h x h'
  unfolding pop swapped
  pop-Popped [] heap p = absurd (omega arith)
  pop-Popped (x ∷ r) heap p = (
    _,
    _,
    refl,
    Popped-Sunk x r _ heap (
        down_loop-Sunk o (length r) (length r) (swapped x r heap) 0 (omega arith)
          (swapped-DownInv x r heap)),
  )

  pub pop-nil : pop o [] ≡ none
  unfolding pop
  pop-nil = refl
