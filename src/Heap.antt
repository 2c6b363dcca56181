-- ===== src/Heap.antt =====
-- scheduler/internal/core/heap.go, and Go's container/heap, which it implements the interface of.
pub mod Order
pub mod Up
pub mod Down
pub mod Correct
use go_flash_job.Base.{
  [], ℕ, zero, suc, ◌+◌, ◌-◌, ◌*◌, ◌/◌, ◌≡◌, Bool, true, false, ◌&&◌, List, ◌∷◌, ◌++◌, Option, none,
  some, length, get_or, set, take, ltb, leb, ◌==◌, if◌then◌else◌,
}

-- What container/heap needs of the element type: `Less` on the elements, a strict weak order.
-- `zero_value` is Go's zero value, which stands where an index would be out of range.
pub record Ordered (A : Type 0) : Type 0 where
  pub zero_value : A
  pub less : A → A → Bool
  pub asym : (x y : A) → less x y ≡ true → less y x ≡ false
  pub trans : (x y z : A) → less y x ≡ false → less z y ≡ false → less z x ≡ false

module _ {A : Type 0} (o : Ordered A) where
  -- h[i]
  abbrev pub elem : List A → ℕ → A
  elem h i = get_or h i o.zero_value

  pub swap : List A → ℕ → ℕ → List A
  swap h i j = set (set h i (elem h j)) j (elem h i)

  abbrev pub parent : ℕ → ℕ
  parent j = (j - 1) / 2

  -- The loop of heap.up, with fuel; `(j - 1) / 2` is 0 at the root, in Go as here.
  pub up_loop : ℕ → List A → ℕ → List A
  up_loop zero h j = h
  up_loop (suc fuel) h j =
      let rest = up_loop fuel (swap h (parent j) j) (parent j) in
      if parent j == j then h else if o.less (elem h j) (elem h (parent j)) then rest else h

  -- The child of `i` that heap.down compares with: the right one if it is below `n` and less.
  pub child : ℕ → List A → ℕ → ℕ
  child n h i =
      if ltb (2 * i + 2) n && o.less (elem h (2 * i + 2)) (elem h (2 * i + 1))
      then 2 * i + 2
      else 2 * i + 1

  -- The loop of heap.down over the first `n` elements, with fuel. Its test `j1 < 0` is for
  -- overflow, which no slice is long enough for.
  pub down_loop : ℕ → ℕ → List A → ℕ → List A
  down_loop zero n h i = h
  down_loop (suc fuel) n h i =
      let j = child n h i in
      let rest = down_loop fuel n (swap h i j) j in
      if leb n (2 * i + 1) then h else if o.less (elem h j) (elem h i) then rest else h

  -- heap.Push: append, then move the last element up.
  unfoldable pub push : List A → A → List A
  unfolding up_loop swap
  push h x = up_loop (suc (length h)) (h ++ x ∷ []) (length h)

  -- heap.Pop: swap the ends, move the new root down, take the last element off. `none` is the
  -- panic on an empty heap.
  unfoldable pub pop : List A → Option (A × List A)
  unfolding down_loop swap child
  pop [] = none
  pop (x ∷ r) =
      let n = length r in let h = down_loop n n (swap (x ∷ r) 0 n) 0 in some (elem h n, take n h)

  -- Peek
  unfoldable pub peek : List A → Option A
  peek [] = none
  peek (x ∷ r) = some x
