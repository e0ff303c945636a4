-- ===== src/Alloc/FixedSize/Invariant.antt =====
-- What the fixed-size allocator keeps: the fallback heap has given out what the client holds, by
-- block sizes, and the blocks of the free lists.
use native.Mathlib.Nat.{pow-le-pow_right}
use taijios.Common.{
  ℕ, ◌+◌, ◌^◌, ◌≤◌, ◌<◌, ◌≡◌, refl, arith, none, some, List, ◌++◌, map, All, length,
}
use taijios.Alloc.{Layout}
use taijios.Alloc.Align.{two_pow-pos}
use taijios.Alloc.Client.{Allocation}
use taijios.Alloc.LinkedList.Request.{IsRequest}
use taijios.Alloc.FixedSize.{Heap, list_index, FixedSizeBlockAllocator}
use taijios.Alloc.FixedSize.Contract.{Contract}
use taijios.Alloc.FixedSize.Lists.{class_layout, block_at, backing, free_blocks}

pub class_bounds : (i : ℕ) → i < 9 → (8 ≤ 2 ^ (i + 3)) × (2 ^ (i + 3) ≤ 2048)
class_bounds i h = (
  pow-le-pow_right {n = 2} (omega arith) {i = 3} {j = i + 3} (omega arith),
  pow-le-pow_right {n = 2} (omega arith) {i = i + 3} {j = 11} (omega arith),
)

pub class_layout-IsRequest : (i : ℕ) → i < 9 → IsRequest (class_layout i)
class_layout-IsRequest i h =
    let (low, high) = class_bounds i h in
    record {
      pos = two_pow-pos (i + 3);
      log = i + 3;
      log_lt = omega arith;
      pow = refl;
      fits = omega arith;
    }

pub backing-class :
    (l : Layout) (ptr i : ℕ)
    → list_index l ≡ some i
    → backing (record { ptr = ptr; layout = l }) ≡ block_at i ptr
unfolding backing
backing-class l ptr i e = rw (e, backing) refl

pub backing-large :
    (l : Layout) (ptr : ℕ)
    → list_index l ≡ none
    → backing (record { ptr = ptr; layout = l }) ≡ record { ptr = ptr; layout = l }
unfolding backing
backing-large l ptr e = rw (e, backing) refl

module _ (H : Heap) (C : Contract H) where
  pub record IsFixedSize (lo hi : ℕ) (self : FixedSizeBlockAllocator H) (live : List Allocation)
      : Type 0 where
    pub nine : length self.list_heads ≡ 9
    pub requests : All (λ a. IsRequest a.layout) live
    pub owns :
        C.Owns lo hi self.fallback_allocator (map backing live ++ free_blocks 0 self.list_heads)
