-- ===== src/Alloc/LinkedList/Invariant.antt =====
-- The invariant of the linked-list allocator over what its client holds.
use taijios.Common.{
  ℕ, ◌+◌, ◌%◌, ◌^◌, ◌≤◌, ◌<◌, ◌≡◌, refl, arith, ok, List, ◌∷◌, map, All, All-map, le→leb, ==_iff,
}
use taijios.Alloc.{round_up}
use taijios.Alloc.Align.{align_up-round_up, round_up_bounds, round_up-least}
use taijios.Alloc.Block.{Block, block, within, count_at, All-Inside, Inside}
use taijios.Alloc.Client.{Allocation}
use taijios.Alloc.LinkedList.{LinkedListAllocator, ListNode, add_free_region, node_size, node_align}
use taijios.Alloc.LinkedList.Request.{IsRequest, block_size, block_align}

-- the block that is set aside for an allocation
abbrev pub block_of : Allocation → Block
block_of a = block a.ptr (block_size a.layout)

pub record IsNode (node : ListNode) : Type 0 where
  pub aligned : node.addr % node_align ≡ 0
  pub holds : node_size ≤ node.size

pub record IsLive (a : Allocation) : Type 0 where
  pub request : IsRequest a.layout
  pub nonnull : 0 < a.ptr
  pub aligned : a.ptr % block_align a.layout ≡ 0

-- The heap `[lo, hi)` is shared out: no byte lies in two free regions or live blocks.
pub record IsHeap (lo hi : ℕ) (self : LinkedListAllocator) (live : List Allocation) : Type 0 where
  pub nonnull : 0 < lo
  pub bounded : hi ≤ 2 ^ 63
  pub disjoint : (x : ℕ) → count_at x self.next + count_at x (map block_of live) ≤ within lo hi x
  pub nodes : All IsNode self.next
  pub served : All IsLive live

-- A region that can hold a node is put in front, without a panic.
pub add_free_region-ok :
    (self : LinkedListAllocator) (addr size : ℕ)
    → addr % 8 ≡ 0
    → addr < 2 ^ 63
    → 16 ≤ size
    → add_free_region self addr size ≡ ok (record { next = block addr size ∷ self.next })
unfolding add_free_region
add_free_region-ok self addr size aligned small fits =
    let same : round_up addr (2 ^ 3) ≡ addr =
      omega (arith, round_up_bounds 3 addr, round_up-least 3 addr addr (omega arith) aligned) in
    rw
      (
        align_up-round_up 3 addr (omega arith) (omega arith),
        same,
        (==_iff addr addr).1 refl,
        le→leb 16 size fits,
      )
      refl

pub nodes-Inside :
    {lo hi : ℕ} {self : LinkedListAllocator} {live : List Allocation}
    → IsHeap lo hi self live
    → All (Inside lo hi) self.next
nodes-Inside {lo} {hi} {self} {live} heap =
    All-Inside lo hi self.next (λ x. count_at x (map block_of live)) heap.disjoint
      (All-map IsNode (λ node n. omega (arith, n.holds)) self.next heap.nodes)
