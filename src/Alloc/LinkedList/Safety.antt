-- ===== src/Alloc/LinkedList/Safety.antt =====
-- What a client of the linked-list allocator can rely on, from `init` on.
use mathlib.Core.Path.{subst}
use taijios.Common.{ℕ, ◌+◌, ◌%◌, ◌≤◌, ◌<◌, ◌≡◌, ok, ok_unique, List, [], ◌∷◌, ◌++◌}
use taijios.Alloc.{Layout}
use taijios.Alloc.Client
use taijios.Alloc.Client.{Allocation, State, Reach}
use taijios.Alloc.LinkedList.{LinkedListAllocator, new, init, alloc, dealloc}
use taijios.Alloc.LinkedList.Request.{IsRequest}
use taijios.Alloc.LinkedList.Invariant.{IsHeap}
use taijios.Alloc.LinkedList.Global.{IsArena, init-IsHeap, linked_list}

module _ {lo size : ℕ} {self : LinkedListAllocator} (arena : IsArena lo size)
    (ready : init new lo size ≡ ok self) where
  fresh : IsHeap lo (lo + size) self []
  fresh =
      let (self', e, heap) = init-IsHeap lo size arena in
      subst (λ a. IsHeap lo (lo + size) a []) (ok_unique e ready) heap

  -- After `init` on an arena and any calls of a client that gives back only what it holds, two
  -- blocks that the client holds share no byte.
  pub linked_list-disjoint :
      {s : State linked_list}
      → Reach linked_list self s
      → (xs : List Allocation) (a : Allocation) (ys : List Allocation) (b : Allocation)
        (zs : List Allocation)
      → s.live ≡ xs ++ (a ∷ (ys ++ (b ∷ zs)))
      → (x : ℕ) → a.ptr ≤ x
      → x < a.ptr + a.layout.size
      → ¬ ((b.ptr ≤ x) × (x < b.ptr + b.layout.size))
  linked_list-disjoint r xs a ys b zs e x low high =
      Client.live-disjoint linked_list fresh r xs a ys b zs e x low high

  -- After `init` on an arena and any calls of a client that gives back only what it holds, each
  -- block that the client holds lies in the arena, at a multiple of its alignment.
  pub linked_list-Inside :
      {s : State linked_list}
      → Reach linked_list self s
      → (xs : List Allocation) (a : Allocation) (ys : List Allocation) → s.live ≡ xs ++ (a ∷ ys)
      → (lo ≤ a.ptr) × (a.ptr + a.layout.size ≤ lo + size) × (a.ptr % a.layout.align ≡ 0)
  linked_list-Inside r xs a ys e = Client.live-Inside linked_list fresh r xs a ys e

  -- After `init` on an arena and any calls of a client that gives back only what it holds, no
  -- request panics: it returns a pointer, which may be null.
  pub linked_list-alloc_ok :
      {s : State linked_list}
      → Reach linked_list self s
      → (l : Layout) → IsRequest l
      → (r : ℕ × LinkedListAllocator) × (alloc s.allocator l ≡ ok r)
  linked_list-alloc_ok r = (Client.call-ok linked_list fresh r).0

  -- After `init` on an arena and any calls of a client that gives back only what it holds, giving
  -- back a block that is held does not panic.
  pub linked_list-dealloc_ok :
      {s : State linked_list}
      → Reach linked_list self s
      → (xs : List Allocation) (a : Allocation) (ys : List Allocation) → s.live ≡ xs ++ (a ∷ ys)
      → (after : LinkedListAllocator) × (dealloc s.allocator a.ptr a.layout ≡ ok after)
  linked_list-dealloc_ok r = (Client.call-ok linked_list fresh r).1
