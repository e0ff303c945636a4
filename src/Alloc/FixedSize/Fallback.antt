-- ===== src/Alloc/FixedSize/Fallback.antt =====
-- The linked-list allocator of this repository keeps the contract of a fallback heap.
use mathlib.Core.List.{map-append}
use taijios.Common.{
  ℕ, zero, suc, ◌<◌, ◌≡◌, ◌⊎◌, ◌∙◌, inl, inr, refl, ap, arith, ok, Option, none, some, Outcome,
  ◌>>=◌, List, ◌∷◌, ◌++◌, map, All-append, All-left, All-right,
}
use taijios.Alloc.{Layout}
use taijios.Alloc.Block.{count_at, count_at-middle}
use taijios.Alloc.Client.{Allocation}
use taijios.Alloc.LinkedList.{LinkedListAllocator}
use taijios.Alloc.LinkedList
use taijios.Alloc.LinkedList.Request.{IsRequest}
use taijios.Alloc.LinkedList.Invariant.{block_of, IsLive, IsHeap}
use taijios.Alloc.LinkedList.Global.{init-IsHeap, linked_list}
use taijios.Alloc.FixedSize.{Heap}
use taijios.Alloc.FixedSize.Contract.{Contract}

-- a null pointer is the error of `allocate_first_fit`
abbrev pub nonnull : ℕ × LinkedListAllocator → Outcome (Option ℕ × LinkedListAllocator)
nonnull (zero, heap) = ok (none, heap)
nonnull (suc n, heap) = ok (some (suc n), heap)

abbrev pub linked_heap : Heap
linked_heap = record {
  State = LinkedListAllocator;
  empty = LinkedList.new;
  init = LinkedList.init;
  allocate_first_fit = λ heap l. LinkedList.alloc heap l >>= nonnull;
  deallocate = LinkedList.dealloc;
}

nonnull-some :
    (ptr : ℕ) (heap : LinkedListAllocator) → 0 < ptr → nonnull (ptr, heap) ≡ ok (some ptr, heap)
nonnull-some zero heap h = absurd (omega arith)
nonnull-some (suc n) heap h = refl

moved :
    (xs : List Allocation) (a : Allocation) (ys : List Allocation) (x : ℕ)
    → count_at x (map block_of (xs ++ (a ∷ ys))) ≡ count_at x (map block_of (a ∷ (xs ++ ys)))
unfolding count_at
moved xs a ys x = omega (
  arith,
  ap (count_at x) (map-append block_of xs (a ∷ ys)),
  ap (count_at x) (map-append block_of xs ys),
  count_at-middle x (map block_of xs) (block_of a) (map block_of ys),
)

module _ {lo hi : ℕ} (heap : LinkedListAllocator) (xs : List Allocation) (a : Allocation)
    (ys : List Allocation) where
  -- The order of the live blocks does not matter.
  pub IsHeap-front : IsHeap lo hi heap (xs ++ (a ∷ ys)) → IsHeap lo hi heap (a ∷ (xs ++ ys))
  IsHeap-front h = record {
    nonnull = h.nonnull;
    bounded = h.bounded;
    disjoint = λ x. omega (arith, h.disjoint x, moved xs a ys x);
    nodes = h.nodes;
    served =
        let right = All-right IsLive xs (a ∷ ys) h.served in
        (right.0, All-append IsLive xs ys (All-left IsLive xs (a ∷ ys) h.served) right.1);
  }

  pub IsHeap-back : IsHeap lo hi heap (a ∷ (xs ++ ys)) → IsHeap lo hi heap (xs ++ (a ∷ ys))
  IsHeap-back h = record {
    nonnull = h.nonnull;
    bounded = h.bounded;
    disjoint = λ x. omega (arith, h.disjoint x, moved xs a ys x);
    nodes = h.nodes;
    served =
        All-append IsLive xs (a ∷ ys) (All-left IsLive xs ys h.served.1)
          (h.served.0, All-right IsLive xs ys h.served.1);
  }

pub allocated :
    {lo hi : ℕ} (heap : LinkedListAllocator) (given : List Allocation) (l : Layout)
    → IsHeap lo hi heap given
    → IsRequest l
    → ((after : LinkedListAllocator) × ((LinkedList.alloc heap l >>= nonnull) ≡ ok (none, after))
        × IsHeap lo hi after given)
      ⊎ ((ptr : ℕ) × (after : LinkedListAllocator) × ((LinkedList.alloc heap l >>= nonnull)
            ≡ ok (some ptr, after))
          × IsHeap lo hi after (record { ptr = ptr; layout = l } ∷ given))
allocated heap given l h r = elim (linked_list.alloc_law h l r) [
  | inl (after, e, kept) ↦ inl (after, ap (λ m. m >>= nonnull) e, kept)
  | inr (ptr, after, e, pos, kept) ↦
      inr (ptr, after, ap (λ m. m >>= nonnull) e ∙ nonnull-some ptr after pos, kept)
]

abbrev pub linked_contract : Contract linked_heap
linked_contract = record {
  Owns = IsHeap;
  init_law = init-IsHeap;
  allocate_law = allocated;
  deallocate_law = linked_list.dealloc_law;
  front_law = IsHeap-front;
  back_law = IsHeap-back;
  apart_law = λ heap given h x. linked_list.apart_law h x;
  granted_law = λ heap given h. linked_list.granted_law h;
}
