-- ===== src/Alloc/LinkedList/Serve.antt =====
-- `alloc` keeps the invariant, and what it hands out.
use mathlib.Core.Path.{subst}
use Prim.Native.Nat.{◌-◌}
use taijios.Alloc.Block.{total_size, total_size-middle}
use taijios.Common.{
  ℕ, ◌+◌, ◌%◌, ◌^◌, ◌≤◌, ◌<◌, ◌≡◌, refl, ap, sym, ◌∙◌, arith, none, some, ok, List, ◌∷◌, ◌++◌, map,
  All, All-append, All-and, All-left, All-right, All-map,
}
use taijios.Alloc.{Layout, null, round_up}
use taijios.Alloc.Align.{round_up_bounds, round_up-mod}
use taijios.Alloc.Block.{Block, block, within, count_at, count_at-middle, Inside}
use taijios.Alloc.LinkedList.{
  LinkedListAllocator, ListNode, allocate_in, find_from, Found, alloc, find_region,
}
use taijios.Alloc.LinkedList.Request.{IsRequest, adjust, block_size, block_align, mod-pow}
use taijios.Alloc.LinkedList.Region.{Fits}
use taijios.Alloc.LinkedList.Search.{Unfit, FirstFit, missing, hit, find_from-FirstFit}
use taijios.Alloc.Client.{Allocation}
use taijios.Alloc.LinkedList.Invariant.{block_of, IsNode, IsHeap, nodes-Inside}
use taijios.Alloc.LinkedList.Carve.{
  put_back, Place, allocate_in-ok, put_back-count, put_back-total, put_back-IsNode,
}

-- What a successful allocation gives the client.
pub record Served (lo hi : ℕ) (live : List Allocation) (l : Layout) (ptr : ℕ)
    (after : LinkedListAllocator) : Type 0 where
  pub heap : IsHeap lo hi after (record { ptr = ptr; layout = l } ∷ live)
  pub nonnull : null < ptr
  pub aligned : ptr % l.align ≡ 0
  pub inside : (lo ≤ ptr) × (ptr + l.size ≤ hi)

-- Where it was found: in the first region that suits, at its first aligned address. The bytes in
-- front of that address are in no region any more.
pub record FirstServed (self : LinkedListAllocator) (l : Layout) (ptr : ℕ)
    (after : LinkedListAllocator) : Type 0 where
  pub before : List ListNode
  pub region : ListNode
  pub behind : List ListNode
  pub regions : self.next ≡ before ++ (region ∷ behind)
  pub unfit : All (Unfit (block_size l) (block_align l)) before
  pub first : ptr ≡ round_up region.addr (block_align l)
  pub bytes : total_size after.next + block_size l + (ptr - region.addr) ≡ total_size self.next

-- How an allocation ends: out of memory with the allocator unchanged, or served.
pub data Allocated (lo hi : ℕ) (self : LinkedListAllocator) (live : List Allocation) (l : Layout)
    : Type 0 where
  exhausted :
      alloc self l ≡ ok (null, self)
      → All (Unfit (block_size l) (block_align l)) self.next
      → Allocated lo hi self live l
  served :
      (ptr : ℕ) (after : LinkedListAllocator)
      → alloc self l ≡ ok (ptr, after)
      → Served lo hi live l ptr after
      → FirstServed self l ptr after
      → Allocated lo hi self live l

-- The first aligned address of a region.
first_aligned :
    (l : Layout) (r : IsRequest l) (addr : ℕ)
    → (addr ≤ round_up addr (block_align l))
      × (round_up addr (block_align l) % 2 ^ (adjust l r).exp ≡ 0)
first_aligned l r addr =
    let adj = adjust l r in
    rw adj.align ((round_up_bounds adj.exp addr).0, round_up-mod adj.exp addr)

block_aligned :
    (l : Layout) (r : IsRequest l) (addr : ℕ) → round_up addr (block_align l) % block_align l ≡ 0
block_aligned l r addr =
    let adj = adjust l r in
    subst (λ a. round_up addr a % a ≡ 0) (sym adj.align) (round_up-mod adj.exp addr)

Fits-Place :
    {lo hi : ℕ} (l : Layout) (r : IsRequest l) (region : ListNode)
    → Fits region (block_size l) (block_align l)
    → Inside lo hi region
    → Place lo hi region (round_up region.addr (block_align l)) (block_size l)
Fits-Place l r region fits inside = record {
  inside = inside;
  after = (first_aligned l r region.addr).0;
  aligned = mod-pow _ 3 (adjust l r).exp (adjust l r).exp_ge (first_aligned l r region.addr).1;
  whole = (adjust l r).whole;
  large = (adjust l r).holds_node;
  fits = fits.inside;
  left = fits.left;
}

put_back-disjoint :
    {lo hi : ℕ} (bounded : hi ≤ 2 ^ 63) (before : List ListNode) (region : ListNode)
    (behind : List ListNode) (start size : ℕ) (held : List Block)
    → Place lo hi region start size
    → ((x : ℕ) → count_at x (before ++ (region ∷ behind)) + count_at x held ≤ within lo hi x)
    → (x : ℕ)
    → count_at x (put_back (before ++ behind) region start size)
        + count_at x (block start size ∷ held)
      ≤ within lo hi x
unfolding count_at
put_back-disjoint {lo} {hi} bounded before region behind start size held place h x = omega (
  arith,
  h x,
  count_at-middle x before region behind,
  put_back-count lo hi bounded (record { next = before ++ behind }) region start size place x,
)

module _ {lo hi : ℕ} {self : LinkedListAllocator} {live : List Allocation}
    (heap : IsHeap lo hi self live) (l : Layout) (r : IsRequest l) where
  abbrev exp : ℕ
  exp = (adjust l r).exp

  searched :
      (found : Found) × (find_from self.next (block_size l) (block_align l) ≡ ok found)
      × FirstFit (block_size l) (block_align l) self.next found
  searched =
      let small : 2 ^ exp ≤ 2 ^ 63 = omega (arith, r.fits, (adjust l r).align) in
      subst
        (λ a.
          (found : Found) × (find_from self.next (block_size l) a ≡ ok found)
          × FirstFit (block_size l) a self.next found)
        (sym (adjust l r).align)
        (find_from-FirstFit (block_size l) exp (adjust l r).exp_lt self.next (
          All-map (λ node. IsNode node × Inside lo hi node)
            (λ node h. (
              omega (arith, h.0.holds, h.1, small, heap.bounded),
              omega (arith, h.1, heap.bounded),
            ))
            self.next (All-and IsNode (Inside lo hi) self.next heap.nodes (nodes-Inside heap))))

  Served-put_back :
      (before : List ListNode) (region : ListNode) (behind : List ListNode)
      → self.next ≡ before ++ (region ∷ behind)
      → All (Unfit (block_size l) (block_align l)) before
      → Fits region (block_size l) (block_align l)
      → (after : LinkedListAllocator) × (allocate_in
            (record { next = before ++ behind })
            region
            (round_up region.addr (block_align l))
            (block_size l)
          ≡ ok (round_up region.addr (block_align l), after))
        × Served lo hi live l (round_up region.addr (block_align l)) after
        × FirstServed self l (round_up region.addr (block_align l)) after
  Served-put_back before region behind e unfit fits =
      let adj = adjust l r in
      let parts : All (Inside lo hi) (before ++ (region ∷ behind)) =
        subst (All (Inside lo hi)) e (nodes-Inside heap) in
      let nodes : All IsNode (before ++ (region ∷ behind)) = subst (All IsNode) e heap.nodes in
      let start = round_up region.addr (block_align l) in
      let inside : Inside lo hi region = (All-right (Inside lo hi) before _ parts).0 in
      let place : Place lo hi region start (block_size l) = Fits-Place l r region fits inside in
      let aligned = first_aligned l r region.addr in
      let rest : LinkedListAllocator = record { next = before ++ behind } in
      (
        _,
        allocate_in-ok lo hi heap.bounded rest region start (block_size l) place,
        record {
          heap = record {
            nonnull = heap.nonnull;
            bounded = heap.bounded;
            disjoint =
                put_back-disjoint heap.bounded before region behind start (block_size l)
                  (map block_of live) place
                  (subst
                    (λ xs.
                      (x : ℕ) → count_at x xs + count_at x (map block_of live) ≤ within lo hi x)
                    e heap.disjoint);
            nodes = put_back-IsNode lo hi heap.bounded rest region start (block_size l) place (
                All-append IsNode before behind (All-left IsNode before _ nodes)
                  (All-right IsNode before _ nodes).1);
            served = (
              record {
                request = r;
                nonnull = omega (arith, aligned, inside, heap.nonnull);
                aligned = block_aligned l r region.addr;
              },
              heap.served,
            );
          };
          nonnull = omega (arith, aligned, inside, heap.nonnull);
          aligned = adj.divides start aligned.1;
          inside = (omega (arith, aligned, inside), omega (arith, adj.enough, fits.inside, inside));
        },
        record {
          before = before;
          region = region;
          behind = behind;
          regions = e;
          unfit = unfit;
          first = refl;
          bytes = omega (
            arith,
            put_back-total lo hi heap.bounded rest region start (block_size l) place,
            total_size-middle before region behind,
            ap total_size e,
          );
        },
      )

  -- With a request, which is a layout that stays one at the alignment of a node, an allocation does
  -- not panic.
  pub alloc-Allocated : Allocated lo hi self live l
  unfolding alloc find_region
  alloc-Allocated = go searched
    where
      go :
          (found : Found) × (find_from self.next (block_size l) (block_align l) ≡ ok found)
            × FirstFit (block_size l) (block_align l) self.next found
          → Allocated lo hi self live l
      go (found, e, missing all f) =
          let none_found : find_from self.next (block_size l) (block_align l)
              ≡ ok (none, self.next) =
            e ∙ ap ok f in
          exhausted (rw ((adjust l r).result, none_found) refl) all
      go (found, e, hit before region behind f all fits g) =
          let (after, ran, good, from) = Served-put_back before region behind f all fits in
          let one_found : find_from self.next (block_size l) (block_align l)
              ≡ ok (some (region, round_up region.addr (block_align l)), before ++ behind) =
            e ∙ ap ok g in
          served _ after (rw ((adjust l r).result, one_found) ran) good from
