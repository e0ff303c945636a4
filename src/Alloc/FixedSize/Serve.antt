-- ===== src/Alloc/FixedSize/Serve.antt =====
-- `alloc` serves a request from its list or from the fallback heap, and keeps the invariant.
use mathlib.Core.Path.{subst}
use taijios.Common.{
  ℕ, ◌+◌, ◌^◌, ◌<◌, ◌≡◌, ◌∙◌, refl, sym, inl, inr, arith, ok, none, some, Option-cases, List, [],
  ◌∷◌, ◌++◌, map, length-set, get_elem?, get_elem?-in_range, set,
}
use taijios.Alloc.{Layout, null}
use taijios.Alloc.Align.{from_size_align-some}
use taijios.Alloc.Client.{Allocation}
use taijios.Alloc.LinkedList.Request.{IsRequest}
use taijios.Alloc.FixedSize.{
  Heap, list_index, FixedSizeBlockAllocator, fallback_alloc, alloc_block, alloc,
}
use taijios.Alloc.FixedSize.Classes.{IsClass, list_index-IsClass}
use taijios.Alloc.FixedSize.Contract.{Contract, take_out}
use taijios.Alloc.FixedSize.Lists.{class_layout, block_at, backing, free_blocks, slot}
use taijios.Alloc.FixedSize.Invariant.{
  class_bounds, class_layout-IsRequest, backing-class, backing-large, IsFixedSize,
}

module _ (H : Heap) (C : Contract H) where
  -- What a call of `alloc` leaves behind.
  pub data Served (lo hi : ℕ) (self : FixedSizeBlockAllocator H) (l : Layout)
      (live : List Allocation) : Type 0 where
    refused :
        (after : FixedSizeBlockAllocator H)
        → alloc H self l ≡ ok (null, after)
        → IsFixedSize H C lo hi after live
        → Served lo hi self l live
    served :
        (ptr : ℕ) (after : FixedSizeBlockAllocator H)
        → alloc H self l ≡ ok (ptr, after)
        → null < ptr
        → IsFixedSize H C lo hi after (record { ptr = ptr; layout = l } ∷ live)
        → Served lo hi self l live

  module _ {lo hi : ℕ} (self : FixedSizeBlockAllocator H) (live : List Allocation)
      (inv : IsFixedSize H C lo hi self live) (l : Layout) (r : IsRequest l) where
    alloc-large : list_index l ≡ none → alloc H self l ≡ fallback_alloc H self l
    unfolding alloc
    alloc-large e = rw (e, alloc) refl

    alloc-class :
        (i : ℕ) (head : List ℕ)
        → list_index l ≡ some i
        → get_elem? self.list_heads i ≡ some head
        → alloc H self l ≡ alloc_block H self i head
    unfolding alloc
    alloc-class i head e f = rw (e, f, alloc) refl

    alloc_block-new :
        (i : ℕ) → IsClass l i → alloc_block H self i [] ≡ fallback_alloc H self (class_layout i)
    unfolding alloc_block
    alloc_block-new i c =
        let (low, high) = class_bounds i c.low in
        rw (c.at, from_size_align-some (2 ^ (i + 3)) (i + 3) (omega (arith, c.low)) (omega arith))
          refl

    -- A request that goes to the fallback heap, for the block that backs it.
    from_fallback :
        (block_layout : Layout)
        → alloc H self l ≡ fallback_alloc H self block_layout
        → IsRequest block_layout
        → ((ptr : ℕ)
            → backing (record { ptr = ptr; layout = l })
              ≡ record { ptr = ptr; layout = block_layout })
        → Served lo hi self l live
    unfolding fallback_alloc
    from_fallback block_layout e req backs =
        elim (C.allocate_law self.fallback_allocator _ block_layout inv.owns req) [
          | inl (heap, given, owns) ↦
              refused (record self { fallback_allocator = heap }) (e ∙ rw given refl)
                (record { nine = inv.nine; requests = inv.requests; owns = owns })
          | inr (ptr, heap, given, owns) ↦
              served ptr (record self { fallback_allocator = heap }) (e ∙ rw given refl)
                (C.granted_law heap _ owns).0.nonnull
                (record {
                  nine = inv.nine;
                  requests = (r, inv.requests);
                  owns = rw (backs ptr) owns;
                })
        ]

    -- A request that takes the first block of its list.
    from_list :
        (i node : ℕ) (next : List ℕ)
        → list_index l ≡ some i
        → get_elem? self.list_heads i ≡ some (node ∷ next)
        → Served lo hi self l live
    unfolding alloc_block
    from_list i node next e f =
        let s = slot 0 i i self.list_heads (node ∷ next) (omega arith) f in
        let c = list_index-IsClass l i e in
        let after : FixedSizeBlockAllocator H = record self {
          list_heads = set self.list_heads i next;
        } in
        let owned : C.Owns lo hi self.fallback_allocator
            (block_at i node ∷ (map backing live ++ free_blocks 0 (set self.list_heads i next))) =
          subst
            (λ l. C.Owns lo hi self.fallback_allocator (block_at i node ∷ (map backing live ++ l)))
            (sym (s.exchanged next))
            (take_out H C self.fallback_allocator (map backing live) s.before (block_at i node)
              (map (block_at i) next ++ s.behind)
              (subst (λ l. C.Owns lo hi self.fallback_allocator (map backing live ++ l)) s.whole
                inv.owns)) in
        served node after (alloc-class i (node ∷ next) e f)
          (C.granted_law self.fallback_allocator _ owned).0.nonnull
          (record {
            nine = length-set self.list_heads i next ∙ inv.nine;
            requests = (r, inv.requests);
            owns = rw (backing-class l node i e) owned;
          })

    from_class :
        (i : ℕ) (head : List ℕ)
        → list_index l ≡ some i
        → get_elem? self.list_heads i ≡ some head
        → Served lo hi self l live
    from_class i [] e f =
        let c = list_index-IsClass l i e in
        from_fallback (class_layout i) (alloc-class i [] e f ∙ alloc_block-new i c)
          (class_layout-IsRequest i c.low) (λ ptr. backing-class l ptr i e)
    from_class i (node ∷ next) e f = from_list i node next e f

    pub alloc-Served : Served lo hi self l live
    alloc-Served = elim (Option-cases (list_index l)) [
      | inl e ↦ from_fallback l (alloc-large e) r (λ ptr. backing-large l ptr e)
      | inr (i, e) ↦
          let (head, f) =
            get_elem?-in_range self.list_heads i
              (omega (arith, inv.nine, (list_index-IsClass l i e).low)) in
          from_class i head e f
    ]
