-- ===== src/Alloc/FixedSize/Release.antt =====
-- `dealloc` gives a block to its list or to the fallback heap, and what it frees is served again.
use mathlib.Core.List.{append_assoc, map-append}
use mathlib.Core.Path.{subst}
use taijios.Common.{
  ℕ, ◌+◌, ◌^◌, ◌<◌, ◌≡◌, ◌∙◌, refl, sym, ap, inl, inr, arith, ok, none, some, Option-cases, List,
  [], ◌∷◌, ◌++◌, map, All, All-append, All-left, All-right, length, length-set, get_elem?,
  get_elem?-in_range, get_elem?-set_self, set-set, set-same, set, lt→ltb, le→leb, ◌>>=◌,
}
use taijios.Alloc.{Layout}
use taijios.Alloc.Client.{Allocation}
use taijios.Alloc.LinkedList.Request.{IsRequest}
use taijios.Alloc.FixedSize.{Heap, list_index, FixedSizeBlockAllocator, alloc_block, alloc, dealloc}
use taijios.Alloc.FixedSize.Classes.{list_index-IsClass}
use taijios.Alloc.FixedSize.Contract.{Contract, put_in}
use taijios.Alloc.FixedSize.Lists.{block_at, backing, free_blocks, slot}
use taijios.Alloc.FixedSize.Invariant.{class_bounds, backing-class, backing-large, IsFixedSize}

module _ (H : Heap) (self : FixedSizeBlockAllocator H) (ptr : ℕ) (l : Layout) where
  dealloc-large :
      (heap : H.State)
      → list_index l ≡ none
      → 0 < ptr
      → H.deallocate self.fallback_allocator ptr l ≡ ok heap
      → dealloc H self ptr l ≡ ok (record self { fallback_allocator = heap })
  unfolding dealloc
  dealloc-large heap e pos given = rw (e, dealloc, lt→ltb 0 ptr pos, given) refl

  dealloc-class :
      (i : ℕ) (next : List ℕ)
      → list_index l ≡ some i
      → get_elem? self.list_heads i ≡ some next
      → dealloc H self ptr l ≡ ok (record self { list_heads = set self.list_heads i (ptr ∷ next) })
  unfolding dealloc
  dealloc-class i next e f =
      let c = list_index-IsClass l i e in
      rw (e, dealloc, f, c.at, le→leb 8 (2 ^ (i + 3)) (class_bounds i c.low).0) refl

  alloc-list :
      (i node : ℕ) (next : List ℕ)
      → list_index l ≡ some i
      → get_elem? self.list_heads i ≡ some (node ∷ next)
      → alloc H self l ≡ ok (node, record self { list_heads = set self.list_heads i next })
  unfolding alloc alloc_block
  alloc-list i node next e f = rw (e, alloc, f) refl

module _ (H : Heap) (C : Contract H) where
  module _ {lo hi : ℕ} (self : FixedSizeBlockAllocator H) (xs : List Allocation) (a : Allocation)
      (ys : List Allocation) (inv : IsFixedSize H C lo hi self (xs ++ (a ∷ ys))) where
    requests_left : All (λ b. IsRequest b.layout) (xs ++ ys)
    requests_left =
        All-append (λ b. IsRequest b.layout) xs ys
          (All-left (λ b. IsRequest b.layout) xs (a ∷ ys) inv.requests)
          (All-right (λ b. IsRequest b.layout) xs (a ∷ ys) inv.requests).1

    held :
        (free : List Allocation)
        → map backing (xs ++ (a ∷ ys)) ++ free
          ≡ map backing xs ++ (backing a ∷ (map backing ys ++ free))
    held free =
        ap (λ l. l ++ free) (map-append backing xs (a ∷ ys))
        ∙ append_assoc (map backing xs) (backing a ∷ map backing ys) free

    left :
        (free : List Allocation)
        → map backing xs ++ (map backing ys ++ free) ≡ map backing (xs ++ ys) ++ free
    left free = sym (
        ap (λ l. l ++ free) (map-append backing xs ys)
        ∙ append_assoc (map backing xs) (map backing ys) free)

    front :
        C.Owns lo hi self.fallback_allocator
          (backing a ∷ (map backing (xs ++ ys) ++ free_blocks 0 self.list_heads))
    front =
        subst (λ l. C.Owns lo hi self.fallback_allocator (backing a ∷ l))
          (left (free_blocks 0 self.list_heads))
          (C.front_law self.fallback_allocator (map backing xs) (backing a)
            (map backing ys ++ free_blocks 0 self.list_heads)
            (subst (C.Owns lo hi self.fallback_allocator) (held (free_blocks 0 self.list_heads))
              inv.owns))

    to_fallback :
        list_index a.layout ≡ none
        → (after : FixedSizeBlockAllocator H) × (dealloc H self a.ptr a.layout ≡ ok after)
          × IsFixedSize H C lo hi after (xs ++ ys)
    to_fallback e =
        let own =
          subst
            (λ b.
              C.Owns lo hi self.fallback_allocator
                (b ∷ (map backing (xs ++ ys) ++ free_blocks 0 self.list_heads)))
            (backing-large a.layout a.ptr e) front in
        let (heap, given, owns) =
          C.deallocate_law self.fallback_allocator [] a
            (map backing (xs ++ ys) ++ free_blocks 0 self.list_heads) own in
        (
          record self { fallback_allocator = heap },
          dealloc-large H self a.ptr a.layout heap e
              (C.granted_law self.fallback_allocator _ own).0.nonnull given,
          record { nine = inv.nine; requests = requests_left; owns = owns },
        )

    to_list :
        (i : ℕ) (next : List ℕ)
        → list_index a.layout ≡ some i
        → get_elem? self.list_heads i ≡ some next
        → (after : FixedSizeBlockAllocator H) × (dealloc H self a.ptr a.layout ≡ ok after)
          × IsFixedSize H C lo hi after (xs ++ ys)
    to_list i next e f =
        let c = list_index-IsClass a.layout i e in
        let s = slot 0 i i self.list_heads next (omega arith) f in
        let own = rw (backing-class a.layout a.ptr i e, s.whole) at front in
        (
          record self { list_heads = set self.list_heads i (a.ptr ∷ next) },
          dealloc-class H self a.ptr a.layout i next e f,
          record {
            nine = length-set self.list_heads i (a.ptr ∷ next) ∙ inv.nine;
            requests = requests_left;
            owns =
                subst (λ l. C.Owns lo hi self.fallback_allocator (map backing (xs ++ ys) ++ l))
                  (sym (s.exchanged (a.ptr ∷ next)))
                  (put_in H C self.fallback_allocator (map backing (xs ++ ys)) s.before
                    (block_at i a.ptr) (map (block_at i) next ++ s.behind) own);
          },
        )

    pub dealloc-IsFixedSize :
        (after : FixedSizeBlockAllocator H) × (dealloc H self a.ptr a.layout ≡ ok after)
        × IsFixedSize H C lo hi after (xs ++ ys)
    dealloc-IsFixedSize = elim (Option-cases (list_index a.layout)) [
      | inl e ↦ to_fallback e
      | inr (i, e) ↦
          let (next, f) =
            get_elem?-in_range self.list_heads i
              (omega (arith, inv.nine, (list_index-IsClass a.layout i e).low)) in
          to_list i next e f
    ]

-- A freed block is the next one of its size: a request of the same size is served with it, and the
-- allocator is then as before both calls.
pub dealloc-alloc_class :
    (H : Heap) (C : Contract H) {lo hi : ℕ} (self : FixedSizeBlockAllocator H)
    (live : List Allocation) (l l' : Layout) (ptr i : ℕ)
    → IsFixedSize H C lo hi self live
    → list_index l ≡ some i
    → list_index l' ≡ some i
    → (dealloc H self ptr l >>= λ after. alloc H after l') ≡ ok (ptr, self)
dealloc-alloc_class H C self live l l' ptr i inv e e' =
    let low : i < length self.list_heads =
      omega (arith, inv.nine, (list_index-IsClass l i e).low) in
    let (next, f) = get_elem?-in_range self.list_heads i low in
    let freed : FixedSizeBlockAllocator H = record self {
      list_heads = set self.list_heads i (ptr ∷ next);
    } in
    rw (dealloc-class H self ptr l i next e f) (
      alloc-list H freed ptr l' i ptr next e'
        (get_elem?-set_self self.list_heads i (ptr ∷ next) low)
      ∙ ap (λ heads. ok (ptr, record self { list_heads = heads }))
          (set-set self.list_heads i (ptr ∷ next) next ∙ set-same self.list_heads i next f))
