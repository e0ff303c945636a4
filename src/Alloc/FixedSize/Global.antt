-- ===== src/Alloc/FixedSize/Global.antt =====
-- The fixed-size allocator is a `GlobalAlloc`, over every heap that keeps the contract.
use native.Mathlib.Nat.{pow-le-pow_right, pow-suc}
use native.Mathlib.Decide.{dec_le}
use taijios.Common.{
  ℕ, suc, ◌+◌, ◌^◌, ◌≤◌, ◌<◌, ◌≡◌, ◌⊎◌, inl, inr, refl, sym, arith, ok, Option-cases, List, [], ◌∷◌,
  ◌++◌, map, All, All-left, ap, replicate,
}
use taijios.Alloc.{Layout, null}
use taijios.Alloc.Align.{two_pow-pos}
use taijios.Alloc.Block.{count_at, count_at-append, within, within-sub}
use mathlib.Core.List.{map-append}
use mathlib.Core.Path.{subst}
use taijios.Alloc.Client.{Allocation, requested, IsGranted, GlobalAlloc}
use taijios.Alloc.LinkedList.Request.{IsRequest, mod-pow}
use taijios.Alloc.LinkedList.Global.{IsArena}
use taijios.Alloc.FixedSize.{Heap, list_index, FixedSizeBlockAllocator, new, init, alloc, dealloc}
use taijios.Alloc.FixedSize.Classes.{list_index-IsClass}
use taijios.Alloc.FixedSize.Contract.{Contract}
use taijios.Alloc.FixedSize.Lists.{backing, free_blocks}
use taijios.Alloc.FixedSize.Invariant.{backing-class, backing-large, IsFixedSize}
use taijios.Alloc.FixedSize.Serve.{refused, served, alloc-Served}
use taijios.Alloc.FixedSize.Release.{dealloc-IsFixedSize}

exponent_le : (i k : ℕ) → 2 ^ i ≤ 2 ^ k → i ≤ k
exponent_le i k h = elim (dec_le i k) [
  | yes le ↦ le
  | no gt ↦ absurd (
      omega (
        arith,
        pow-suc 2 k,
        two_pow-pos k,
        pow-le-pow_right {n = 2} (omega arith) {i = suc k} {j = i} (omega arith),
      ))
]

-- A block that backs an allocation holds it, at its alignment.
record Backs (a b : Allocation) : Type 0 where
  same : b.ptr ≡ a.ptr
  holds : a.layout.size ≤ b.layout.size
  grants : IsGranted b → IsGranted a

backing-Backs : (a : Allocation) → IsRequest a.layout → Backs a (backing a)
backing-Backs a r = elim (Option-cases (list_index a.layout)) [
  | inl e ↦
      subst (Backs a) (sym (backing-large a.layout a.ptr e))
        (record { same = refl; holds = omega arith; grants = λ g. g })
  | inr (i, e) ↦
      let c = list_index-IsClass a.layout i e in
      subst (Backs a) (sym (backing-class a.layout a.ptr i e)) (record {
        same = refl;
        holds = c.holds_size;
        grants = λ g. record {
          nonnull = g.nonnull;
          pos = r.pos;
          aligned = rw r.pow (
              mod-pow a.ptr r.log (i + 3) (exponent_le r.log (i + 3) (rw r.pow at c.holds_align))
                g.aligned);
        };
      })
]

backed-le :
    (x : ℕ) (live : List Allocation)
    → All (λ a. IsRequest a.layout) live
    → count_at x (map requested live) ≤ count_at x (map requested (map backing live))
unfolding count_at
backed-le x [] h = omega arith
backed-le x (a ∷ live) h =
    let b = backing-Backs a h.0 in
    omega (
      arith,
      backed-le x live h.1,
      within-sub (backing a).ptr a.ptr (a.ptr + a.layout.size)
          ((backing a).ptr + (backing a).layout.size) x (omega (arith, b.same))
          (omega (arith, b.same, b.holds)),
    )

backing-IsGranted :
    (live : List Allocation)
    → All (λ a. IsRequest a.layout) live
    → All IsGranted (map backing live)
    → All IsGranted live
backing-IsGranted [] r g = tt
backing-IsGranted (a ∷ live) r g =
    ((backing-Backs a r.0).grants g.0, backing-IsGranted live r.1 g.1)

module _ (H : Heap) (C : Contract H) where
  -- `init` on an arena does not panic, and sets the invariant up.
  pub init-IsFixedSize :
      (lo size : ℕ)
      → IsArena lo size
      → (self : FixedSizeBlockAllocator H) × (init H (new H) lo size ≡ ok self)
        × IsFixedSize H C lo (lo + size) self []
  unfolding init new free_blocks
  init-IsFixedSize lo size arena =
      let (heap, e, owns) = C.init_law lo size arena in
      (
        record { list_heads = replicate 9 []; fallback_allocator = heap },
        rw e refl,
        record { nine = refl; requests = tt; owns = owns },
      )

  pub alloc_law :
      {lo hi : ℕ} {self : FixedSizeBlockAllocator H} {live : List Allocation}
      → IsFixedSize H C lo hi self live
      → (l : Layout) → IsRequest l
      → ((after : FixedSizeBlockAllocator H) × (alloc H self l ≡ ok (null, after))
          × IsFixedSize H C lo hi after live)
        ⊎ ((ptr : ℕ) × (after : FixedSizeBlockAllocator H) × (alloc H self l ≡ ok (ptr, after))
            × (null < ptr)
            × IsFixedSize H C lo hi after (record { ptr = ptr; layout = l } ∷ live))
  alloc_law {lo} {hi} {self} {live} inv l r = elim (alloc-Served H C self live inv l r) [
    | refused after e kept ↦ inl (after, e, kept)
    | served ptr after e pos kept ↦ inr (ptr, after, e, pos, kept)
  ]

  pub apart_law :
      {lo hi : ℕ} {self : FixedSizeBlockAllocator H} {live : List Allocation}
      → IsFixedSize H C lo hi self live
      → (x : ℕ) → count_at x (map requested live) ≤ within lo hi x
  apart_law {lo} {hi} {self} {live} inv x =
      let free = free_blocks 0 self.list_heads in
      omega (
        arith,
        backed-le x live inv.requests,
        C.apart_law self.fallback_allocator (map backing live ++ free) inv.owns x,
        ap (count_at x) (map-append requested (map backing live) free),
        count_at-append x (map requested (map backing live)) (map requested free),
      )

  pub live-IsGranted :
      {lo hi : ℕ} {self : FixedSizeBlockAllocator H} {live : List Allocation}
      → IsFixedSize H C lo hi self live
      → All IsGranted live
  live-IsGranted {lo} {hi} {self} {live} inv = backing-IsGranted live inv.requests (
      All-left IsGranted (map backing live) (free_blocks 0 self.list_heads)
        (C.granted_law self.fallback_allocator _ inv.owns))

  abbrev pub fixed_size : GlobalAlloc
  fixed_size = record {
    Allocator = FixedSizeBlockAllocator H;
    alloc = alloc H;
    dealloc = dealloc H;
    Request = IsRequest;
    Inv = IsFixedSize H C;
    alloc_law = alloc_law;
    dealloc_law = λ self xs a ys inv. dealloc-IsFixedSize H C self xs a ys inv;
    apart_law = apart_law;
    granted_law = live-IsGranted;
  }
