-- ===== src/Heap/Cycle.antt =====
-- `kmalloc` and `kfree` of src/memory/heap.c one after the other, and the blocks in use around
-- them.
use openyanase_kernel.Base.{
  ℕ, suc, ◌+◌, ◌-◌, ◌≤◌, ◌≡◌, ◌≢◌, refl, ◌&&◌, Option, none, some, List, [], ◌∷◌, leb, ltb, arith,
  Bool-cases, inl, inr, length, subst,
}
use openyanase_kernel.Heap.{Heap, kmalloc, kfree}
use openyanase_kernel.Heap.Blocks.{Blk, alloc, coalesce, release, place}
use openyanase_kernel.Heap.Alloc.{IsHeap, KmallocServes, kmalloc_first_fit}
use openyanase_kernel.Heap.Free.{Starts, kfree_coalesces}
use openyanase_kernel.Heap.Regions.{
  used, Inserts, InUse, InUse-Starts, alloc_keeps_used, free_keeps_used,
}
use openyanase_kernel.Heap.Adjacent.{Apart, coalesce-Apart, free-alloc}

-- The offset of a served request is the beginning of a block.
abbrev StartsIn : Option (ℕ × List Blk) → Type 0
StartsIn none = Unit
StartsIn (some (off, bs')) = Starts off bs'

place-Starts : (n : ℕ) (b : Blk) (bs : List Blk) → Starts 0 (place n b bs)
unfolding place
place-Starts n b bs = elim (Bool-cases (ltb (n + 16) b.size)) [
  | inl big ↦ rw big (inl refl)
  | inr whole ↦ rw whole (inl refl)
]

alloc-StartsIn : (n : ℕ) (bs : List Blk) → StartsIn (alloc n bs)
unfolding alloc
alloc-StartsIn n [] = tt
alloc-StartsIn n (b ∷ bs) = elim (Bool-cases (b.free && leb n b.size)) [
  | inl fits ↦ rw fits (place-Starts n b bs)
  | inr skip ↦ rw skip (cons (alloc n bs) (alloc-StartsIn n bs))
]
  where
    cons :
        (o : Option (ℕ × List Blk))
        → StartsIn o
        → StartsIn (elim o [ none ↦ none | some (off, bs') ↦ some (12 + b.size + off, b ∷ bs') ])
    cons none s = tt
    cons (some (off, bs')) s = inr (
      omega arith,
      subst (λ x. Starts x bs') {x = off} {y = 12 + b.size + off - (12 + b.size)} (omega arith) s,
    )

-- On a well-formed heap on which no two neighbouring blocks are free, `kfree` of what `kmalloc`
-- returned restores the blocks of the heap exactly, the split undone; both functions end.
pub kfree-kmalloc :
    (h : Heap) (n : ℕ) (bs : List Blk) {off : ℕ} {bs' : List Blk}
    → IsHeap h bs
    → Apart bs
    → alloc n bs ≡ some (off, bs')
    → (h1 : Heap) × (h2 : Heap) × (kmalloc (suc (length bs)) h n
        ≡ some (h.heap_start + off + 12, h1))
      × (kfree (suc (length bs')) h1 (h.heap_start + off + 12) ≡ some h2)
      × IsHeap h2 bs
kfree-kmalloc h n bs {off} {bs'} v apart e =
    let (h1, returns, v1, start, _) : KmallocServes h n (some (off, bs'))
        (kmalloc (suc (length bs)) h n) =
      subst (λ o. KmallocServes h n o (kmalloc (suc (length bs)) h n)) e
        (kmalloc_first_fit h n bs v) in
    let starts : StartsIn (some (off, bs')) = subst StartsIn e (alloc-StartsIn n bs) in
    let (h2, frees, v2) = kfree_coalesces h1 off bs' v1 starts in
    (
      h1,
      h2,
      returns,
      subst (λ a. kfree (suc (length bs')) h1 (a + off + 12) ≡ some h2) start frees,
      subst (IsHeap h2) (free-alloc n bs apart e) v2,
    )

-- The blocks in use of a heap that `kmalloc` has served: one more, at the returned address.
abbrev pub OneMore : Heap → ℕ → List Blk → Option (ℕ × Heap) → Type 0
OneMore h n bs none = ⊥
OneMore h n bs (some (p, h')) =
    (p ≢ 0)
    → (bs' : List Blk) × (m : ℕ) × IsHeap h' bs'
      × (n ≤ m)
      × Inserts (used h.heap_start bs) (used h'.heap_start bs') (p, m)

-- On a well-formed heap `kmalloc` ends. Where it does not return null, it leaves a well-formed
-- heap whose blocks in use are those from before, each at its address and of its size, and one
-- more: at the returned address, of at least the requested size.
pub kmalloc_keeps_used :
    (h : Heap) (n : ℕ) (bs : List Blk)
    → IsHeap h bs
    → OneMore h n bs (kmalloc (suc (length bs)) h n)
kmalloc_keeps_used h n bs v = go (alloc n bs) refl (kmalloc_first_fit h n bs v)
  where
    go :
        (o : Option (ℕ × List Blk))
        → alloc n bs ≡ o
        → KmallocServes h n o (kmalloc (suc (length bs)) h n)
        → OneMore h n bs (kmalloc (suc (length bs)) h n)
    go none e s = rw s (λ ne. absurd (ne refl))
    go (some (off, bs')) e (h1, returns, v1, start, _) = rw returns (λ ne.
        let (m, le, i) = alloc_keeps_used h.heap_start n bs e in (bs', m, v1, le, rw start i))

-- On a well-formed heap `kfree` of a block in use ends and leaves a well-formed heap on which no
-- two neighbouring blocks are free and whose blocks in use are the others from before, each at
-- its address and of its size.
pub kfree_keeps_used :
    (h : Heap) (off m : ℕ) (bs : List Blk)
    → IsHeap h bs
    → InUse off m bs
    → (h' : Heap) × (bs' : List Blk) × (kfree (suc (length bs)) h (h.heap_start + off + 12)
        ≡ some h')
      × IsHeap h' bs'
      × Apart bs'
      × Inserts (used h.heap_start bs') (used h.heap_start bs) (h.heap_start + off + 12, m)
kfree_keeps_used h off m bs v s =
    let (h', frees, v') = kfree_coalesces h off bs v (InUse-Starts off m bs s) in
    (
      h',
      coalesce (release off bs),
      frees,
      v',
      coalesce-Apart (release off bs),
      free_keeps_used h.heap_start off m bs s,
    )
