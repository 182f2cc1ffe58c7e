-- ===== src/Heap/Alloc.antt =====
-- `kmalloc` of src/memory/heap.c against the first fit of the abstract view.
use openyanase_kernel.Base.{
  ℕ, suc, ◌+◌, ◌-◌, ◌≤◌, ◌<◌, ◌^◌, ◌≡◌, refl, ap, ◌∙◌, Bool, true, false, not, ◌&&◌, Option, none,
  some, List, [], ◌∷◌, leb, ◌==◌, arith, Bool-cases, ==_refl, inl, inr, subst, length,
}
use native.Mathlib.Nat.{add_assoc, add-zero}
use openyanase_kernel.Heap.{Heap, Cells, heap_init, take_block, kmalloc_loop, kmalloc}
use openyanase_kernel.Heap.Blocks.{Blk, vacant, alloc}
use openyanase_kernel.Heap.Chain.{flag, Layout, Layout-le, take_block-below, take_block-Layout}

-- What `kmalloc` promises, by what first fit says.
abbrev pub Serves : Cells → ℕ → ℕ → ℕ → ℕ → Option (ℕ × List Blk) → Option (ℕ × Cells) → Type 0
Serves c p a e n none r = r ≡ some (0, c)
Serves c p a e n (some (off, bs')) r =
    (r ≡ some (a + off + 12, take_block c (a + off) n))
    × Layout (take_block c (a + off) n) p a e bs'
    × (a + off + 12 + n ≤ e)

kmalloc_loop-hit :
    (f : ℕ) (c : Cells) (p n : ℕ)
    → 0 < p
    → p + 12 < 2 ^ 32
    → not ((c p).free == 0) && leb n (c p).size ≡ true
    → kmalloc_loop (suc f) c p n ≡ some (p + 12, take_block c p n)
unfolding kmalloc_loop
kmalloc_loop-hit f c p n h k e = rw e (ground arith)

kmalloc_loop-skip :
    (f : ℕ) (c : Cells) (p n : ℕ)
    → 0 < p
    → not ((c p).free == 0) && leb n (c p).size ≡ false
    → kmalloc_loop (suc f) c p n ≡ kmalloc_loop f c (c p).next n
unfolding kmalloc_loop
kmalloc_loop-skip f c p n h e = rw e (ground arith)

-- The test of the loop is that of the abstract view.
test-Layout :
    (c : Cells) (p a e n : ℕ) (b : Blk) (bs : List Blk)
    → Layout c p a e (b ∷ bs)
    → (not ((c p).free == 0) && leb n (c p).size) ≡ (b.free && leb n b.size)
test-Layout c p a e n b bs l = rw (l.0, l.1, l.2) (free_test b.free)
  where
    free_test : (f : Bool) → (not (flag f == 0) && leb n b.size) ≡ (f && leb n b.size)
    free_test true = refl
    free_test false = refl

-- A block that is passed over stays in front of what the rest of the loop does.
Serves-cons :
    (c : Cells) (p a e n : ℕ) (b : Blk) (bs : List Blk) (o : Option (ℕ × List Blk))
    → (r : Option (ℕ × Cells)) → e < 2 ^ 32
    → Layout c p a e (b ∷ bs)
    → Serves c (c a).next (a + (12 + b.size)) e n o r
    → Serves c p a e n
        (elim o [ none ↦ none | some (off, bs') ↦ some (12 + b.size + off, b ∷ bs') ])
        r
Serves-cons c p a e n b bs none r small l s = s
Serves-cons c p a e n b bs (some (off, bs')) r small l s =
    subst
      (λ x.
        (r ≡ some (x + 12, take_block c x n))
        × Layout (take_block c x n) p a e (b ∷ bs')
        × (x + 12 + n ≤ e))
      (add_assoc a (12 + b.size) off) (s.0, rw below (l.0, l.1, l.2, s.1), s.2)
  where
    below : take_block c (a + (12 + b.size) + off) n a ≡ c a
    below = take_block-below c (a + (12 + b.size) + off) n a (omega arith) (omega (arith, s.2))

kmalloc_loop-Serves :
    (c : Cells) (p a e n : ℕ) (bs : List Blk)
    → 16 ≤ a
    → e < 2 ^ 32
    → Layout c p a e bs
    → Serves c p a e n (alloc n bs) (kmalloc_loop (suc (length bs)) c p n)
unfolding alloc
kmalloc_loop-Serves c p a e n [] high small l = null_lem
  where
    null_lem : kmalloc_loop 1 c p n ≡ some (0, c)
    null_lem = unfold kmalloc_loop in ground arith
kmalloc_loop-Serves c p a e n (b ∷ bs) high small l = elim (Bool-cases (b.free && leb n b.size)) [
  | inl fits ↦
      rw
        (
          fits,
          kmalloc_loop-hit (suc (length bs)) c p n pos (omega (arith, end))
              (test-Layout c p a e n b bs l ∙ fits),
        )
        (rw add-zero (
          ap (λ (q : ℕ). some (q + 12, take_block c q n)) l.0,
          rw l.0 (take_block-Layout c a e n b bs (ground arith) high small (refl, l.1, l.2, l.3)),
          ground (arith, end),
        ))
  | inr skip ↦
      rw (skip, kmalloc_loop-skip (suc (length bs)) c p n pos (test-Layout c p a e n b bs l ∙ skip))
        (Serves-cons c p a e n b bs (alloc n bs) _ small l (
          rw l.0
            (kmalloc_loop-Serves c (c a).next (a + (12 + b.size)) e n bs (omega arith) small l.3)))
]
  where
    end : a + (12 + b.size) ≤ e
    end = Layout-le c (c a).next (a + (12 + b.size)) e bs l.3

    pos : 0 < p
    pos = omega arith

-- The blocks `bs` make up the whole heap, which lies inside the address space.
pub record IsHeap (h : Heap) (bs : List Blk) : Type 0 where
  pub layout : Layout h.cells h.free_list h.heap_start (h.heap_start + h.heap_size) bs
  pub high : 16 ≤ h.heap_start
  pub small : h.heap_start + h.heap_size < 2 ^ 32

abbrev pub KmallocServes : Heap → ℕ → Option (ℕ × List Blk) → Option (ℕ × Heap) → Type 0
KmallocServes h n none r = r ≡ some (0, h)
KmallocServes h n (some (off, bs')) r =
    (h' : Heap) × (r ≡ some (h.heap_start + off + 12, h'))
    × IsHeap h' bs'
    × (h'.heap_start ≡ h.heap_start)
    × (h.heap_start + off + 12 + n ≤ h'.heap_start + h'.heap_size)

-- On a well-formed heap `kmalloc` ends within one round for each block and does what first fit
-- does on the blocks: it returns null and changes nothing where no free block is large enough;
-- else it returns the address behind the header of the first one, splits it where first fit
-- splits, keeps the heap well formed, and the bytes that it hands out lie inside the heap.
pub kmalloc_first_fit :
    (h : Heap) (n : ℕ) (bs : List Blk)
    → IsHeap h bs
    → KmallocServes h n (alloc n bs) (kmalloc (suc (length bs)) h n)
unfolding kmalloc
kmalloc_first_fit h n bs v =
    lift (alloc n bs) (kmalloc_loop (suc (length bs)) h.cells h.free_list n) (
      kmalloc_loop-Serves h.cells h.free_list h.heap_start (h.heap_start + h.heap_size) n bs v.high
        v.small v.layout)
  where
    lift :
        (o : Option (ℕ × List Blk)) (r : Option (ℕ × Cells))
        → Serves h.cells h.free_list h.heap_start (h.heap_start + h.heap_size) n o r
        → KmallocServes h n o
            (elim r [ none ↦ none | some (p, c) ↦ some (p, record h { cells = c }) ])
    lift none r s = rw s
    lift (some (off, bs')) r s = (
      record h { cells = take_block h.cells (h.heap_start + off) n },
      rw s.0,
      record { layout = s.1; high = v.high; small = v.small },
      refl,
      s.2,
    )

-- `heap_init` gives a well-formed heap of one free block, which takes the whole region.
pub heap_init-IsHeap :
    (start size : ℕ) (h : Heap)
    → 16 ≤ start
    → 12 ≤ size
    → start + size < 2 ^ 32
    → IsHeap (heap_init start size h) (vacant (size - 12) ∷ [])
unfolding heap_init
heap_init-IsHeap start size h high room small = record {
  layout = rw ==_refl (refl, omega arith, refl, (refl, omega arith));
  high = high;
  small = small;
}
