-- ===== src/Heap/Tests.antt =====
-- The heap of src/memory/heap.c at concrete requests.
use openyanase_kernel.Base.{◌*◌, ◌==◌, if◌then◌else◌, ◌≡◌, refl, some, List, [], ◌∷◌, arith}
use mathlib.Core.Option
use openyanase_kernel.Heap.{Heap, heap_init, kmalloc, kfree}
use openyanase_kernel.Heap.Blocks.{Blk, taken, vacant, alloc, coalesce, release}
use openyanase_kernel.Heap.Alloc.{IsHeap, KmallocServes, kmalloc_first_fit, heap_init-IsHeap}
use openyanase_kernel.Heap.Free.{kfree_coalesces}
use openyanase_kernel.Heap.Cycle.{kfree-kmalloc}

abbrev blank : Heap
blank = record {
  free_list = 0;
  heap_start = 0;
  heap_size = 0;
  cells = λ q. record { size = 0; free = 0; next = 0 };
}

-- The heap of `kernel_main`.
abbrev boot : Heap
boot = heap_init 0x1000000 (4 * 1024 * 1024) blank

boot-IsHeap : IsHeap boot (vacant 4194292 ∷ [])
boot-IsHeap = heap_init-IsHeap 0x1000000 4194304 _ (omega arith) (omega arith) (omega arith)

boot_serves :
    KmallocServes boot 100 (some (0, taken 100 ∷ vacant 4194180 ∷ [])) (kmalloc 2 boot 100)
unfolding alloc heap_init
boot_serves = kmalloc_first_fit boot 100 (vacant 4194292 ∷ []) boot-IsHeap

boot_address : Option.map (λ r. r.0) (kmalloc 2 boot 100) ≡ some 0x100000c
unfolding kmalloc heap_init
boot_address = refl

-- A block in use, a free one and another in use.
abbrev mixed : Heap
mixed = record {
  free_list = 4096;
  heap_start = 4096;
  heap_size = 164;
  cells = λ q.
      if q == 4096
      then record { size = 100; free = 0; next = 4208 }
      else (if q == 4208
          then record { size = 20; free = 1; next = 4240 }
          else record { size = 8; free = 0; next = 0 });
}

abbrev mixed_blocks : List Blk
mixed_blocks = taken 100 ∷ vacant 20 ∷ taken 8 ∷ []

mixed-IsHeap : IsHeap mixed mixed_blocks
mixed-IsHeap = record { layout = omega arith; high = omega arith; small = omega arith }

mixed_free : (h' : Heap) × (kfree 4 mixed 4252 ≡ some h') × IsHeap h' (taken 100 ∷ vacant 40 ∷ [])
unfolding coalesce release
mixed_free = kfree_coalesces mixed 144 mixed_blocks mixed-IsHeap (omega arith)

mixed_undone :
    (h1 : Heap) × (h2 : Heap) × (kmalloc 4 mixed 18 ≡ some (4220, h1))
    × (kfree 4 h1 4220 ≡ some h2)
    × IsHeap h2 mixed_blocks
mixed_undone =
    kfree-kmalloc mixed 18 mixed_blocks {off = 112} {bs' = taken 100 ∷ taken 20 ∷ taken 8 ∷ []}
      mixed-IsHeap (refl, (refl, (refl, tt))) (unfold alloc in refl)
