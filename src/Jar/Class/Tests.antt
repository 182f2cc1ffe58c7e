-- ===== src/Jar/Class/Tests.antt =====
-- `class_execute` of src/runtime/jar.c on a class whose `main` returns at once.
use openyanase_kernel.Base.{ℕ, ◌*◌, ◌+◌, ◌≡◌, refl, List, [], ◌∷◌, get_or, arith, some, none}
use openyanase_kernel.Initrd.{Memory, at}
use openyanase_kernel.Heap.{Heap, heap_init}
use openyanase_kernel.Heap.Blocks.{vacant}
use openyanase_kernel.Heap.Alloc.{heap_init-IsHeap}
use openyanase_kernel.Runtime.Machine.{Vm, CpEntry, other, ◌>>=◌}
use openyanase_kernel.Jar.Pool.{be16, parse_constant_pool, parse_entry}
use openyanase_kernel.Jar.Class.{Executed, find_main_at, entry_size, class_execute}
use openyanase_kernel.Jar.Class.Pooled.{Freed, enough, class_execute-Freed}

abbrev class_bytes : List ℕ
class_bytes =
    0xCA ∷ 0xFE ∷ 0xBA ∷ 0xBE ∷ 0 ∷ 0 ∷ 0 ∷ 0x34 ∷ 0 ∷ 3 ∷ 1 ∷ 0 ∷ 4 ∷ b'm' ∷ b'a' ∷ b'i' ∷ b'n' ∷ 1
    ∷ 0 ∷ 4 ∷ b'C' ∷ b'o' ∷ b'd' ∷ b'e' ∷ 0 ∷ 0x21 ∷ 0 ∷ 0 ∷ 0 ∷ 0 ∷ 0 ∷ 0 ∷ 0 ∷ 0 ∷ 0 ∷ 1 ∷ 0 ∷ 9
    ∷ 0 ∷ 1 ∷ 0 ∷ 0 ∷ 0 ∷ 1 ∷ 0 ∷ 2 ∷ 0 ∷ 0 ∷ 0 ∷ 13 ∷ 0 ∷ 0 ∷ 0 ∷ 0 ∷ 0 ∷ 0 ∷ 0 ∷ 1 ∷ 0xB1 ∷ 0 ∷ 0
    ∷ 0 ∷ 0 ∷ []

abbrev class_file : Memory
class_file q = get_or class_bytes q 0

abbrev empty : ℕ → CpEntry
empty i = other 0

-- `main` is found behind the pool of 14 bytes.
main_found :
    (do
      (len, cp) ← parse_constant_pool 3 (at class_file 10) 3 empty
      find_main_at class_file 63 cp 3 (10 + len))
    ≡ some (some (record { code_ptr = 58; code_len = 1 }))
unfolding parse_constant_pool parse_entry find_main_at
main_found = refl

-- A file that ends inside the method is given up.
main_cut :
    (do
      (len, cp) ← parse_constant_pool 3 (at class_file 10) 3 empty
      find_main_at class_file 45 cp 3 (10 + len))
    ≡ none
unfolding parse_constant_pool parse_entry find_main_at
main_cut = refl

abbrev small_heap : Heap
small_heap = heap_init 0x1000 1024 (record {
  free_list = 0;
  heap_start = 0;
  heap_size = 0;
  cells = λ q. record { size = 0; free = 0; next = 0 };
})

abbrev machine : Vm
machine = record { stack = λ i. 0; depth = 0; locals = λ i. 0; pc = 0; calls = [] }

class_execute-Freed_example :
    (e : Executed) × (h1 : Heap) × (class_execute
        (enough (be16 class_file 8 * entry_size) (vacant 1012 ∷ []) 100)
        class_file
        63
        empty
        (400, 300)
        machine
        small_heap
      ≡ some (e, h1))
    × Freed (vacant 1012 ∷ []) e h1
class_execute-Freed_example =
    class_execute-Freed class_file 63 empty (400, 300) machine small_heap (vacant 1012 ∷ []) 100
      (heap_init-IsHeap 0x1000 1024 _ (omega arith) (omega arith) (omega arith)) (refl, tt)
