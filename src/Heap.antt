-- ===== src/Heap.antt =====
-- src/memory/heap.c: the block allocator of the kernel, on a store of block headers.
pub mod Blocks
pub mod Chain
pub mod Alloc
pub mod Free
pub mod Regions
pub mod Adjacent
pub mod Cycle
mod Tests
use openyanase_kernel.Base.{
  ℕ, zero, suc, ◌+◌, ◌-◌, Bool, true, false, not, ◌&&◌, ◌||◌, Option, none, some, ltb, leb, ◌==◌,
  if◌then◌else◌, update, add32, sub32, u32,
}

-- `block_t`; `next` is an address, 0 for the null pointer.
pub record Block : Type 0 where
  pub size : ℕ
  pub free : ℕ
  pub next : ℕ

-- The block headers by their addresses. Headers at two addresses of a chain do not overlap.
abbrev pub Cells : Type 0
Cells = ℕ → Block

-- `sizeof(block_t)`
abbrev pub header : ℕ
header = 12

-- The file's static variables and the memory that they lead to.
pub record Heap : Type 0 where
  pub free_list : ℕ
  pub heap_start : ℕ
  pub heap_size : ℕ
  pub cells : Cells

unfoldable pub heap_init : ℕ → ℕ → Heap → Heap
heap_init start_addr size h = record {
  free_list = start_addr;
  heap_start = start_addr;
  heap_size = size;
  cells = update h.cells start_addr (record { size = sub32 size header; free = 1; next = 0 });
}

-- The body of the `if`: split the block at `curr` where it is large enough, and mark it as taken.
unfoldable pub split : Cells → ℕ → ℕ → Cells
split c curr size =
    if ltb (add32 (add32 size header) 4) (c curr).size
    then (let new_block = add32 (add32 curr header) size in
        let c1 = update c new_block (record {
          size = sub32 (sub32 (c curr).size size) header;
          free = 1;
          next = (c curr).next;
        }) in
        update c1 curr (record (c1 curr) { size = size; next = new_block }))
    else c

unfoldable pub take_block : Cells → ℕ → ℕ → Cells
unfolding split
take_block c curr size =
    let c1 = split c curr size in update c1 curr (record (c1 curr) { free = 0 })

-- The loop of `kmalloc` from `curr`, with fuel; `none` means that the fuel ran out. It returns the
-- pointer, 0 where no block is large enough.
unfoldable pub kmalloc_loop : ℕ → Cells → ℕ → ℕ → Option (ℕ × Cells)
unfolding take_block
kmalloc_loop zero c curr size = none
kmalloc_loop (suc fuel) c curr size =
    let rest = kmalloc_loop fuel c (c curr).next size in
    if curr == 0
    then some (0, c)
    else (if not ((c curr).free == 0) && leb size (c curr).size
        then some (add32 curr header, take_block c curr size)
        else rest)

unfoldable pub kmalloc : ℕ → Heap → ℕ → Option (ℕ × Heap)
unfolding kmalloc_loop
kmalloc fuel h size = elim (kmalloc_loop fuel h.cells h.free_list size) [
  | none ↦ none
  | some (p, c) ↦ some (p, record h { cells = c })
]

-- The loop of `kfree` that joins neighbouring free blocks.
unfoldable pub coalesce_loop : ℕ → Cells → ℕ → Option Cells
coalesce_loop zero c curr = none
coalesce_loop (suc fuel) c curr =
    let next = (c curr).next in
    let joined =
      coalesce_loop fuel
        (update c curr (record (c curr) {
          size = add32 (c curr).size (add32 header (c next).size);
          next = (c next).next;
        }))
        curr in
    let skipped = coalesce_loop fuel c next in
    if (curr == 0) || (next == 0)
    then some c
    else (if not ((c curr).free == 0) && not ((c next).free == 0) then joined else skipped)

unfoldable pub kfree : ℕ → Heap → ℕ → Option Heap
unfolding coalesce_loop
kfree fuel h ptr =
    if ptr == 0
    then some h
    else (let block = sub32 ptr header in
        let c = update h.cells block (record (h.cells block) { free = 1 }) in
        elim (coalesce_loop fuel c h.free_list) [
          | none ↦ none
          | some c' ↦ some (record h { cells = c' })
        ])
