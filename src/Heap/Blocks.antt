-- ===== src/Heap/Blocks.antt =====
-- The abstract view of the heap of src/memory/heap.c: the blocks in address order, with no
-- pointers.
use openyanase_kernel.Base.{
  ℕ, ◌+◌, ◌-◌, Bool, true, false, ◌&&◌, Option, none, some, List, [], ◌∷◌, ltb, leb, ◌==◌,
  if◌then◌else◌,
}

pub record Blk : Type 0 where
  pub size : ℕ
  pub free : Bool

abbrev pub taken : ℕ → Blk
taken n = record { size = n; free = false }

abbrev pub vacant : ℕ → Blk
vacant n = record { size = n; free = true }

-- First fit: what a request of `n` bytes makes of the block that it takes.
unfoldable pub place : ℕ → Blk → List Blk → List Blk
place n b bs =
    if ltb (n + 16) b.size then taken n ∷ vacant (b.size - n - 12) ∷ bs else taken b.size ∷ bs

-- The offset of the block that is taken, and the blocks afterwards.
unfoldable pub alloc : ℕ → List Blk → Option (ℕ × List Blk)
unfolding place
alloc n [] = none
alloc n (b ∷ bs) =
    if b.free && leb n b.size
    then some (0, place n b bs)
    else elim (alloc n bs) [ none ↦ none | some (off, bs') ↦ some (12 + b.size + off, b ∷ bs') ]

-- Joining neighbours: `b` is the block in hand.
unfoldable pub merge : Blk → List Blk → List Blk
merge b [] = b ∷ []
merge b (c ∷ cs) =
    let joined = merge (vacant (b.size + (12 + c.size))) cs in
    let apart = b ∷ merge c cs in if b.free && c.free then joined else apart

unfoldable pub coalesce : List Blk → List Blk
unfolding merge
coalesce [] = []
coalesce (b ∷ bs) = merge b bs

-- The block at an offset is given back.
unfoldable pub release : ℕ → List Blk → List Blk
release off [] = []
release off (b ∷ bs) = if off == 0 then vacant b.size ∷ bs else b ∷ release (off - (12 + b.size)) bs
