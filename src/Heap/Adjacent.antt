-- ===== src/Heap/Adjacent.antt =====
-- The joining of free blocks in src/memory/heap.c: no two neighbours stay free, and `kfree` undoes
-- `kmalloc`.
use openyanase_kernel.Base.{
  ℕ, ◌+◌, ◌-◌, ◌≤◌, ◌≡◌, refl, sym, ap, ◌∙◌, Bool, true, false, ◌&&◌, Option, none, some, List, [],
  ◌∷◌, leb, ltb, ◌==◌, arith, Bool-cases, inl, inr,
}
use openyanase_kernel.Heap.Blocks.{Blk, vacant, place, alloc, merge, coalesce, release}

abbrev pub first_free : List Blk → Bool
first_free [] = false
first_free (b ∷ bs) = b.free

-- No two neighbouring blocks are free.
abbrev pub Apart : List Blk → Type 0
Apart [] = Unit
Apart (b ∷ bs) = (b.free && first_free bs ≡ false) × Apart bs

first_free-merge : (b : Blk) (bs : List Blk) → first_free (merge b bs) ≡ b.free
unfolding merge
first_free-merge b [] = refl
first_free-merge b (c ∷ cs) = elim (Bool-cases (b.free && c.free)) [
  | inl both ↦ rw both (first_free-merge (vacant (b.size + (12 + c.size))) cs ∙ ground arith)
  | inr apart ↦ rw apart refl
]

merge-Apart : (b : Blk) (bs : List Blk) → Apart (merge b bs)
unfolding merge
merge-Apart b [] = (ground arith, tt)
merge-Apart b (c ∷ cs) = elim (Bool-cases (b.free && c.free)) [
  | inl both ↦ rw both (merge-Apart (vacant (b.size + (12 + c.size))) cs)
  | inr apart ↦ rw apart (rw (first_free-merge c cs) apart, merge-Apart c cs)
]

-- Whatever the blocks were before, after the loop of `kfree` no two neighbouring blocks are free.
pub coalesce-Apart : (bs : List Blk) → Apart (coalesce bs)
unfolding coalesce
coalesce-Apart [] = tt
coalesce-Apart (b ∷ bs) = merge-Apart b bs

merge_of_Apart : (b : Blk) (bs : List Blk) → Apart (b ∷ bs) → merge b bs ≡ b ∷ bs
unfolding merge
merge_of_Apart b [] h = refl
merge_of_Apart b (c ∷ cs) h = rw h.0 (rw (merge_of_Apart c cs h.1) refl)

-- In front of blocks that join to `bs`, a block that is apart from `bs` is left as it is.
merge-coalesce :
    (b : Blk) (xs bs : List Blk)
    → coalesce xs ≡ bs
    → (b.free && first_free bs) ≡ false
    → merge b xs ≡ b ∷ bs
unfolding coalesce merge
merge-coalesce b [] bs e h = ap (λ t. b ∷ t) e
merge-coalesce b (x ∷ xs) bs e h = rw (apart, e) refl
  where
    apart : (b.free && x.free) ≡ false
    apart = rw (← first_free-merge x xs, e) h

coalesce-place :
    (n : ℕ) (b : Blk) (bs : List Blk)
    → b.free ≡ true
    → n ≤ b.size
    → Apart (b ∷ bs)
    → coalesce (release 0 (place n b bs)) ≡ b ∷ bs
unfolding place release coalesce
coalesce-place n b bs free fits h = elim (Bool-cases (ltb (n + 16) b.size)) [
  | inl big ↦ rw big (
      ap (λ k. merge (vacant k) bs) {x = n + (12 + (b.size - n - 12))} {y = b.size} (ground arith)
      ∙ ap (λ k. merge k bs) same
      ∙ merge_of_Apart b bs h)
  | inr whole ↦ rw whole (ap (λ k. merge k bs) same ∙ merge_of_Apart b bs h)
]
  where
    same : vacant b.size ≡ b
    same = λ i. record { size = b.size; free = sym free i }

release-later :
    (off : ℕ) (b : Blk) (bs : List Blk) → release (12 + b.size + off) (b ∷ bs) ≡ b ∷ release off bs
unfolding release
release-later off b bs = rw later (ap (λ k. b ∷ release k bs) (omega arith))
  where
    later : (12 + b.size + off == 0) ≡ false
    later = ground arith

-- What giving back the block at the returned offset makes of the blocks after a request.
abbrev Undone : ℕ → List Blk → Option (ℕ × List Blk) → Type 0
Undone n bs none = Unit
Undone n bs (some (off, bs')) = coalesce (release off bs') ≡ bs

alloc-Undone : (n : ℕ) (bs : List Blk) → Apart bs → Undone n bs (alloc n bs)
unfolding alloc
alloc-Undone n [] h = tt
alloc-Undone n (b ∷ bs) h = elim (Bool-cases (b.free && leb n b.size)) [
  | inl fits ↦ rw fits (coalesce-place n b bs (ground arith) (ground arith) h)
  | inr skip ↦ rw skip (cons (alloc n bs) (alloc-Undone n bs h.1))
]
  where
    cons :
        (o : Option (ℕ × List Blk))
        → Undone n bs o
        → Undone n
            (b ∷ bs)
            (elim o [ none ↦ none | some (off, bs') ↦ some (12 + b.size + off, b ∷ bs') ])
    cons none s = tt
    cons (some (off, bs')) s =
        rw (release-later off b bs')
          (unfold coalesce in merge-coalesce b (release off bs') bs s h.0)

-- If no two neighbouring blocks are free, then giving back what a request was served with
-- restores the blocks exactly, the split undone.
pub free-alloc :
    (n : ℕ) (bs : List Blk) {off : ℕ} {bs' : List Blk}
    → Apart bs
    → alloc n bs ≡ some (off, bs')
    → coalesce (release off bs') ≡ bs
free-alloc n bs h e = rw e at (alloc-Undone n bs h)
