-- ===== src/Heap/Regions.antt =====
-- What the allocator of src/memory/heap.c does to the blocks in use, on the abstract view of the
-- heap.
use openyanase_kernel.Base.{
  ℕ, ◌+◌, ◌-◌, ◌≤◌, ◌≡◌, refl, ap, ◌∙◌, true, false, ◌&&◌, Option, none, some, List, [], ◌∷◌, ◌++◌,
  leb, ltb, ◌==◌, if◌then◌else◌, arith, Bool-cases, ◌⊎◌, inl, inr, subst,
}
use native.Mathlib.Nat.{add_assoc, add-zero}
use openyanase_kernel.Heap.Blocks.{Blk, vacant, place, alloc, merge, coalesce, release}
use openyanase_kernel.Heap.Free.{Starts}

-- The address behind the header and the size of each block in use, if the first block is at `a`.
abbrev pub used : ℕ → List Blk → List (ℕ × ℕ)
used a [] = []
used a (b ∷ bs) =
    let rest = used (a + (12 + b.size)) bs in if b.free then rest else (a + 12, b.size) ∷ rest

-- A pair of lists that one region more stands between.
pub record Inserts (before after : List (ℕ × ℕ)) (region : ℕ × ℕ) : Type 0 where
  pub pre : List (ℕ × ℕ)
  pub post : List (ℕ × ℕ)
  pub without : before ≡ pre ++ post
  pub with_region : after ≡ pre ++ region ∷ post

alloc-hit :
    (n : ℕ) (b : Blk) (bs : List Blk)
    → (b.free && leb n b.size) ≡ true
    → alloc n (b ∷ bs) ≡ some (0, place n b bs)
unfolding alloc
alloc-hit n b bs h = rw h refl

alloc-skip :
    (n : ℕ) (b : Blk) (bs : List Blk)
    → (b.free && leb n b.size) ≡ false
    → alloc n (b ∷ bs)
      ≡ elim (alloc n bs) [ none ↦ none | some (off, bs') ↦ some (12 + b.size + off, b ∷ bs') ]
unfolding alloc
alloc-skip n b bs h = rw h refl

place-used :
    (a n : ℕ) (b : Blk) (bs : List Blk)
    → b.free ≡ true
    → n ≤ b.size
    → (m : ℕ) × (n ≤ m) × (used a (place n b bs) ≡ (a + 12, m) ∷ used (a + (12 + b.size)) bs)
unfolding place
place-used a n b bs free fits = elim (Bool-cases (ltb (n + 16) b.size)) [
  | inl big ↦ rw big (
    n,
    omega arith,
    ap (λ x. (a + 12, n) ∷ used x bs) {x = a + (12 + n) + (12 + (b.size - n - 12))}
        {y = a + (12 + b.size)} (ground arith),
  )
  | inr whole ↦ rw whole (b.size, fits, refl)
]

-- A block that is passed over keeps its place before or among the others.
Inserts-cons :
    (b : Blk) (a : ℕ) (xs ys : List Blk) (r : ℕ × ℕ)
    → Inserts (used (a + (12 + b.size)) xs) (used (a + (12 + b.size)) ys) r
    → Inserts (used a (b ∷ xs)) (used a (b ∷ ys)) r
Inserts-cons b a xs ys r i = elim (Bool-cases b.free) [
  | inl free ↦ rw free i
  | inr busy ↦ rw busy (record {
    pre = (a + 12, b.size) ∷ i.pre;
    post = i.post;
    without = ap (λ t. (a + 12, b.size) ∷ t) i.without;
    with_region = ap (λ t. (a + 12, b.size) ∷ t) i.with_region;
  })
]

-- What a served request of `n` bytes from the address `a` does to the regions in use.
abbrev Adds : ℕ → ℕ → List Blk → Option (ℕ × List Blk) → Type 0
Adds a n bs none = Unit
Adds a n bs (some (off, bs')) =
    (m : ℕ) × (n ≤ m) × Inserts (used a bs) (used a bs') (a + off + 12, m)

alloc-Adds : (a n : ℕ) (bs : List Blk) → Adds a n bs (alloc n bs)
alloc-Adds a n [] = unfold alloc in tt
alloc-Adds a n (b ∷ bs) = elim (Bool-cases (b.free && leb n b.size)) [
  | inl fits ↦ rw (alloc-hit n b bs fits) (hit fits)
  | inr skip ↦ rw (alloc-skip n b bs skip) (cons (alloc n bs) (alloc-Adds (a + (12 + b.size)) n bs))
]
  where
    hit : (b.free && leb n b.size) ≡ true → Adds a n (b ∷ bs) (some (0, place n b bs))
    hit fits =
        let free : b.free ≡ true = ground arith in
        let (m, le, e) = place-used a n b bs free (ground arith) in
        (
          m,
          le,
          record {
            pre = [];
            post = used (a + (12 + b.size)) bs;
            without = rw free refl;
            with_region = rw add-zero e;
          },
        )

    cons :
        (o : Option (ℕ × List Blk))
        → Adds (a + (12 + b.size)) n bs o
        → Adds a n
            (b ∷ bs)
            (elim o [ none ↦ none | some (off, bs') ↦ some (12 + b.size + off, b ∷ bs') ])
    cons none s = tt
    cons (some (off, bs')) (m, le, i) =
        (m, le, rw (← add_assoc a (12 + b.size) off) (Inserts-cons b a bs bs' _ i))

-- A request that first fit serves adds one region, at the returned address and of at least the
-- requested size, to the blocks in use; every other block in use keeps its address and its size.
pub alloc_keeps_used :
    (a n : ℕ) (bs : List Blk) {off : ℕ} {bs' : List Blk}
    → alloc n bs ≡ some (off, bs')
    → (m : ℕ) × (n ≤ m) × Inserts (used a bs) (used a bs') (a + off + 12, m)
alloc_keeps_used a n bs e = rw e at (alloc-Adds a n bs)

-- Joining free blocks moves no block in use.
merge-used : (a : ℕ) (b : Blk) (bs : List Blk) → used a (merge b bs) ≡ used a (b ∷ bs)
unfolding merge
merge-used a b [] = refl
merge-used a b (c ∷ cs) = elim (Bool-cases (b.free && c.free)) [
  | inl both ↦
      rw both
        (merge-used a (vacant (b.size + (12 + c.size))) cs ∙ joined (ground arith) (ground arith))
  | inr apart ↦ rw (apart, merge-used (a + (12 + b.size)) c cs) refl
]
  where
    joined :
        b.free ≡ true
        → c.free ≡ true
        → used a (vacant (b.size + (12 + c.size)) ∷ cs) ≡ used a (b ∷ c ∷ cs)
    joined f g =
        rw (f, g)
          (ap (λ x. used x cs) {x = a + (12 + (b.size + (12 + c.size)))}
            {y = a + (12 + b.size) + (12 + c.size)} (omega arith))

coalesce-used : (a : ℕ) (bs : List Blk) → used a (coalesce bs) ≡ used a bs
unfolding coalesce
coalesce-used a [] = refl
coalesce-used a (b ∷ bs) = merge-used a b bs

-- The block in use at the offset `off`, of `m` bytes.
abbrev pub InUse : ℕ → ℕ → List Blk → Type 0
InUse off m [] = ⊥
InUse off m (b ∷ bs) =
    ((off ≡ 0) × (b.free ≡ false) × (b.size ≡ m))
    ⊎ ((12 + b.size ≤ off) × InUse (off - (12 + b.size)) m bs)

pub InUse-Starts : (off m : ℕ) (bs : List Blk) → InUse off m bs → Starts off bs
InUse-Starts off m [] s = s
InUse-Starts off m (b ∷ bs) (inl s) = inl s.0
InUse-Starts off m (b ∷ bs) (inr s) = inr (s.0, InUse-Starts (off - (12 + b.size)) m bs s.1)

release-Inserts :
    (a off m : ℕ) (bs : List Blk)
    → InUse off m bs
    → Inserts (used a (release off bs)) (used a bs) (a + off + 12, m)
unfolding release
release-Inserts a off m [] s = absurd s
release-Inserts a off m (b ∷ bs) (inl (z, busy, size)) =
    rw (z, add-zero, ← size)
      (record {
        pre = [];
        post = used (a + (12 + b.size)) bs;
        without = refl;
        with_region = rw busy refl;
      })
release-Inserts a off m (b ∷ bs) (inr (le, s)) = rw later (
    Inserts-cons b a (release (off - (12 + b.size)) bs) bs (a + off + 12, m)
      (subst
        (λ x.
          Inserts (used (a + (12 + b.size)) (release (off - (12 + b.size)) bs))
            (used (a + (12 + b.size)) bs) (x + 12, m))
        {x = a + (12 + b.size) + (off - (12 + b.size))} {y = a + off} (omega arith)
        (release-Inserts (a + (12 + b.size)) (off - (12 + b.size)) m bs s)))
  where
    later : (off == 0) ≡ false
    later = ground arith

-- Giving back a block in use and joining the free blocks takes exactly that block's region out of
-- the regions in use; every other block in use keeps its address and its size.
pub free_keeps_used :
    (a off m : ℕ) (bs : List Blk)
    → InUse off m bs
    → Inserts (used a (coalesce (release off bs))) (used a bs) (a + off + 12, m)
free_keeps_used a off m bs s = rw (coalesce-used a (release off bs)) (release-Inserts a off m bs s)
