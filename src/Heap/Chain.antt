-- ===== src/Heap/Chain.antt =====
-- How the linked block headers of src/memory/heap.c represent the blocks of the heap.
use openyanase_kernel.Base.{
  ℕ, ◌+◌, ◌-◌, ◌≤◌, ◌<◌, ◌^◌, ◌≡◌, refl, ap, Bool, true, false, List, [], ◌∷◌, ltb, ◌==◌,
  if◌then◌else◌, arith, Bool-cases, inl, inr, ltb→lt, ltb→ge, subst,
}
use openyanase_kernel.Heap.{Cells, take_block}
use openyanase_kernel.Heap.Blocks.{Blk, taken, vacant, place}

abbrev pub flag : Bool → ℕ
flag true = 1
flag false = 0

-- From the pointer `p`, the headers describe the blocks `bs`, which fill the bytes from `a` up to
-- `e` with no gap: each block begins where the one before it ends.
abbrev pub Layout : Cells → ℕ → ℕ → ℕ → List Blk → Type 0
Layout c p a e [] = (p ≡ 0) × (a ≡ e)
Layout c p a e (b ∷ bs) =
    (p ≡ a)
    × ((c a).size ≡ b.size)
    × ((c a).free ≡ flag b.free)
    × Layout c (c a).next (a + (12 + b.size)) e bs

pub Layout-le : (c : Cells) (p a e : ℕ) (bs : List Blk) → Layout c p a e bs → a ≤ e
Layout-le c p a e [] l = omega arith
Layout-le c p a e (b ∷ bs) l = omega (arith, Layout-le c (c a).next (a + (12 + b.size)) e bs l.3)

-- Headers below the first one play no part.
pub Layout-ext :
    (c c' : Cells) (p a e : ℕ) (bs : List Blk)
    → ((q : ℕ) → a ≤ q → c' q ≡ c q)
    → Layout c p a e bs
    → Layout c' p a e bs
Layout-ext c c' p a e [] same l = l
Layout-ext c c' p a e (b ∷ bs) same l = rw (same a (omega arith)) (
  l.0,
  l.1,
  l.2,
  Layout-ext c c' (c a).next (a + (12 + b.size)) e bs (λ q h. same q (omega arith)) l.3,
)

-- Taking a block writes no header below it.
pub take_block-below :
    (c : Cells) (x n q : ℕ) → q < x → x + 12 + n < 2 ^ 32 → take_block c x n q ≡ c q
unfolding take_block
take_block-below c x n q h fits = ground arith

-- What the split writes: the taken block, the block cut off it, and nothing else.
record Splits (c : Cells) (x n : ℕ) : Type 0 where
  at_block : take_block c x n x ≡ record { size = n; free = 0; next = x + (12 + n) }
  at_rest :
      take_block c x n (x + (12 + n))
      ≡ record { size = (c x).size - n - 12; free = 1; next = (c x).next }
  elsewhere : (q : ℕ) → x + (12 + n) < q → take_block c x n q ≡ c q

take_block-Splits :
    (c : Cells) (x n : ℕ) → n + 16 < (c x).size → x + (12 + (c x).size) < 2 ^ 32 → Splits c x n
unfolding take_block
take_block-Splits c x n big small = record {
  at_block = ground arith;
  at_rest = ground arith;
  elsewhere = λ q h. ground arith;
}

-- A block that is not split is only marked.
take_block_whole :
    (c : Cells) (x n q : ℕ)
    → (c x).size ≤ n + 16
    → x + (12 + n) < 2 ^ 32
    → n + 16 < 2 ^ 32
    → take_block c x n q ≡ (if q == x then record (c x) { free = 0 } else c q)
unfolding take_block
take_block_whole c x n q h f g = ground arith

split-Layout :
    (c : Cells) (a e n : ℕ) (b : Blk) (bs : List Blk)
    → n + 16 < b.size
    → e < 2 ^ 32
    → Layout c a a e (b ∷ bs)
    → Layout (take_block c a n) a a e (taken n ∷ vacant (b.size - n - 12) ∷ bs)
split-Layout c a e n b bs big small l =
    rw (s.at_block, s.at_rest) (refl, refl, refl, (refl, ap (λ k. k - n - 12) l.1, refl, rest))
  where
    end : a + (12 + b.size) ≤ e
    end = Layout-le c (c a).next (a + (12 + b.size)) e bs l.3

    s : Splits c a n
    s = take_block-Splits c a n (rw l.1 big) (rw l.1 (omega (arith, end)))

    rest : Layout (take_block c a n) (c a).next (a + (12 + n) + (12 + (b.size - n - 12))) e bs
    rest =
        subst (λ x. Layout (take_block c a n) (c a).next x e bs) {x = a + (12 + b.size)}
          {y = a + (12 + n) + (12 + (b.size - n - 12))} (omega arith)
          (Layout-ext c (take_block c a n) (c a).next (a + (12 + b.size)) e bs
            (λ q h. s.elsewhere q (omega arith)) l.3)

whole-Layout :
    (c : Cells) (a e n : ℕ) (b : Blk) (bs : List Blk)
    → n ≤ b.size
    → b.size ≤ n + 16
    → 16 ≤ a
    → e < 2 ^ 32
    → Layout c a a e (b ∷ bs)
    → Layout (take_block c a n) a a e (taken b.size ∷ bs)
whole-Layout c a e n b bs fits whole high small l = rw here (refl, l.1, refl, rest)
  where
    end : a + (12 + b.size) ≤ e
    end = Layout-le c (c a).next (a + (12 + b.size)) e bs l.3

    at : (q : ℕ) → take_block c a n q ≡ (if q == a then record (c a) { free = 0 } else c q)
    at q = take_block_whole c a n q (rw l.1 whole) (omega (arith, end)) (omega (arith, end))

    here : take_block c a n a ≡ record (c a) { free = 0 }
    here = rw (at a) (ground arith)

    rest : Layout (take_block c a n) (c a).next (a + (12 + b.size)) e bs
    rest =
        Layout-ext c (take_block c a n) (c a).next (a + (12 + b.size)) e bs
          (λ q h. ground (arith, at q)) l.3

-- Taking the first block, of at least `n` bytes, does what `place` does.
pub take_block-Layout :
    (c : Cells) (a e n : ℕ) (b : Blk) (bs : List Blk)
    → n ≤ b.size
    → 16 ≤ a
    → e < 2 ^ 32
    → Layout c a a e (b ∷ bs)
    → Layout (take_block c a n) a a e (place n b bs)
unfolding place
take_block-Layout c a e n b bs fits high small l = elim (Bool-cases (ltb (n + 16) b.size)) [
  | inl big ↦ rw big (split-Layout c a e n b bs (ltb→lt _ _ big) small l)
  | inr whole ↦ rw whole (whole-Layout c a e n b bs fits (ltb→ge _ _ whole) high small l)
]
