-- ===== src/Heap/Free.antt =====
-- `kfree` of src/memory/heap.c against joining the free blocks of the abstract view.
use openyanase_kernel.Base.{
  ℕ, zero, suc, ◌+◌, ◌-◌, ◌≤◌, ◌<◌, ◌^◌, ◌≡◌, ◌≢◌, refl, sym, ap, ◌∙◌, Bool, true, false, not, ◌&&◌,
  Option, some, List, [], ◌∷◌, ◌==◌, arith, Bool-cases, ==_refl, ◌⊎◌, inl, inr, subst, update,
  add32, sub32, length,
}
use openyanase_kernel.Heap.{Heap, Cells, coalesce_loop, kfree}
use openyanase_kernel.Heap.Blocks.{Blk, vacant, merge, coalesce, release}
use openyanase_kernel.Heap.Chain.{flag, Layout, Layout-le, Layout-ext}
use openyanase_kernel.Heap.Alloc.{IsHeap}

-- The step of the loop that joins `p` with its successor.
join : Cells → ℕ → Cells
join c p = update c p (record (c p) {
  size = add32 (c p).size (add32 12 (c (c p).next).size);
  next = (c (c p).next).next;
})

join-at :
    (c : Cells) (p : ℕ)
    → join c p p ≡ record {
      size = add32 (c p).size (add32 12 (c (c p).next).size);
      free = (c p).free;
      next = (c (c p).next).next;
    }
unfolding join
join-at c p = rw ==_refl refl

join-ne : (c : Cells) (p q : ℕ) → q ≢ p → join c p q ≡ c q
unfolding join
join-ne c p q h = ground arith

coalesce_loop-last :
    (f : ℕ) (c : Cells) (p : ℕ) → (c p).next ≡ 0 → coalesce_loop (suc f) c p ≡ some c
unfolding coalesce_loop
coalesce_loop-last f c p e = ground arith

both_free : Cells → ℕ → Bool
both_free c p = not ((c p).free == 0) && not ((c (c p).next).free == 0)

coalesce_loop-join :
    (f : ℕ) (c : Cells) (p : ℕ)
    → 0 < p
    → 0 < (c p).next
    → both_free c p ≡ true
    → coalesce_loop (suc f) c p ≡ coalesce_loop f (join c p) p
unfolding coalesce_loop both_free join
coalesce_loop-join f c p h k e = rw e (ground arith)

coalesce_loop-skip :
    (f : ℕ) (c : Cells) (p : ℕ)
    → 0 < p
    → 0 < (c p).next
    → both_free c p ≡ false
    → coalesce_loop (suc f) c p ≡ coalesce_loop f c (c p).next
unfolding coalesce_loop both_free
coalesce_loop-skip f c p h k e = rw e (ground arith)

-- The test of the loop is that of the abstract view.
both_free-Layout :
    (c : Cells) (p a e : ℕ) (b d : Blk) (ds : List Blk)
    → Layout c p a e (b ∷ d ∷ ds)
    → both_free c p ≡ (b.free && d.free)
unfolding both_free
both_free-Layout c p a e b d ds l = rw (l.0, l.3.0, l.2, l.3.2) (flags b.free d.free)
  where
    flags : (f g : Bool) → (not (flag f == 0) && not (flag g == 0)) ≡ (f && g)
    flags true true = refl
    flags true false = refl
    flags false true = refl
    flags false false = refl

join-Layout :
    (c : Cells) (p a e : ℕ) (b d : Blk) (ds : List Blk)
    → e < 2 ^ 32
    → b.free ≡ true
    → Layout c p a e (b ∷ d ∷ ds)
    → Layout (join c p) p a e (vacant (b.size + (12 + d.size)) ∷ ds)
join-Layout c p a e b d ds small f l =
    subst (λ x. Layout (join c x) x a e (vacant (b.size + (12 + d.size)) ∷ ds)) (sym l.0)
      (rw (join-at c a, l.3.0) (refl, size, l.2 ∙ ap flag f, rest))
  where
    second : ℕ
    second = a + (12 + b.size)

    end : second + (12 + d.size) ≤ e
    end = Layout-le c (c second).next (second + (12 + d.size)) e ds l.3.3

    size : add32 (c a).size (add32 12 (c second).size) ≡ b.size + (12 + d.size)
    size = rw (l.1, l.3.1) (omega (arith, end))

    rest : Layout (join c a) (c second).next (a + (12 + (b.size + (12 + d.size)))) e ds
    rest =
        subst (λ x. Layout (join c a) (c second).next x e ds) {x = second + (12 + d.size)}
          {y = a + (12 + (b.size + (12 + d.size)))} (omega arith)
          (Layout-ext c (join c a) (c second).next (second + (12 + d.size)) e ds
            (λ q h. join-ne c a q (omega arith)) l.3.3)

-- A first header that is left as it was goes in front of what became of the rest.
keep-Layout :
    (c out : Cells) (p a e : ℕ) (b : Blk) (xs ys : List Blk)
    → Layout c p a e (b ∷ xs)
    → out a ≡ c a
    → Layout out (c p).next (a + (12 + b.size)) e ys
    → Layout out p a e (b ∷ ys)
keep-Layout c out p a e b xs ys l s t = (
  l.0,
  ap (λ k. k.size) s ∙ l.1,
  ap (λ k. k.free) s ∙ l.2,
  subst (λ x. Layout out x (a + (12 + b.size)) e ys) (ap (λ k. k.next) (ap c l.0 ∙ sym s)) t,
)

-- The loop from `p` on gives back headers that describe the joined blocks, and writes none below.
record Joins (c : Cells) (p a e : ℕ) (bs : List Blk) (r : Option Cells) : Type 0 where
  out : Cells
  returns : r ≡ some out
  layout : Layout out p a e bs
  below : (q : ℕ) → q < a → out q ≡ c q

coalesce_loop-Joins :
    (f : ℕ) (c : Cells) (p a e : ℕ) (b : Blk) (bs : List Blk)
    → length bs ≤ f
    → 0 < a
    → e < 2 ^ 32
    → Layout c p a e (b ∷ bs)
    → Joins c p a e (merge b bs) (coalesce_loop (suc f) c p)
unfolding merge
coalesce_loop-Joins f c p a e b [] enough high small l = record {
  out = c;
  returns = coalesce_loop-last f c p (rw l.0 l.3.0);
  layout = l;
  below = λ q h. refl;
}
coalesce_loop-Joins zero c p a e b (d ∷ ds) enough high small l = absurd (omega arith)
coalesce_loop-Joins (suc f) c p a e b (d ∷ ds) enough high small l =
    elim (Bool-cases (b.free && d.free)) [
      | inl both ↦
          rw
            (
              both,
              coalesce_loop-join (suc f) c p (omega arith) next_pos
                  (both_free-Layout c p a e b d ds l ∙ both),
            )
            (let ih =
                coalesce_loop-Joins f (join c p) p a e (vacant (b.size + (12 + d.size))) ds
                  (omega arith) high small (join-Layout c p a e b d ds small (ground arith) l) in
              record {
                out = ih.out;
                returns = ih.returns;
                layout = ih.layout;
                below = λ q h. ih.below q h ∙ join-ne c p q (omega arith);
              })
      | inr apart ↦
          rw
            (
              apart,
              coalesce_loop-skip (suc f) c p (omega arith) next_pos
                  (both_free-Layout c p a e b d ds l ∙ apart),
            )
            (let ih =
                coalesce_loop-Joins f c (c p).next (a + (12 + b.size)) e d ds (omega arith)
                  (omega arith) small (rw l.0 l.3) in
              record {
                out = ih.out;
                returns = ih.returns;
                layout =
                    keep-Layout c ih.out p a e b (d ∷ ds) (merge d ds) l (ih.below a (omega arith))
                      ih.layout;
                below = λ q h. ih.below q (omega arith);
              })
    ]
  where
    next_pos : 0 < (c p).next
    next_pos = rw (l.0, l.3.0) (omega arith)

-- A block begins at the offset `off`.
abbrev pub Starts : ℕ → List Blk → Type 0
Starts off [] = ⊥
Starts off (b ∷ bs) = (off ≡ 0) ⊎ ((12 + b.size ≤ off) × Starts (off - (12 + b.size)) bs)

-- `block->free = 1`
mark : Cells → ℕ → Cells
mark c x = update c x (record (c x) { free = 1 })

mark-at : (c : Cells) (x : ℕ) → mark c x x ≡ record (c x) { free = 1 }
unfolding mark
mark-at c x = rw ==_refl refl

mark-ne : (c : Cells) (x q : ℕ) → q ≢ x → mark c x q ≡ c q
unfolding mark
mark-ne c x q h = ground arith

mark-Layout :
    (c : Cells) (p a e off x : ℕ) (bs : List Blk)
    → x ≡ a + off
    → Starts off bs
    → Layout c p a e bs
    → Layout (mark c x) p a e (release off bs)
unfolding release
mark-Layout c p a e off x [] ex s l = absurd s
mark-Layout c p a e off x (b ∷ bs) ex (inl z) l = rw z (
    subst (λ y. Layout (mark c y) p a e (vacant b.size ∷ bs)) (sym here)
      (rw (mark-at c a) (l.0, l.1, refl, rest)))
  where
    here : x ≡ a
    here = omega arith

    rest : Layout (mark c a) (c a).next (a + (12 + b.size)) e bs
    rest =
        Layout-ext c (mark c a) (c a).next (a + (12 + b.size)) e bs
          (λ q h. mark-ne c a q (omega arith)) l.3
mark-Layout c p a e off x (b ∷ bs) ex (inr (le, s)) l =
    rw (later, mark-ne c x a (omega arith))
      (
        l.0,
        l.1,
        l.2,
        mark-Layout c (c a).next (a + (12 + b.size)) e (off - (12 + b.size)) x bs (omega arith) s
            l.3,
      )
  where
    later : (off == 0) ≡ false
    later = ground arith

kfree_loop-Joins :
    (c : Cells) (p a e : ℕ) (bs : List Blk)
    → 0 < a
    → e < 2 ^ 32
    → Layout c p a e bs
    → Joins c p a e (coalesce bs) (coalesce_loop (suc (length bs)) c p)
unfolding coalesce
kfree_loop-Joins c p a e [] high small l = record {
  out = c;
  returns = null_lem;
  layout = l;
  below = λ q h. refl;
}
  where
    null_lem : coalesce_loop 1 c p ≡ some c
    null_lem = unfold coalesce_loop in ground arith
kfree_loop-Joins c p a e (b ∷ bs) high small l =
    coalesce_loop-Joins (suc (length bs)) c p a e b bs (omega arith) high small l

length-release : (off : ℕ) (bs : List Blk) → length (release off bs) ≡ length bs
unfolding release
length-release off [] = refl
length-release off (b ∷ bs) = ground (arith, length-release (off - (12 + b.size)) bs)

Starts-le :
    (c : Cells) (p a e off : ℕ) (bs : List Blk)
    → Layout c p a e bs
    → Starts off bs
    → a + off + 12 ≤ e
Starts-le c p a e off [] l s = absurd s
Starts-le c p a e off (b ∷ bs) l (inl z) =
    omega (arith, Layout-le c (c a).next (a + (12 + b.size)) e bs l.3)
Starts-le c p a e off (b ∷ bs) l (inr (le, s)) =
    omega (arith, Starts-le c (c a).next (a + (12 + b.size)) e (off - (12 + b.size)) bs l.3 s)

kfree-eq :
    (f : ℕ) (h : Heap) (x : ℕ) (c : Cells)
    → x + 12 < 2 ^ 32
    → coalesce_loop f (mark h.cells x) h.free_list ≡ some c
    → kfree f h (x + 12) ≡ some (record h { cells = c })
unfolding kfree mark
kfree-eq f h x c fits r = rw (header_of, not_null, r)
  where
    header_of : sub32 (x + 12) 12 ≡ x
    header_of = omega arith

    not_null : (x + 12 == 0) ≡ false
    not_null = ground arith

-- On a well-formed heap `kfree` of the address behind a block's header ends within one round for
-- each block. It gives that block back, joins each run of neighbouring free blocks into one, and
-- keeps the heap well formed.
pub kfree_coalesces :
    (h : Heap) (off : ℕ) (bs : List Blk)
    → IsHeap h bs
    → Starts off bs
    → (h' : Heap) × (kfree (suc (length bs)) h (h.heap_start + off + 12) ≡ some h')
      × IsHeap h' (coalesce (release off bs))
kfree_coalesces h off bs v s = (
  record h { cells = j.out },
  kfree-eq (suc (length bs)) h x j.out
      (omega (arith, Starts-le h.cells h.free_list h.heap_start e off bs v.layout s))
      (rw (← length-release off bs) j.returns),
  record { layout = j.layout; high = v.high; small = v.small },
)
  where
    e : ℕ
    e = h.heap_start + h.heap_size

    x : ℕ
    x = h.heap_start + off

    j :
        Joins
          (mark h.cells x)
          h.free_list
          h.heap_start
          e
          (coalesce (release off bs))
          (coalesce_loop (suc (length (release off bs))) (mark h.cells x) h.free_list)
    j =
        kfree_loop-Joins (mark h.cells x) h.free_list h.heap_start e (release off bs)
          (omega (arith, v.high)) v.small
          (mark-Layout h.cells h.free_list h.heap_start e off x bs refl s v.layout)

-- A null pointer is ignored.
pub kfree_null : (fuel : ℕ) (h : Heap) → kfree fuel h 0 ≡ some h
unfolding kfree
kfree_null fuel h = refl
