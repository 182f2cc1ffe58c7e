-- ===== src/Jar/Class/Pooled.antt =====
-- `class_execute` of src/runtime/jar.c ends, and gives the pool back to the heap.
use openyanase_kernel.Base.{
  ℕ, zero, suc, ◌+◌, ◌-◌, ◌*◌, ◌≤◌, ◌<◌, ◌≡◌, refl, sym, subst, ◌∙◌, true, false, ◌||◌, not, Option,
  none, some, List, length, ltb, ◌==◌, ltb→lt, Bool-cases, Option-cases, inl, inr, arith, u16,
  update, add32,
}
use openyanase_kernel.Initrd.{Memory, at}
use openyanase_kernel.Heap.{Heap, kmalloc, kfree}
use openyanase_kernel.Heap.Blocks.{Blk, alloc}
use openyanase_kernel.Heap.Alloc.{IsHeap, KmallocServes, kmalloc_first_fit}
use openyanase_kernel.Heap.Adjacent.{Apart}
use openyanase_kernel.Heap.Cycle.{kfree-kmalloc}
use openyanase_kernel.Runtime.Machine.{Vm, CpEntry, other}
use openyanase_kernel.Runtime.Bytecode.{finished, undefined, running}
use openyanase_kernel.Jar.Pool.{Parsed, be16, be32, parse_entry, pool_loop, parse_constant_pool}
use openyanase_kernel.Jar.Class.{
  Executed, failed, ran, release_pool, run_main, find_main_at, Fuel, entry_size, with_pool,
  class_execute,
}

parse_entry-places :
    (m : Memory) (tag off : ℕ) (r : Parsed)
    → parse_entry m tag off ≡ some r
    → (1 ≤ r.places) × (r.places ≤ 2)
unfolding parse_entry
parse_entry-places m tag off r h = ground arith

module _ (fuel : ℕ) (m : Memory) (count i off : ℕ) (cp : ℕ → CpEntry) where
  pool_end : ltb i count ≡ false → pool_loop (suc fuel) m count i off cp ≡ some (off, cp)
  unfolding pool_loop
  pool_end out = rw out refl

  pool_unknown :
      ltb i count ≡ true
      → parse_entry m (m off) (add32 off 1) ≡ none
      → pool_loop (suc fuel) m count i off cp ≡ some (add32 off 1, update cp i (other (m off)))
  unfolding pool_loop
  pool_unknown inside e = rw (inside, e) refl

  pool_next :
      (r : Parsed)
      → ltb i count ≡ true
      → parse_entry m (m off) (add32 off 1) ≡ some r
      → pool_loop (suc fuel) m count i off cp
        ≡ pool_loop fuel m count (u16 (i + r.places)) r.off (update cp i r.entry)
  unfolding pool_loop
  pool_next r inside e = rw (inside, e) refl

-- Whatever the bytes are, each round moves on in the pool.
pool_loop-ends :
    (fuel : ℕ) (m : Memory) (count i off : ℕ) (cp : ℕ → CpEntry)
    → count ≤ 512
    → i ≤ 514
    → count - i < fuel
    → (r : ℕ × (ℕ → CpEntry)) × (pool_loop fuel m count i off cp ≡ some r)
pool_loop-ends zero m count i off cp small room lt = absurd (omega arith)
pool_loop-ends (suc fuel) m count i off cp small room lt = elim (Bool-cases (ltb i count)) [
  | inr out ↦ ((off, cp), pool_end fuel m count i off cp out)
  | inl inside ↦ elim (Option-cases (parse_entry m (m off) (add32 off 1))) [
    | inl e ↦ (_, pool_unknown fuel m count i off cp inside e)
    | inr (r, e) ↦
        let (least, most) = parse_entry-places m (m off) (add32 off 1) r e in
        let before = ltb→lt i count inside in
        let rest =
          pool_loop-ends fuel m count (u16 (i + r.places)) r.off (update cp i r.entry) small
            (omega arith) (omega arith) in
        (rest.0, pool_next fuel m count i off cp r inside e ∙ rest.1)
  ]
]

-- The heap has the blocks from before, if the run of `main` is over or there was none.
abbrev pub Freed : List Blk → Executed → Heap → Type 0
Freed bs failed h = IsHeap h bs
Freed bs (ran (finished s)) h = IsHeap h bs
Freed bs (ran undefined) h = Unit {0}
Freed bs (ran running) h = Unit {0}

abbrev Ends : List Blk → Option (Executed × Heap) → Type 0
Ends bs m = (e : Executed) × (h : Heap) × (m ≡ some (e, h)) × Freed bs e h

release_pool-Ends :
    (fuel : ℕ) (bs : List Blk) (h1 h2 : Heap) (p : ℕ) (e : Executed)
    → kfree fuel h1 p ≡ some h2
    → IsHeap h2 bs
    → Ends bs (release_pool fuel h1 p e)
unfolding release_pool
release_pool-Ends fuel bs h1 h2 p failed freed v = (failed, h2, rw freed refl, v)
release_pool-Ends fuel bs h1 h2 p (ran (finished s)) freed v =
    (ran (finished s), h2, rw freed refl, v)
release_pool-Ends fuel bs h1 h2 p (ran undefined) freed v = (ran undefined, h1, refl, tt)
release_pool-Ends fuel bs h1 h2 p (ran running) freed v = (ran running, h1, refl, tt)

-- The blocks of the heap after a request.
abbrev pub left : List Blk → Option (ℕ × List Blk) → List Blk
left bs none = bs
left bs (some (off, bs')) = bs'

-- Rounds enough for the heap, and for a pool of 512 constants.
abbrev pub enough : ℕ → List Blk → ℕ → Fuel
enough n bs run = record {
  to_alloc = suc (length bs);
  to_free = suc (length (left bs (alloc n bs)));
  to_parse = 513;
  to_run = run;
}

module _ (m : Memory) (size : ℕ) (before : ℕ → CpEntry) (mouse : ℕ × ℕ) (s : Vm) where
  with_pool-Ends :
      (fuel : Fuel) (bs : List Blk) (h1 h2 : Heap) (p : ℕ)
      → fuel.to_parse ≡ 513
      → be16 m 8 ≤ 512
      → (p == 0) ≡ false
      → kfree fuel.to_free h1 p ≡ some h2
      → IsHeap h2 bs
      → Ends bs (with_pool fuel m size before mouse s p h1)
  unfolding with_pool parse_constant_pool
  with_pool-Ends fuel bs h1 h2 p rounds small not_null freed v =
      let (r, parsed) =
        pool_loop-ends 513 (at m 10) (be16 m 8) 1 0 before small (omega arith) (omega arith) in
      let run =
        run_main fuel.to_run m r.1 (be16 m 8) mouse s
          (find_main_at m size r.1 (be16 m 8) (10 + r.0)) in
      rw (not_null, rounds, parsed) (release_pool-Ends fuel.to_free bs h1 h2 p run freed v)

  with_pool_null :
      (fuel : Fuel) (h : Heap) → with_pool fuel m size before mouse s 0 h ≡ some (failed, h)
  unfolding with_pool
  with_pool_null fuel h = refl

  module _ (h : Heap) (bs : List Blk) (run : ℕ) (v : IsHeap h bs) (apart : Apart bs) where
    served :
        (o : Option (ℕ × List Blk))
        → alloc (be16 m 8 * entry_size) bs ≡ o
        → (ltb size 10 || not (be32 m 0 == 0xCAFE_BABE) || ltb 512 (be16 m 8)) ≡ false
        → Ends bs (class_execute (enough (be16 m 8 * entry_size) bs run) m size before mouse s h)
    unfolding class_execute
    served none e pass =
        let refused =
          subst
            (λ o.
              KmallocServes h (be16 m 8 * entry_size) o
                (kmalloc (suc (length bs)) h (be16 m 8 * entry_size)))
            e (kmalloc_first_fit h (be16 m 8 * entry_size) bs v) in
        rw (pass, refused) (failed, h, with_pool_null (enough (be16 m 8 * entry_size) bs run) h, v)
    served (some (off, bs')) e pass =
        let (h1, h2, taken, freed, v2) = kfree-kmalloc h (be16 m 8 * entry_size) bs v apart e in
        let given_back =
          subst (λ o. kfree (suc (length (left bs o))) h1 (h.heap_start + off + 12) ≡ some h2)
            (sym e) freed in
        rw (pass, taken)
          (with_pool-Ends (enough (be16 m 8 * entry_size) bs run) bs h1 h2 (h.heap_start + off + 12)
            refl (ground arith) (ground arith) given_back v2)

    -- Whatever the bytes of the class file are, `class_execute` gets through them, and the heap has
    -- the blocks from before when it returns: a file that is refused takes none, and the pool is
    -- given back after the run of `main`, where the class has no `main`, and on each early exit. If
    -- the run does not come to its end, nothing is said of the heap.
    pub class_execute-Freed :
        (e : Executed) × (h1 : Heap) × (class_execute
            (enough (be16 m 8 * entry_size) bs run)
            m
            size
            before
            mouse
            s
            h
          ≡ some (e, h1))
        × Freed bs e h1
    unfolding class_execute
    class_execute-Freed =
        elim (Bool-cases (ltb size 10 || not (be32 m 0 == 0xCAFE_BABE) || ltb 512 (be16 m 8))) [
          | inl refused ↦ (failed, h, rw refused refl, v)
          | inr pass ↦ served (alloc (be16 m 8 * entry_size) bs) refl pass
        ]
