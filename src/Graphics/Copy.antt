-- ===== src/Graphics/Copy.antt =====
-- What the copies and the loops of src/graphics/vesa.c do to the screen and to the back buffer.
use openyanase_kernel.Base.{
  ℕ, zero, suc, ◌+◌, ◌-◌, ◌*◌, ◌%◌, ◌^◌, ◌<◌, ◌≤◌, ◌≡◌, refl, ap, ◌∙◌, ltb, if◌then◌else◌, update,
  arith, ◌⊎◌, inl, inr, Bool-cases, ltb→lt, ltb→ge, sub32, u32,
}
use native.Mathlib.Decide.{ℕ_discrete}
use openyanase_kernel.Base.Loops.{for_loop, for_loop-outside, for_loop-inside}
use openyanase_kernel.Graphics.{
  Vesa, memcpy, memcpy_within, memset, vesa_update, vesa_scroll_up, vesa_clear,
}

-- The words that `memcpy` writes, and those that it leaves.
pub memcpy_inside :
    (n : ℕ) (dest : ℕ → ℕ) (to : ℕ) (src : ℕ → ℕ) (from k : ℕ)
    → k < n
    → memcpy n dest to src from (to + k) ≡ src (from + k)
unfolding memcpy
memcpy_inside n dest to src from k lt =
    for_loop-inside (λ d. d (to + k)) _ (λ d. Unit {0}) (λ j d p. tt) k (src (from + k)) n 0 dest
      (omega arith) (omega arith) tt (λ d p. ground arith) (λ j d p l ne. ground arith)

pub memcpy_outside :
    (n : ℕ) (dest : ℕ → ℕ) (to : ℕ) (src : ℕ → ℕ) (from k : ℕ)
    → (k < to) ⊎ (to + n ≤ k)
    → memcpy n dest to src from k ≡ dest k
unfolding memcpy
memcpy_outside n dest to src from k out =
    for_loop-outside (λ d. d k) _ (λ d. Unit {0}) (λ j d p. tt) n 0 dest tt
      (λ j d p lo hi. ground arith)

-- `vesa_update` shows the whole back buffer, and writes nothing behind the screen.
pub vesa_update-shown :
    (s : Vesa) (k : ℕ)
    → (vesa_update s).vesa_mem k ≡ (if ltb k 480000 then s.back_buffer k else s.vesa_mem k)
unfolding vesa_update
vesa_update-shown s k = elim (Bool-cases (ltb k 480000)) [
  | inl on ↦ rw on (
      ap (memcpy 480000 s.vesa_mem 0 s.back_buffer 0) {x = k} {y = 0 + k} (omega arith)
      ∙ memcpy_inside 480000 s.vesa_mem 0 s.back_buffer 0 k (ltb→lt _ _ on)
      ∙ ap s.back_buffer (omega arith))
  | inr behind ↦
      rw behind (memcpy_outside 480000 s.vesa_mem 0 s.back_buffer 0 k (inr (ltb→ge _ _ behind)))
]

-- `vesa_clear` gives every pixel the colour, and writes nothing behind the last one.
pub vesa_clear-cleared :
    (color : ℕ) (s : Vesa) (k : ℕ)
    → (vesa_clear color s).back_buffer k
      ≡ (if ltb k (u32 (s.width * s.height)) then color else s.back_buffer k)
unfolding vesa_clear
vesa_clear-cleared color s k = elim (Bool-cases (ltb k n)) [
  | inl on ↦ rw on (
      for_loop-inside (λ t. t.back_buffer k) _ (λ t. Unit {0}) (λ j t p. tt) k color n 0 s
        (omega arith) (omega (arith, ltb→lt _ _ on)) tt (λ t p. ground arith)
        (λ j t p lt ne. ground arith))
  | inr behind ↦ rw behind (
      for_loop-outside (λ t. t.back_buffer k) _ (λ t. Unit {0}) (λ j t p. tt) n 0 s tt
        (λ j t p lo hi. ground (arith, ltb→ge _ _ behind)))
]
  where
    n : ℕ
    n = u32 (s.width * s.height)

-- A copy within a buffer to a place before it, word by word.
within_outside :
    (n i from : ℕ) (b : ℕ → ℕ) (k : ℕ)
    → (k < i) ⊎ (i + n ≤ k)
    → for_loop n i (λ i d. update d (0 + i) (d (from + i))) b k ≡ b k
unfolding for_loop
within_outside zero i from b k out = refl
within_outside (suc n) i from b k out =
    within_outside n (i + 1) from (update b (0 + i) (b (from + i))) k (omega arith) ∙ ground arith

within_inside :
    (n i from : ℕ) (b : ℕ → ℕ) (k : ℕ)
    → i ≤ k
    → k < i + n
    → for_loop n i (λ i d. update d (0 + i) (d (from + i))) b k ≡ b (from + k)
unfolding for_loop
within_inside zero i from b k lo hi = absurd (omega arith)
within_inside (suc n) i from b k lo hi = elim (ℕ_discrete k i) [
  | yes e ↦
      within_outside n (i + 1) from (update b (0 + i) (b (from + i))) k (inl (omega arith))
      ∙ ground (arith, ap b {x = from + i} {y = from + k} (omega arith))
  | no ne ↦
      within_inside n (i + 1) from (update b (0 + i) (b (from + i))) k (omega arith) (omega arith)
      ∙ ground arith
]

memset_inside : (n : ℕ) (b : ℕ → ℕ) (to v k : ℕ) → to ≤ k → k < to + n → memset n b to v k ≡ v
unfolding memset
memset_inside n b to v k lo hi =
    for_loop-inside (λ d. d k) _ (λ d. Unit {0}) (λ j d p. tt) (k - to) v n 0 b (omega arith)
      (omega arith) tt (λ d p. ground arith) (λ j d p lt ne. ground arith)

memset_outside :
    (n : ℕ) (b : ℕ → ℕ) (to v k : ℕ) → (k < to) ⊎ (to + n ≤ k) → memset n b to v k ≡ b k
unfolding memset
memset_outside n b to v k out =
    for_loop-outside (λ d. d k) _ (λ d. Unit {0}) (λ j d p. tt) n 0 b tt
      (λ j d p lo hi. ground arith)

-- `vesa_scroll_up` by at most 600 lines moves the picture up by that many lines and blackens the
-- lines that follow; nothing behind the screen is written.
pub vesa_scroll_up-scrolled :
    (n : ℕ) (s : Vesa) (k : ℕ)
    → n ≤ 600
    → (vesa_scroll_up n s).back_buffer k ≡ (
        if ltb k ((600 - n) * 800)
        then s.back_buffer (n * 800 + k)
        else (if ltb k 480000 then 0 else s.back_buffer k))
unfolding vesa_scroll_up memcpy_within
vesa_scroll_up-scrolled n s k le =
    rw (sizes, lines)
      (elim (Bool-cases (ltb k kept)) [
        | inl upper ↦ rw upper (
            memset_outside (n * 800) moved kept 0 k (inl (ltb→lt _ _ upper))
            ∙ within_inside kept 0 (n * 800) s.back_buffer k (omega arith)
                (omega (arith, ltb→lt _ _ upper)))
        | inr low ↦ elim (Bool-cases (ltb k 480000)) [
          | inl black ↦
              rw (low, black)
                (memset_inside (n * 800) moved kept 0 k (ltb→ge _ _ low)
                  (omega (arith, ltb→lt _ _ black)))
          | inr behind ↦
              rw (low, behind)
                (memset_outside (n * 800) moved kept 0 k (inr (omega (arith, ltb→ge _ _ behind)))
                  ∙ within_outside kept 0 (n * 800) s.back_buffer k
                      (inr (omega (arith, ltb→ge _ _ low))))
        ]
      ])
  where
    kept : ℕ
    kept = (600 - n) * 800

    moved : ℕ → ℕ
    moved = for_loop kept 0 (λ i d. update d (0 + i) (d (n * 800 + i))) s.back_buffer

    sizes : (sub32 600 n * 800) % 2 ^ 30 ≡ (600 - n) * 800
    sizes = omega arith

    lines : (n * 800) % 2 ^ 30 ≡ n * 800
    lines = omega arith
