-- ===== src/Str/Copy.antt =====
-- `vga_strncpy` of src/main.c: what it writes, and that the copy compares equal to its source.
use openyanase_kernel.Base.{
  ℕ, zero, suc, ◌+◌, ◌<◌, ◌≤◌, ◌≡◌, ◌≢◌, refl, sym, ap, ==_iff, ==_refl, ◌∙◌, Bool, true, false,
  ◌==◌, ◌⊎◌, inl, inr, if◌then◌else◌, arith, Bool-cases, ◌||◌, ltb, ltb→lt, ltb→ge, update,
}
use mathlib.Core.Bool.{false≢true}
use native.Mathlib.Nat.{zero-add}
use native.Mathlib.Decide.{ℕ_discrete}
use openyanase_kernel.Base.Int.{pos}
use openyanase_kernel.Str.{CString, pad_loop, copy_loop, vga_strncpy, vga_strncmp}
use openyanase_kernel.Str.Compare.{strncmp_agrees}

pad_loop_outside : (n i : ℕ) (d : CString) (k : ℕ) → (k < i) ⊎ (i + n ≤ k) → pad_loop n i d k ≡ d k
unfolding pad_loop
pad_loop_outside zero i d k h = refl
pad_loop_outside (suc n) i d k h =
    pad_loop_outside n (i + 1) (update d i 0) k (omega arith) ∙ ground arith

pad_loop_inside : (n i : ℕ) (d : CString) (k : ℕ) → i ≤ k → k < i + n → pad_loop n i d k ≡ 0
unfolding pad_loop
pad_loop_inside zero i d k lo hi = absurd (omega arith)
pad_loop_inside (suc n) i d k lo hi = elim (Bool-cases (k == i)) [
  | inl here ↦ pad_loop_outside n (i + 1) (update d i 0) k (inl (ground arith)) ∙ rw here refl
  | inr there ↦ pad_loop_inside n (i + 1) (update d i 0) k (ground arith) (omega arith)
]

-- No byte before the index or behind the count is written.
copy_loop_outside :
    (n i : ℕ) (d src : CString) (k : ℕ) → (k < i) ⊎ (i + n ≤ k) → copy_loop n i d src k ≡ d k
unfolding copy_loop
copy_loop_outside zero i d src k h = refl
copy_loop_outside (suc n) i d src k h = elim (Bool-cases (src i == 0)) [
  | inl end ↦ rw end (pad_loop_outside (suc n) i d k h)
  | inr more ↦
      rw more (copy_loop_outside n (i + 1) (update d i (src i)) src k (omega arith) ∙ ground arith)
]

copy_loop_inside :
    (n i : ℕ) (d src : CString) (k : ℕ)
    → i ≤ k
    → k < i + n
    → ((j : ℕ) → i ≤ j → j < k → src j ≢ 0)
    → copy_loop n i d src k ≡ src k
unfolding copy_loop
copy_loop_inside zero i d src k lo hi run = absurd (omega arith)
copy_loop_inside (suc n) i d src k lo hi run = elim (Bool-cases (src i == 0)) [
  | inl end ↦ rw end (elim (ℕ_discrete k i) [
    | yes e ↦ pad_loop_inside (suc n) i d k lo hi ∙ rw e (sym ((==_iff _ _).0 end))
    | no ne ↦ absurd (run i (omega arith) (omega arith) ((==_iff _ _).0 end))
  ])
  | inr more ↦ rw more (elim (ℕ_discrete k i) [
    | yes e ↦
        copy_loop_outside n (i + 1) (update d i (src i)) src k (inl (omega arith))
        ∙ rw (e, ==_refl i) refl
    | no ne ↦
        copy_loop_inside n (i + 1) (update d i (src i)) src k (omega arith) (omega arith)
          (λ j p. run j (omega arith))
  ])
]

-- Once the end of the source is copied, zeros follow.
copy_loop_end :
    (n i : ℕ) (d src : CString) (j k : ℕ)
    → i ≤ j
    → j ≤ k
    → k < i + n
    → src j ≡ 0
    → copy_loop n i d src k ≡ 0
unfolding copy_loop
copy_loop_end zero i d src j k lo le hi z = absurd (omega arith)
copy_loop_end (suc n) i d src j k lo le hi z = elim (Bool-cases (src i == 0)) [
  | inl end ↦ rw end (pad_loop_inside (suc n) i d k (omega arith) hi)
  | inr more ↦
      rw more (copy_loop_end n (i + 1) (update d i (src i)) src j k (after more) le (omega arith) z)
]
  where
    after : (src i == 0) ≡ false → i + 1 ≤ j
    after more = elim (ℕ_discrete j i) [
      | yes e ↦ absurd (false≢true (sym more ∙ (==_iff _ _).1 (ap src (sym e) ∙ z)))
      | no ne ↦ omega arith
    ]

-- A terminator stands at the index or before it.
unfoldable pub ended : CString → ℕ → Bool
ended s zero = s 0 == 0
ended s (suc k) = ended s k || s (suc k) == 0

ended-true : (s : CString) (k : ℕ) → ended s k ≡ true → (j : ℕ) × (j ≤ k) × (s j ≡ 0)
unfolding ended
ended-true s zero h = (0, omega arith, (==_iff _ _).0 h)
ended-true s (suc k) h = elim (Bool-cases (ended s k)) [
  | inl before ↦ let (j, le, z) = ended-true s k before in (j, omega arith, z)
  | inr after ↦ (suc k, omega arith, (==_iff _ _).0 (rw after at h))
]

pub ended-false : (s : CString) (k : ℕ) → ended s k ≡ false → (j : ℕ) → j ≤ k → s j ≢ 0
unfolding ended
ended-false s zero h j le z = ground (arith, ap s {x = j} {y = 0} (omega arith))
ended-false s (suc k) h j le z = elim (ℕ_discrete j (suc k)) [
  | yes e ↦ ground (arith, ap s e)
  | no ne ↦ ended-false s k (ground arith) j (omega arith) z
]

-- `vga_strncpy` copies the source up to its end, fills up to the count with zeros, and writes no
-- byte behind the count.
pub strncpy_lem :
    (dest src : CString) (n k : ℕ)
    → vga_strncpy dest src n k ≡ (if ltb k n then (if ended src k then 0 else src k) else dest k)
unfolding vga_strncpy
strncpy_lem dest src n k = elim (Bool-cases (ltb k n)) [
  | inr out ↦ rw out (copy_loop_outside n 0 dest src k (inr (rw zero-add (ltb→ge _ _ out))))
  | inl lt ↦ elim (Bool-cases (ended src k)) [
    | inl end ↦
        rw (lt, end)
          (let (j, le, z) = ended-true src k end in
            copy_loop_end n 0 dest src j k (omega arith) le (rw zero-add (ltb→lt _ _ lt)) z)
    | inr run ↦
        rw (lt, run)
          (copy_loop_inside n 0 dest src k (omega arith) (rw zero-add (ltb→lt _ _ lt))
            (λ j lo hi. ended-false src k run j (omega arith)))
  ]
]

-- A copy compares equal to its source, over the count that was copied.
pub strncmp-strncpy :
    (dest src : CString) (n : ℕ) → vga_strncmp src (vga_strncpy dest src n) n ≡ pos 0
strncmp-strncpy dest src n = (strncmp_agrees src (vga_strncpy dest src n) n).1 (λ k lt run. sym (
    unfold vga_strncpy in
    copy_loop_inside n 0 dest src k (omega arith) (omega arith) (λ j lo. run j)))
