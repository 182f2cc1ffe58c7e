-- ===== src/Base/Grid.antt =====
-- Two nested loops, over the rows and the columns of a rectangle.
use openyanase_kernel.Base.Loops.{for_loop, for_loop-outside, for_loop-inside, for_loop-keeps}
use Prim.Native.Nat.{ℕ, ◌<◌}
use mathlib.Core.Path.{◌≡◌}
use mathlib.Core.Logic.{◌≢◌, ◌⊎◌, inl, inr}
use native.Mathlib.Omega.{arith}

abbrev pub grid {ℓ} : {S : Type ℓ} → ℕ → ℕ → (ℕ → ℕ → S → S) → S → S
grid h w body s = for_loop h 0 (λ i. for_loop w 0 (body i)) s

module _ (h w : ℕ) {S V : Type 0} (look : S → V) (body : ℕ → ℕ → S → S) (P : S → Type 0)
    (keeps : (i j : ℕ) (t : S) → P t → P (body i j t)) where
  pub grid-keeps : (s : S) → P s → P (grid h w body s)
  grid-keeps s p =
      for_loop-keeps P (λ i. for_loop w 0 (body i)) h 0 s p
        (λ i t q. for_loop-keeps P (body i) w 0 t q (keeps i))

  -- No round of the loops changes what is looked at.
  pub grid-outside :
      (s : S)
      → P s
      → ((i j : ℕ) (t : S) → P t → i < h → j < w → look (body i j t) ≡ look t)
      → look (grid h w body s) ≡ look s
  grid-outside s p same =
      for_loop-outside look (λ i. for_loop w 0 (body i)) P
        (λ i t q. for_loop-keeps P (body i) w 0 t q (keeps i)) h 0 s p
        (λ i t q lo hi.
          for_loop-outside look (body i) P (keeps i) w 0 t q
            (λ j u r l k. same i j u r (omega arith) (omega arith)))

  -- The round for the row `r` and the column `c` gives it a value, and no other changes it.
  pub grid-inside :
      (r c : ℕ) (v : V) (s : S)
      → r < h
      → c < w
      → P s
      → ((t : S) → P t → look (body r c t) ≡ v)
      → ((i j : ℕ) (t : S) → P t → i < h → j < w → (i ≢ r) ⊎ (j ≢ c) → look (body i j t) ≡ look t)
      → look (grid h w body s) ≡ v
  grid-inside r c v s hr hc p here others =
      for_loop-inside look (λ i. for_loop w 0 (body i)) P
        (λ i t q. for_loop-keeps P (body i) w 0 t q (keeps i)) r v h 0 s (omega arith) (omega arith)
        p
        (λ t q.
          for_loop-inside look (body r) P (keeps r) c v w 0 t (omega arith) (omega arith) q here
            (λ j u q lt ne. others r j u q hr (omega arith) (inr ne)))
        (λ i t q lt ne.
          for_loop-outside look (body i) P (keeps i) w 0 t q
            (λ j u q lo hi. others i j u q (omega arith) (omega arith) (inl ne)))
