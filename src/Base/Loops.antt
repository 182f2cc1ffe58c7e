-- ===== src/Base/Loops.antt =====
-- `for (i = first; i < first + n; i++)`, and what a loop does to one part of the state.
use Prim.Native.Nat.{ℕ, zero, suc, ◌+◌, ◌≤◌, ◌<◌}
use mathlib.Core.Path.{◌≡◌, refl, ◌∙◌, sym, subst}
use mathlib.Core.Logic.{◌≢◌}
use native.Mathlib.Decide.{ℕ_discrete}
use native.Mathlib.Omega.{arith}

unfoldable pub for_loop {ℓ} : {S : Type ℓ} → ℕ → ℕ → (ℕ → S → S) → S → S
for_loop zero i body s = s
for_loop (suc n) i body s = for_loop n (i + 1) body (body i s)

-- What every round keeps, the loop keeps.
pub for_loop-keeps {ℓ μ} :
    {S : Type ℓ} (P : S → Type μ) (body : ℕ → S → S) (n i : ℕ) (s : S)
    → P s
    → ((j : ℕ) (s : S) → P s → P (body j s))
    → P (for_loop n i body s)
unfolding for_loop
for_loop-keeps P body zero i s p keeps = p
for_loop-keeps P body (suc n) i s p keeps =
    for_loop-keeps P body n (i + 1) (body i s) (keeps i s p) keeps

-- In states that fulfil `P`, which no round breaks:
module _ {ℓ κ μ} {S : Type ℓ} {V : Type κ} (look : S → V) (body : ℕ → S → S) (P : S → Type μ)
    (keeps : (j : ℕ) (s : S) → P s → P (body j s)) where
  -- No round changes what is looked at.
  pub for_loop-outside :
      (n i : ℕ) (s : S)
      → P s
      → ((j : ℕ) (s : S) → P s → i ≤ j → j < i + n → look (body j s) ≡ look s)
      → look (for_loop n i body s) ≡ look s
  unfolding for_loop
  for_loop-outside zero i s p h = refl
  for_loop-outside (suc n) i s p h =
      for_loop-outside n (i + 1) (body i s) (keeps i s p)
        (λ j t q lo hi. h j t q (omega arith) (omega arith))
      ∙ h i s p (omega arith) (omega arith)

  -- One round, at `k`, gives it the value `v`, and no other changes it.
  pub for_loop-inside :
      (k : ℕ) (v : V) (n i : ℕ) (s : S)
      → i ≤ k
      → k < i + n
      → P s
      → ((s : S) → P s → look (body k s) ≡ v)
      → ((j : ℕ) (s : S) → P s → j < i + n → j ≢ k → look (body j s) ≡ look s)
      → look (for_loop n i body s) ≡ v
  unfolding for_loop
  for_loop-inside k v zero i s lo hi p here others = absurd (omega arith)
  for_loop-inside k v (suc n) i s lo hi p here others = elim (ℕ_discrete i k) [
    | yes e ↦
        for_loop-outside n (i + 1) (body i s) (keeps i s p)
          (λ j t q l h. others j t q (omega arith) (λ z. absurd (omega arith)))
        ∙ subst (λ m. look (body m s) ≡ v) (sym e) (here s p)
    | no ne ↦
        for_loop-inside k v n (i + 1) (body i s) (omega arith) (omega arith) (keeps i s p) here
          (λ j t q h. others j t q (omega arith))
  ]
