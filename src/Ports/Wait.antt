-- ===== src/Ports/Wait.antt =====
-- The loops of src/drivers/mouse.c and src/fs/iso9660.c that wait for a status.
use openyanase_kernel.Base.{
  ℕ, zero, suc, ◌<◌, ◌≡◌, ◌⊎◌, refl, Bool, true, false, Bool-cases, inl, inr, arith,
}
use openyanase_kernel.Ports.{Bus, poll}

-- The device after its port has been read `k` times.
unfoldable pub after_reads : {D : Type 0} → Bus D → ℕ → ℕ → D → D
after_reads bus port zero d = d
after_reads bus port (suc k) d = after_reads bus port k (bus.inb port d).1

module _ {D : Type 0} (bus : Bus D) (port : ℕ) (test : ℕ → Bool) where
  abbrev pub answer : ℕ → D → Bool
  answer k d = test (bus.inb port (after_reads bus port k d)).0

  -- The first of the statuses that passes is the one read after `k` others.
  pub record IsFirst (k : ℕ) (d : D) : Type 0 where
    pub passes : answer k d ≡ true
    pub none_before : (j : ℕ) → j < k → answer j d ≡ false

  none_until :
      (n : ℕ) (d : D)
      → answer 0 d ≡ false
      → ((j : ℕ) → j < n → answer j (bus.inb port d).1 ≡ false)
      → (j : ℕ) → j < suc n
      → answer j d ≡ false
  unfolding after_reads
  none_until n d none h zero lt = none
  none_until n d none h (suc j) lt = h j (omega arith)

  IsFirst-later :
      (k : ℕ) (d : D) → answer 0 d ≡ false → IsFirst k (bus.inb port d).1 → IsFirst (suc k) d
  unfolding after_reads
  IsFirst-later k d e f = record { passes = f.passes; none_before = none_until k d e f.none_before }

  -- Whatever a device answers, a wait ends after at most `timeout` reads of its port: after the
  -- first status that passes, with 1, if that is one of them, and else after all, with 0.
  pub poll-IsFirst :
      (timeout : ℕ) (d : D)
      → ((k : ℕ) × (k < timeout)
          × IsFirst k d
          × (poll bus port test timeout d ≡ (true, after_reads bus port (suc k) d)))
        ⊎ (((j : ℕ) → j < timeout → answer j d ≡ false)
            × (poll bus port test timeout d ≡ (false, after_reads bus port timeout d)))
  unfolding poll after_reads
  poll-IsFirst zero d = inr (λ j lt. absurd (omega arith), refl)
  poll-IsFirst (suc timeout) d = elim (Bool-cases (answer 0 d)) [
    | inl e ↦ inl (
      0,
      omega arith,
      record { passes = e; none_before = λ j lt. absurd (omega arith) },
      rw e refl,
    )
    | inr e ↦ elim (poll-IsFirst timeout (bus.inb port d).1) [
      | inl (k, lt, f, r) ↦ inl (suc k, omega arith, IsFirst-later k d e f, rw e r)
      | inr (all, r) ↦ inr (none_until timeout d e all, rw e r)
    ]
  ]
