-- ===== src/Ports/Tests.antt =====
-- A device for src/io.h that gives the numbers from its state on.
use openyanase_kernel.Base.{ℕ, ◌+◌, ◌≡◌, ◌<◌, ◌⊎◌, suc, refl, Bool, true, false, ltb}
use openyanase_kernel.Ports.{Bus, poll}
use openyanase_kernel.Ports.Wait.{after_reads, answer, IsFirst, poll-IsFirst}

abbrev counter : Bus ℕ
counter = record {
  inb = λ port d. (d, d + 1);
  inw = λ port d. (d, d + 1);
  outb = λ port v d. d;
  outw = λ port v d. d;
}

abbrev above : ℕ → Bool
above s = ltb 4 s

poll-counter : poll counter 0x64 above 10 2 ≡ (true, 6)
unfolding poll
poll-counter = refl

poll-IsFirst_example :
    ((k : ℕ) × (k < 10)
      × IsFirst counter 0x64 above k 2
      × (poll counter 0x64 above 10 2 ≡ (true, after_reads counter 0x64 (suc k) 2)))
    ⊎ (((j : ℕ) → j < 10 → answer counter 0x64 above j 2 ≡ false)
        × (poll counter 0x64 above 10 2 ≡ (false, after_reads counter 0x64 10 2)))
poll-IsFirst_example = poll-IsFirst counter 0x64 above 10 2
