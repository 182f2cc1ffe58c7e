-- ===== src/Iso/Mount.antt =====
-- `iso9660_mount` of src/fs/iso9660.c: the CD drive is looked for.
use openyanase_kernel.Base.{
  ℕ, zero, suc, ◌+◌, ◌≤◌, ◌≡◌, refl, Bool, true, false, ◌&&◌, ◌||◌, List, [], ◌∷◌, ◌==◌,
  if◌then◌else◌, bit_and, arith, Bool-cases, inl, inr,
}
use openyanase_kernel.Base.Loops.{for_loop, for_loop-keeps}
use openyanase_kernel.Ports.{Bus, poll}
use openyanase_kernel.Iso.{Print, puts}

-- `bus_ports` and `drives`, in the order of the two loops.
abbrev pub candidates : List (ℕ × ℕ)
candidates = (0x1F0, 0xA0) ∷ (0x1F0, 0xB0) ∷ (0x170, 0xA0) ∷ (0x170, 0xB0) ∷ []

module _ {D : Type 0} (bus : Bus D) where
  -- `for (int i = 0; i < n; i++) inb(base + 7);`
  unfoldable pub delay : ℕ → ℕ → D → D
  delay n base d = for_loop n 0 (λ i d. (bus.inb (base + 7) d).1) d

  -- One round of the inner loop: whether the drive has the signature.
  unfoldable pub probe : ℕ → ℕ → D → Bool × D
  probe base drive d =
      let d1 = delay 1000 base (bus.outb (base + 6) drive d) in
      let d2 = delay 2000 base (bus.outb (base + 7) 0x08 d1) in
      let d3 = (poll bus (base + 7) (λ status. bit_and status 0x80 == 0) 100000 d2).1 in
      let (cl, d4) = bus.inb (base + 4) d3 in
      let (ch, d5) = bus.inb (base + 5) d4 in (cl == 0x14 && ch == 0xEB, d5)

  -- The two loops; `current` is `current_atapi_base`, and the result is its new value, what is
  -- returned and what is printed.
  unfoldable pub mount_loop : List (ℕ × ℕ) → ℕ → D → ℕ × Bool × List Print × D
  mount_loop [] current d =
      (current, false, puts "FS Error: No ATAPI CD-ROM detected.\n" 0x0C ∷ [], d)
  mount_loop ((base, drive) ∷ rest) current d =
      let (is_atapi, d1) = probe base drive d in
      let others = mount_loop rest current d1 in
      if is_atapi
      then (
        base,
        true,
        puts "FS: ATAPI Found on " 0x0A
            ∷ puts (if base == 0x1F0 then "Primary " else "Secondary ") 0x0A
            ∷ puts (if drive == 0xA0 then "Master\n" else "Slave\n") 0x0A
            ∷ [],
        d1,
      )
      else others

  unfoldable pub iso9660_mount : ℕ → D → ℕ × Bool × List Print × D
  unfolding mount_loop
  iso9660_mount current d =
      let (base, result, out, d1) = mount_loop candidates current d in
      (base, result, puts "FS: Scanning ATAPI devices...\n" 0x07 ∷ out, d1)

-- The two drives of each bus: once one is chosen, its registers are what is read from the bus, also
-- after its status is read or it is reset. `low` and `high` are what the fourth and fifth hold.
pub record IsAtaBus {D : Type 0} (bus : Bus D) (low high : ℕ → ℕ → ℕ)
    (IsChosen : ℕ → ℕ → D → Type 0) : Type 0 where
  pub choose :
      (base drive : ℕ) (d : D) → 0xA0 ≤ drive → IsChosen base drive (bus.outb (base + 6) drive d)
  pub status :
      (base drive : ℕ) (d : D)
      → IsChosen base drive d
      → IsChosen base drive (bus.inb (base + 7) d).1
  pub reset :
      (base drive : ℕ) (d : D)
      → IsChosen base drive d
      → IsChosen base drive (bus.outb (base + 7) 0x08 d)
  pub read_low :
      (base drive : ℕ) (d : D)
      → IsChosen base drive d
      → ((bus.inb (base + 4) d).0 ≡ low base drive) × IsChosen base drive (bus.inb (base + 4) d).1
  pub read_high :
      (base drive : ℕ) (d : D) → IsChosen base drive d → (bus.inb (base + 5) d).0 ≡ high base drive

chosen :
    (A B : Type 0) (p q r s : Bool) (current : ℕ) (a1 a2 a3 a4 a5 : A) (b1 b2 b3 b4 b5 : B)
    → let pick = if◌then◌else◌ {A = ℕ × Bool × A × B} in
      let x =
        pick p
          (0x1F0, true, a1, b1)
          (pick q
            (0x1F0, true, a2, b2)
            (pick r
              (0x170, true, a3, b3)
              (pick s (0x170, true, a4, b4) (current, false, a5, b5)))) in
      (x.1 ≡ ((p || q) || (r || s)))
      × (x.0 ≡ (if p || q then 0x1F0 else (if r || s then 0x170 else current)))
chosen A B true q r s current a1 a2 a3 a4 a5 b1 b2 b3 b4 b5 = (refl, refl)
chosen A B false true r s current a1 a2 a3 a4 a5 b1 b2 b3 b4 b5 = (refl, refl)
chosen A B false false true s current a1 a2 a3 a4 a5 b1 b2 b3 b4 b5 = (refl, refl)
chosen A B false false false true current a1 a2 a3 a4 a5 b1 b2 b3 b4 b5 = (refl, refl)
chosen A B false false false false current a1 a2 a3 a4 a5 b1 b2 b3 b4 b5 = (refl, refl)

module _ {D : Type 0} (bus : Bus D) (low high : ℕ → ℕ → ℕ) (IsChosen : ℕ → ℕ → D → Type 0)
    (v : IsAtaBus bus low high IsChosen) where
  -- The signature of an ATAPI drive.
  abbrev pub is_cd : ℕ → ℕ → Bool
  is_cd base drive = low base drive == 0x14 && high base drive == 0xEB

  poll-IsChosen :
      (base drive : ℕ) (test : ℕ → Bool) (timeout : ℕ) (d : D)
      → IsChosen base drive d
      → IsChosen base drive (poll bus (base + 7) test timeout d).1
  unfolding poll
  poll-IsChosen base drive test zero d h = h
  poll-IsChosen base drive test (suc timeout) d h =
      elim (Bool-cases (test (bus.inb (base + 7) d).0)) [
        | inl e ↦ rw e (v.status base drive d h)
        | inr e ↦ rw e (
            poll-IsChosen base drive test timeout (bus.inb (base + 7) d).1
              (v.status base drive d h))
      ]

  delay-IsChosen :
      (n base drive : ℕ) (d : D) → IsChosen base drive d → IsChosen base drive (delay bus n base d)
  unfolding delay
  delay-IsChosen n base drive d h =
      for_loop-keeps (IsChosen base drive) (λ i d. (bus.inb (base + 7) d).1) n 0 d h
        (λ i d h. v.status base drive d h)

  probe-is_cd :
      (base drive : ℕ) (d : D) → 0xA0 ≤ drive → (probe bus base drive d).0 ≡ is_cd base drive
  unfolding probe
  probe-is_cd base drive d h =
      let first = delay-IsChosen 1000 base drive _ (v.choose base drive d h) in
      let second = delay-IsChosen 2000 base drive _ (v.reset base drive _ first) in
      let third = poll-IsChosen base drive (λ status. bit_and status 0x80 == 0) 100000 _ second in
      let fourth = v.read_low base drive _ third in
      rw (fourth.0, v.read_high base drive _ fourth.1) refl

  -- The first drive with the signature, primary before secondary, gives its bus to the driver; if
  -- none has it, the driver's bus stays, and the result is 0.
  pub iso9660_mount-is_cd :
      (current : ℕ) (d : D)
      → let (base, result, out, d1) = iso9660_mount bus current d in
        let primary = is_cd 0x1F0 0xA0 || is_cd 0x1F0 0xB0 in
        let secondary = is_cd 0x170 0xA0 || is_cd 0x170 0xB0 in
        (result ≡ (primary || secondary))
        × (base ≡ (if primary then 0x1F0 else if secondary then 0x170 else current))
  unfolding iso9660_mount
  iso9660_mount-is_cd current d =
      rw
        (
          probe-is_cd 0x1F0 0xA0 _ (omega arith),
          probe-is_cd 0x1F0 0xB0 _ (omega arith),
          probe-is_cd 0x170 0xA0 _ (omega arith),
          probe-is_cd 0x170 0xB0 _ (omega arith),
        )
        (chosen _ _ (is_cd 0x1F0 0xA0) (is_cd 0x1F0 0xB0) (is_cd 0x170 0xA0) (is_cd 0x170 0xB0)
          current _ _ _ _ _ _ _ _ _ _)
