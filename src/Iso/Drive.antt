-- ===== src/Iso/Drive.antt =====
-- What src/fs/iso9660.c needs of its drive, and the bytes of a sector or of a record in memory.
use openyanase_kernel.Base.{ℕ, ◌+◌, ◌-◌, ◌*◌, ◌/◌, ◌%◌, ◌^◌, ◌<◌, ◌≡◌, refl, ap, arith, update}
use native.Mathlib.Decide.{dec_lt}
use native.Mathlib.Nat.{add_assoc}
use openyanase_kernel.Base.Loops.{for_loop-inside}
use openyanase_kernel.Initrd.{Memory, load32}
use openyanase_kernel.Ports.{Bus}
use openyanase_kernel.Iso.Atapi.{atapi_read_sector, wait_rounds}
use openyanase_kernel.Iso.Device.{Phase, idle, IsAtapi, with_sector, atapi_read_sector-with_sector}
use openyanase_kernel.Iso.{copy_record}

-- What the file system relies on: a sector is read into memory, and the drive stays ready.
pub record IsDrive {D : Type 0} (read_sector : ℕ → ℕ → Memory → D → Memory × D) (disc : ℕ → ℕ → ℕ)
    (IsReady : D → Type 0) : Type 0 where
  pub reads :
      (lba buffer : ℕ) (m : Memory) (d : D)
      → lba < 2 ^ 32
      → IsReady d
      → ((read_sector lba buffer m d).0 ≡ with_sector (disc lba) buffer 2048 m)
        × IsReady (read_sector lba buffer m d).1
  pub bytes : (lba k : ℕ) → disc lba k < 256

-- The driver of the kernel gives it.
pub atapi_read_sector-IsDrive :
    {D : Type 0} (bus : Bus D) (base lag : ℕ) (disc : ℕ → ℕ → ℕ) (In : Phase → ℕ → D → Type 0)
    → IsAtapi bus base lag disc In
    → lag < wait_rounds
    → ((lba k : ℕ) → disc lba k < 256)
    → IsDrive (atapi_read_sector bus base) disc (In idle 0)
atapi_read_sector-IsDrive bus base lag disc In a lt small = record {
  reads = λ lba buffer m d word h.
      atapi_read_sector-with_sector bus base lag disc In a lba buffer 0 m d lt word (small lba) h;
  bytes = small;
}

-- The bytes of a file that begins with the sector `lba`.
abbrev pub file_bytes : (ℕ → ℕ → ℕ) → ℕ → ℕ → ℕ
file_bytes disc lba k = disc (lba + k / 2048) (k % 2048)

pub with_sector-next :
    (disc : ℕ → ℕ → ℕ) (lba buffer i : ℕ) (m : Memory) (q : ℕ)
    → with_sector
        (disc (lba + i))
        (buffer + i * 2048)
        2048
        (with_sector (file_bytes disc lba) buffer (i * 2048) m)
        q
      ≡ with_sector (file_bytes disc lba) buffer ((i + 1) * 2048) m q
with_sector-next disc lba buffer i m q = elim (dec_lt q (buffer + i * 2048)) [
  | yes before ↦ ground arith
  | no later ↦ elim (dec_lt q (buffer + (i + 1) * 2048)) [
    | yes inside ↦ ground (
      arith,
      ap (λ (t : ℕ). disc t (q - (buffer + i * 2048))) {x = lba + i} {y = lba + (q - buffer) / 2048}
          (omega arith),
      ap (disc (lba + (q - buffer) / 2048)) {x = q - (buffer + i * 2048)} {y = (q - buffer) % 2048}
          (omega arith),
    )
    | no behind ↦ ground arith
  ]
]

pub with_sector-none :
    (b : ℕ → ℕ) (buffer : ℕ) (m : Memory) (q : ℕ) → m q ≡ with_sector b buffer (0 * 2048) m q
with_sector-none b buffer m q = ground arith

pub with_sector-again :
    (b c : ℕ → ℕ) (buffer size : ℕ) (m : Memory) (q : ℕ)
    → with_sector b buffer size (with_sector c buffer size m) q ≡ with_sector b buffer size m q
with_sector-again b c buffer size m q = ground arith

pub with_sector-inside :
    (b : ℕ → ℕ) (buffer size : ℕ) (m : Memory) (q k : ℕ)
    → q ≡ buffer + k
    → k < size
    → with_sector b buffer size m q ≡ b k
with_sector-inside b buffer size m q k e lt =
    ground (arith, ap b {x = q - buffer} {y = k} (omega arith))

pub load32-with_sector :
    (b : ℕ → ℕ) (buffer : ℕ) (m : Memory) (q k : ℕ)
    → q ≡ buffer + k
    → k + 3 < 2048
    → load32 (with_sector b buffer 2048 m) q ≡ load32 b k
load32-with_sector b buffer m q k e lt =
    rw
      (
        with_sector-inside b buffer 2048 m q k e (omega arith),
        with_sector-inside b buffer 2048 m (q + 1) (k + 1) (omega arith) (omega arith),
        with_sector-inside b buffer 2048 m (q + 2) (k + 2) (omega arith) (omega arith),
        with_sector-inside b buffer 2048 m (q + 3) (k + 3) (omega arith) (omega arith),
      )
      refl

pub load32-lt : (b : ℕ → ℕ) (a : ℕ) → ((k : ℕ) → b k < 256) → load32 b a < 2 ^ 32
load32-lt b a small = omega (arith, small a, small (a + 1), small (a + 2), small (a + 3))

copy_record_lem :
    (m : Memory) (a : ℕ) (rec : Memory) (j : ℕ) → j < m a → copy_record m a rec j ≡ m (a + j)
unfolding copy_record
copy_record_lem m a rec j lt =
    for_loop-inside (λ (r : Memory). r j) (λ i r. update r i (m (a + i))) (λ _. Unit {0})
      (λ i s p. tt) j (m (a + j)) (m a) 0 rec (omega arith) (omega arith) tt (λ s p. ground arith)
      (λ i s p lt ne. ground arith)

pub load32-copy_record :
    (m : Memory) (a : ℕ) (rec : Memory) (k : ℕ)
    → k + 3 < m a
    → load32 (copy_record m a rec) k ≡ load32 m (a + k)
load32-copy_record m a rec k lt =
    rw
      (
        copy_record_lem m a rec k (omega arith),
        copy_record_lem m a rec (k + 1) (omega arith),
        copy_record_lem m a rec (k + 2) (omega arith),
        copy_record_lem m a rec (k + 3) (omega arith),
        add_assoc a k 1,
        add_assoc a k 2,
        add_assoc a k 3,
      )
      refl
