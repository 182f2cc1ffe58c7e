-- ===== src/Iso/Atapi.antt =====
-- src/fs/iso9660.c: the driver of the CD drive, from `atapi_wait_status` to `atapi_read_sector`.
use openyanase_kernel.Base.{ℕ, ◌+◌, ◌*◌, Bool, List, [], ◌∷◌, ◌==◌, bit_and, update, u8, ◌>>>◌}
use openyanase_kernel.Base.Loops.{for_loop}
use openyanase_kernel.Initrd.{Memory}
use openyanase_kernel.Ports.{Bus, poll}

abbrev pub iso_sector_size : ℕ
iso_sector_size = 2048

-- The rounds of a wait of `atapi_read_sector`.
abbrev pub wait_rounds : ℕ
wait_rounds = 1000000

-- The twelve bytes of the packet.
abbrev pub scsi_packet : ℕ → List ℕ
scsi_packet lba =
    0xA8
    ∷ 0
    ∷ u8 (lba >>> 24)
    ∷ u8 (lba >>> 16)
    ∷ u8 (lba >>> 8)
    ∷ u8 lba
    ∷ 0
    ∷ 0
    ∷ 0
    ∷ 1
    ∷ 0
    ∷ 0
    ∷ []

-- `b[i] = w`, where `p` is the address of `b[i]`.
unfoldable pub store_word : ℕ → ℕ → Memory → Memory
store_word p w m = update (update m p (u8 w)) (p + 1) (u8 (w >>> 8))

module _ {D : Type 0} (bus : Bus D) (base : ℕ) where
  unfoldable pub atapi_wait_status : ℕ → ℕ → ℕ → D → Bool × D
  unfolding poll
  atapi_wait_status mask value timeout d =
      poll bus (base + 7) (λ status. bit_and status mask == value) timeout d

  -- The loop that sends the packet, two bytes a word.
  unfoldable pub send : List ℕ → D → D
  send [] d = d
  send (low ∷ []) d = d
  send (low ∷ high ∷ bytes) d = send bytes (bus.outw base (low + 256 * high) d)

  -- One round of the loop that receives the sector at the address `buffer`.
  unfoldable pub receive : ℕ → ℕ → Memory × D → Memory × D
  unfolding store_word
  receive buffer i (m, d) = let (w, d1) = bus.inw base d in (store_word (buffer + 2 * i) w m, d1)

  -- Up to the command: the drive is chosen, and the size of the answer is set.
  unfoldable pub request : D → D
  unfolding atapi_wait_status
  request d =
      let d1 = bus.outb (base + 6) 0xA0 d in
      let d2 = (atapi_wait_status 0x80 0 wait_rounds d1).1 in
      let d3 = bus.outb (base + 1) 0 d2 in
      let d4 = bus.outb (base + 4) 0 d3 in
      let d5 = bus.outb (base + 5) 8 d4 in bus.outb (base + 7) 0xA0 d5

  unfoldable pub atapi_read_sector : ℕ → ℕ → Memory → D → Memory × D
  unfolding atapi_wait_status send receive request
  atapi_read_sector lba buffer m d =
      let d1 = (atapi_wait_status 0x08 0x08 wait_rounds (request d)).1 in
      let d2 = send (scsi_packet lba) d1 in
      let d3 = (atapi_wait_status 0x80 0 wait_rounds d2).1 in
      let d4 = (atapi_wait_status 0x08 0x08 wait_rounds d3).1 in
      for_loop 1024 0 (receive buffer) (m, d4)
