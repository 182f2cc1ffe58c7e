-- ===== src/Iso/Device.antt =====
-- What an ATAPI drive behind the ports at `base` does, as far as src/fs/iso9660.c relies on it, and
-- what `atapi_read_sector` then reads.
use openyanase_kernel.Base.{
  ℕ, zero, suc, ◌+◌, ◌-◌, ◌*◌, ◌/◌, ◌%◌, ◌^◌, ◌<◌, ◌≡◌, ap, ◌∙◌, subst, Bool, true, false, ◌&&◌,
  ◌||◌, ltb, leb, Option, none, some, List, [], ◌∷◌, ◌==◌, if◌then◌else◌, length, bit_and, u8,
  ◌>>>◌, arith,
}
use openyanase_kernel.Base.Loops.{for_loop}
use openyanase_kernel.Initrd.{Memory}
use openyanase_kernel.Ports.{Bus, poll}
use openyanase_kernel.Iso.Atapi.{
  scsi_packet, wait_rounds, store_word, atapi_wait_status, send, receive, request,
  atapi_read_sector,
}
use mathlib.Core.Path.{fun_ext}
use native.Mathlib.Decide.{ℕ_discrete}

-- `sending lba i`: the words of the sector before the word `i` have been read.
pub data Phase : Type 0 where
  idle : Phase
  asked : List ℕ → Phase
  sending : ℕ → ℕ → Phase

-- The words of a packet, the last first: READ(12) of one sector, by its number.
abbrev pub read_packet : List ℕ → Option ℕ
read_packet (w5 ∷ w4 ∷ w3 ∷ w2 ∷ w1 ∷ w0 ∷ []) =
    if w0 == 0xA8 && w3 == 0 && w4 == 0x100 && w5 == 0
    then some (w1 % 256 * 2 ^ 24 + w1 / 256 % 256 * 2 ^ 16 + w2 % 256 * 2 ^ 8 + w2 / 256 % 256)
    else none
read_packet _ = none

-- DRQ, by what the drive does when it is not busy.
abbrev pub drq : Phase → ℕ
drq idle = 0
drq (asked ws) = 8
drq (sending lba i) = 8

-- The phase before the word `i` is read.
abbrev pub before_word : ℕ → ℕ → Phase
before_word lba i = if i == 1024 then idle else sending lba i

-- `disc lba k` is the byte `k` of a sector. `In phase n d`: the device's state `d` is in the phase,
-- and busy for at most `n` reads of the status, `0` being ready; `lag` is the longest it is busy.
pub record IsAtapi {D : Type 0} (bus : Bus D) (base lag : ℕ) (disc : ℕ → ℕ → ℕ)
    (In : Phase → ℕ → D → Type 0) : Type 0 where
  pub ready :
      (f : Phase) (d : D)
      → In f 0 d
      → (bit_and (bus.inb (base + 7) d).0 0x80 ≡ 0)
        × (bit_and (bus.inb (base + 7) d).0 8 ≡ drq f)
        × In f 0 (bus.inb (base + 7) d).1
  pub busy :
      (f : Phase) (n : ℕ) (d : D)
      → In f (suc n) d
      → (bit_and (bus.inb (base + 7) d).0 0x80 ≡ 0x80)
        × (bit_and (bus.inb (base + 7) d).0 8 ≡ 0)
        × In f n (bus.inb (base + 7) d).1
  pub select : (n v : ℕ) (d : D) → In idle n d → In idle lag (bus.outb (base + 6) v d)
  pub features : (v : ℕ) (d : D) → In idle 0 d → In idle 0 (bus.outb (base + 1) v d)
  pub count_low : (v : ℕ) (d : D) → In idle 0 d → In idle 0 (bus.outb (base + 4) v d)
  pub count_high : (v : ℕ) (d : D) → In idle 0 d → In idle 0 (bus.outb (base + 5) v d)
  pub command : (d : D) → In idle 0 d → In (asked []) lag (bus.outb (base + 7) 0xA0 d)
  pub word :
      (ws : List ℕ) (w : ℕ) (d : D)
      → In (asked ws) 0 d
      → length ws < 5
      → In (asked (w ∷ ws)) 0 (bus.outw base w d)
  pub packet :
      (ws : List ℕ) (w lba : ℕ) (d : D)
      → In (asked ws) 0 d
      → read_packet (w ∷ ws) ≡ some lba
      → In (sending lba 0) lag (bus.outw base w d)
  pub value :
      (lba i : ℕ) (d : D)
      → In (sending lba i) 0 d
      → i < 1024
      → ((bus.inw base d).0 ≡ disc lba (2 * i) + 256 * disc lba (2 * i + 1))
        × In (before_word lba (i + 1)) 0 (bus.inw base d).1

-- The packet names the sector.
pub read_packet-scsi_packet :
    (lba : ℕ)
    → lba < 2 ^ 32
    → read_packet (
        0
        ∷ 256
        ∷ 0
        ∷ (u8 (lba >>> 8) + 256 * u8 lba)
        ∷ (u8 (lba >>> 24) + 256 * u8 (lba >>> 16))
        ∷ 0xA8
        ∷ [])
      ≡ some lba
read_packet-scsi_packet lba h = ap some (omega arith)

-- The memory with the sector at `buffer`, up to its byte `size`.
abbrev pub with_sector : (ℕ → ℕ) → ℕ → ℕ → Memory → Memory
with_sector bytes buffer size m q =
    if ltb q buffer || leb (buffer + size) q then m q else bytes (q - buffer)

-- A word of two bytes is stored as these bytes.
store_word_lem :
    (bytes : ℕ → ℕ) (buffer i w q : ℕ) (m : Memory)
    → w ≡ bytes (2 * i) + 256 * bytes (2 * i + 1)
    → ((k : ℕ) → bytes k < 256)
    → store_word (buffer + 2 * i) w (with_sector bytes buffer (2 * i) m) q
      ≡ with_sector bytes buffer (2 * (i + 1)) m q
unfolding store_word
store_word_lem bytes buffer i w q m e small = elim (ℕ_discrete q (buffer + 2 * i)) [
  | yes here ↦
      ground (
        arith,
        small (2 * i),
        small (2 * i + 1),
        ap bytes {x = q - buffer} {y = 2 * i} (omega arith),
      )
  | no ne ↦ elim (ℕ_discrete q (buffer + 2 * i + 1)) [
    | yes next ↦ ground (
      arith,
      small (2 * i),
      small (2 * i + 1),
      ap bytes {x = q - buffer} {y = 2 * i + 1} (omega arith),
    )
    | no other ↦ ground arith
  ]
]

start_lem : (bytes : ℕ → ℕ) (buffer q : ℕ) (m : Memory) → m q ≡ with_sector bytes buffer 0 m q
start_lem bytes buffer q m = ground arith

module _ {D : Type 0} (bus : Bus D) (base lag : ℕ) (disc : ℕ → ℕ → ℕ) (In : Phase → ℕ → D → Type 0)
    (a : IsAtapi bus base lag disc In) where
  abbrev status : D → ℕ
  status d = (bus.inb (base + 7) d).0

  -- A wait for a status that the drive shows when it is ready, and not while it is busy.
  wait-In :
      (f : Phase) (test : ℕ → Bool)
      → ((n : ℕ) (d : D) → In f (suc n) d → test (status d) ≡ false)
      → ((d : D) → In f 0 d → test (status d) ≡ true)
      → (timeout n : ℕ) (d : D) → n < timeout
      → In f n d
      → In f 0 (poll bus (base + 7) test timeout d).1
  unfolding poll
  wait-In f test b r zero n d lt h = absurd (omega arith)
  wait-In f test b r (suc timeout) zero d lt h = rw (r d h) (a.ready f d h).2
  wait-In f test b r (suc timeout) (suc n) d lt h =
      rw (b n d h)
        (wait-In f test b r timeout n (bus.inb (base + 7) d).1 (omega arith) (a.busy f n d h).2)

  request-In :
      (n : ℕ) (d : D) → lag < wait_rounds → In idle n d → In (asked []) lag (request bus base d)
  unfolding request atapi_wait_status
  request-In n d lt h =
      let ready =
        wait-In idle (λ s. bit_and s 0x80 == 0) (λ n d h. rw (a.busy idle n d h).0)
          (λ d h. rw (a.ready idle d h).0) wait_rounds lag (bus.outb (base + 6) 0xA0 d) lt
          (a.select n 0xA0 d h) in
      a.command _ (a.count_high 8 _ (a.count_low 0 _ (a.features 0 _ ready)))

  send-In :
      (lba : ℕ) (d : D)
      → lba < 2 ^ 32
      → In (asked []) 0 d
      → In (sending lba 0) lag (send bus base (scsi_packet lba) d)
  unfolding send
  send-In lba d lt h =
      a.packet _ 0 lba _
        (a.word _ 256 _
          (a.word _ 0 _
            (a.word _ _ _ (a.word _ _ _ (a.word [] 0xA8 d h (omega arith)) (omega arith))
              (omega arith))
            (omega arith))
          (omega arith))
        (read_packet-scsi_packet lba lt)

  receive-In :
      (lba buffer n i : ℕ) (m : Memory) (d : D)
      → i + n ≡ 1024
      → In (before_word lba i) 0 d
      → In idle 0 (for_loop n i (receive bus base buffer) (m, d)).1
  unfolding for_loop receive
  receive-In lba buffer zero i m d e h = subst (λ p. In p 0 d) (ground arith) h
  receive-In lba buffer (suc n) i m d e h =
      receive-In lba buffer n (i + 1) _ (bus.inw base d).1 (omega arith)
        (a.value lba i d (subst (λ p. In p 0 d) (ground arith) h) (omega arith)).1

  receive-with_sector :
      (lba buffer n i : ℕ) (m : Memory) (d : D)
      → ((k : ℕ) → disc lba k < 256)
      → i + n ≡ 1024
      → In (before_word lba i) 0 d
      → (for_loop n i (receive bus base buffer) (with_sector (disc lba) buffer (2 * i) m, d)).0
        ≡ with_sector (disc lba) buffer 2048 m
  unfolding for_loop receive
  receive-with_sector lba buffer zero i m d small e h =
      ap (λ (k : ℕ). with_sector (disc lba) buffer k m) {x = 2 * i} {y = 2048} (omega arith)
  receive-with_sector lba buffer (suc n) i m d small e h =
      let v = a.value lba i d (subst (λ p. In p 0 d) (ground arith) h) (omega arith) in
      let m1 = fun_ext (λ q. store_word_lem (disc lba) buffer i (bus.inw base d).0 q m v.0 small) in
      ap (λ m. (for_loop n (i + 1) (receive bus base buffer) (m, (bus.inw base d).1)).0) m1
      ∙ receive-with_sector lba buffer n (i + 1) m (bus.inw base d).1 small (omega arith) v.1

  -- From an idle drive the sector is read into the buffer, nothing else in memory changes, and the
  -- drive is ready for the next command.
  pub atapi_read_sector-with_sector :
      (lba buffer n : ℕ) (m : Memory) (d : D)
      → lag < wait_rounds
      → lba < 2 ^ 32
      → ((k : ℕ) → disc lba k < 256)
      → In idle n d
      → ((atapi_read_sector bus base lba buffer m d).0 ≡ with_sector (disc lba) buffer 2048 m)
        × In idle 0 (atapi_read_sector bus base lba buffer m d).1
  unfolding atapi_read_sector atapi_wait_status
  atapi_read_sector-with_sector lba buffer n m d lt word small h =
      let asked_for =
        wait-In (asked []) (λ s. bit_and s 8 == 8) (λ n d h. rw (a.busy (asked []) n d h).1)
          (λ d h. rw (a.ready (asked []) d h).1) wait_rounds lag (request bus base d) lt
          (request-In n d lt h) in
      let sent = send-In lba _ word asked_for in
      let done =
        wait-In (sending lba 0) (λ s. bit_and s 0x80 == 0)
          (λ n d h. rw (a.busy (sending lba 0) n d h).0) (λ d h. rw (a.ready (sending lba 0) d h).0)
          wait_rounds lag _ lt sent in
      let full =
        wait-In (sending lba 0) (λ s. bit_and s 8 == 8)
          (λ n d h. rw (a.busy (sending lba 0) n d h).1) (λ d h. rw (a.ready (sending lba 0) d h).1)
          wait_rounds 0 _ (omega arith) done in
      let start = fun_ext (λ (q : ℕ). start_lem (disc lba) buffer q m) in
      (
        ap (λ m. (for_loop 1024 0 (receive bus base buffer) (m, _)).0) start
            ∙ receive-with_sector lba buffer 1024 0 m _ small (omega arith) full,
        receive-In lba buffer 1024 0 m _ (omega arith) full,
      )
