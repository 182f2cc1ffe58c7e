-- ===== src/Mouse.antt =====
-- src/drivers/mouse.c: the PS/2 mouse interrupt.
pub mod Invariant
pub mod Packet
pub mod Start
mod Tests
use openyanase_kernel.Base.{
  ℕ, Out, ◌+◌, ◌-◌, ◌<◌, Bool, true, false, List, [], ◌∷◌, ltb, ◌==◌, if◌then◌else◌, set, get_or,
  bit_and,
}
use openyanase_kernel.Base.Int.{ℤ, pos, ◌+ℤ◌, ◌-ℤ◌, ltb_ℤ}

-- The file's variables. A byte of `mouse_byte` is kept as it came in, from 0 to 255: the code reads
-- it by masks and through a cast to `uint8_t`.
pub record Mouse : Type 0 where
  pub mouse_x : ℤ
  pub mouse_y : ℤ
  pub mouse_cycle : ℕ
  pub mouse_byte : List ℕ
  pub mouse_buttons : ℕ
  pub mouse_updated : ℕ

abbrev pub screen_w : ℕ
screen_w = 800

abbrev pub screen_h : ℕ
screen_h = 600

-- Keep a coordinate inside the screen: the two tests for one axis.
unfoldable pub clamp : ℕ → ℤ → ℤ
clamp size v =
    let raised = if ltb_ℤ v (pos 0) then pos 0 else v in
    if ltb_ℤ raised (pos size) then raised else pos (size - 1)

-- A delta with its ninth bit, the sign, from the first byte.
unfoldable pub delta : ℕ → ℕ → ℤ
delta byte sign = if sign == 0 then pos byte else pos byte -ℤ pos 256

-- The last case of the switch: the packet is complete.
unfoldable pub process : Mouse → Mouse
process s =
    let b0 = get_or s.mouse_byte 0 0 in
    let dx = delta (get_or s.mouse_byte 1 0) (bit_and b0 0x10) in
    let dy = delta (get_or s.mouse_byte 2 0) (bit_and b0 0x20) in
    record s {
      mouse_cycle = 0;
      mouse_x = clamp screen_w (s.mouse_x +ℤ dx);
      mouse_y = clamp screen_h (s.mouse_y -ℤ dy);
      mouse_buttons = bit_and b0 7;
      mouse_updated = 1;
    }

-- The switch on the cycle, after the byte is stored.
unfoldable pub advance : Mouse → Mouse
advance s =
    if s.mouse_cycle == 0
    then (if bit_and (get_or s.mouse_byte 0 0) 8 == 0 then s else record s { mouse_cycle = 1 })
    else (if s.mouse_cycle == 1
        then record s { mouse_cycle = 2 }
        else (if s.mouse_cycle == 2 then process s else s))

-- One interrupt: what the status port and the data port give, and what is written to the ports.
unfoldable pub mouse_handler : Mouse → ℕ → ℕ → Mouse × List Out
mouse_handler s status input = (
  (if bit_and status 1 == 0
      then s
      else advance (record s { mouse_byte = set s.mouse_byte s.mouse_cycle input })),
  (0xA0, 0x20) ∷ (0x20, 0x20) ∷ [],
)
