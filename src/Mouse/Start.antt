-- ===== src/Mouse/Start.antt =====
-- `init_mouse` of src/drivers/mouse.c: the dialogue with the PS/2 controller.
pub mod Dialogue
use openyanase_kernel.Base.{
  ℕ, Out, zero, suc, ◌≡◌, refl, ap, ◌∙◌, Bool, true, false, not, Option, none, some, List, [], ◌∷◌,
  ◌==◌, if◌then◌else◌, bit_and, bit_or, Bool-cases, inl, inr, subst, sym,
}
use openyanase_kernel.Runtime.Machine.{◌>>=◌}
use openyanase_kernel.Ports.{Bus, poll}

abbrev pub wait_timeout : ℕ
wait_timeout = 100000

-- Bit 0 of the status: there is a byte to read; bit 1: the controller has not taken the last one.
abbrev pub output_full : ℕ → Bool
output_full status = not (bit_and status 0x01 == 0)

abbrev pub input_empty : ℕ → Bool
input_empty status = bit_and status 0x02 == 0

-- `status |= 0x02; status &= ~0x20;` on a byte.
abbrev pub command_byte : ℕ → ℕ
command_byte status = bit_and (bit_or status 0x02) 0xDF

module _ {D : Type 0} (bus : Bus D) where
  unfoldable pub mouse_wait : ℕ → D → D
  mouse_wait type d =
      if type == 0
      then (poll bus 0x64 output_full wait_timeout d).1
      else (poll bus 0x64 input_empty wait_timeout d).1

  unfoldable pub send_byte : ℕ → ℕ → D → D
  send_byte port byte d = bus.outb port byte (mouse_wait 1 d)

  unfoldable pub mouse_write : ℕ → D → D
  mouse_write byte d = send_byte 0x60 byte (send_byte 0x64 0xD4 d)

  unfoldable pub mouse_read : D → ℕ × D
  mouse_read d = bus.inb 0x60 (mouse_wait 0 d)

  -- The loop that empties the controller's buffer; `none` is no value of the program: the fuel ran
  -- out.
  unfoldable pub flush : ℕ → D → Option D
  flush zero d = none
  flush (suc fuel) d =
      let (status, d1) = bus.inb 0x64 d in
      let rest = flush fuel (bus.inb 0x60 d1).1 in if output_full status then rest else some d1

  -- What follows the loop.
  unfoldable pub set_up : D → D
  set_up d =
      let d1 = send_byte 0x64 0x20 (send_byte 0x64 0xA8 d) in
      let (status, d2) = mouse_read d1 in
      let d3 = send_byte 0x60 (command_byte status) (send_byte 0x64 0x60 d2) in
      let d4 = (mouse_read (mouse_write 0xF6 d3)).1 in (mouse_read (mouse_write 0xF4 d4)).1

  unfoldable pub init_mouse : ℕ → D → Option D
  init_mouse fuel d = do d1 ← flush fuel d; some (set_up d1)
