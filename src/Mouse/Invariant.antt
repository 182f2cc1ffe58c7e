-- ===== src/Mouse/Invariant.antt =====
-- What every interrupt of src/drivers/mouse.c keeps.
use openyanase_kernel.Base.{
  ℕ, ◌-◌, ◌<◌, ◌≡◌, ◌==◌, set, get_or, bit_and, length, length-set, arith, Bool-cases, inl, inr,
  ◌∙◌,
}
use openyanase_kernel.Base.Bits.{bit_and_mask}
use openyanase_kernel.Base.Int.{ℤ, pos, ◌≤ℤ◌}
use openyanase_kernel.Mouse.{Mouse, clamp, process, advance, mouse_handler}

-- A coordinate of the screen.
abbrev pub Inside : ℕ → ℤ → Type 0
Inside size v = (pos 0 ≤ℤ v) × (v ≤ℤ pos (size - 1))

pub record IsValid (s : Mouse) : Type 0 where
  pub x_inside : Inside 800 s.mouse_x
  pub y_inside : Inside 600 s.mouse_y
  pub cycle : s.mouse_cycle < 3
  pub bytes : length s.mouse_byte ≡ 3
  pub buttons : s.mouse_buttons < 8

pub clamp-Inside : (size : ℕ) (v : ℤ) → 0 < size → Inside size (clamp size v)
unfolding clamp
clamp-Inside size v h = ground arith

process-IsValid : (s : Mouse) → IsValid s → IsValid (process s)
unfolding process
process-IsValid s v = record {
  x_inside = clamp-Inside 800 _ (omega arith);
  y_inside = clamp-Inside 600 _ (omega arith);
  cycle = omega arith;
  bytes = v.bytes;
  buttons = omega (arith, bit_and_mask 3 (get_or s.mouse_byte 0 0));
}

advance-IsValid : (s : Mouse) → IsValid s → IsValid (advance s)
unfolding advance
advance-IsValid s v = ground (arith, process-IsValid s v)

-- Whatever the ports give, an interrupt keeps the pointer on the screen, the count of the bytes
-- inside the packet, so that no byte is stored out of bounds, and the buttons in their three bits.
pub mouse_handler-IsValid :
    (s : Mouse) (status input : ℕ) → IsValid s → IsValid (mouse_handler s status input).0
unfolding mouse_handler
mouse_handler-IsValid s status input v = elim (Bool-cases (bit_and status 1 == 0)) [
  | inl empty ↦ rw empty v
  | inr ready ↦ rw ready (
      advance-IsValid stored (record {
        x_inside = v.x_inside;
        y_inside = v.y_inside;
        cycle = v.cycle;
        bytes = length-set s.mouse_byte s.mouse_cycle input ∙ v.bytes;
        buttons = v.buttons;
      }))
]
  where
    stored : Mouse
    stored = record s { mouse_byte = set s.mouse_byte s.mouse_cycle input }
