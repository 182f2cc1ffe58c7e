-- ===== src/Mouse/Tests.antt =====
-- src/drivers/mouse.c at concrete packets.
use openyanase_kernel.Base.{ℕ, ◌-◌, ◌≡◌, refl, some, ◌==◌, if◌then◌else◌, List, [], ◌∷◌, arith}
use openyanase_kernel.Base.Int.{pos, negsuc}
use openyanase_kernel.Mouse.{Mouse, clamp, mouse_handler}
use openyanase_kernel.Mouse.Invariant.{IsValid, mouse_handler-IsValid}
use openyanase_kernel.Ports.{Bus}
use openyanase_kernel.Mouse.Start.{init_mouse}
use openyanase_kernel.Mouse.Start.Dialogue.{logged, dialogue, took, init_mouse-dialogue}
use openyanase_kernel.Mouse.Packet.{Motion, packets, move, moves, feed, feed-packets}

abbrev initial : Mouse
initial = record {
  mouse_x = pos 400;
  mouse_y = pos 300;
  mouse_cycle = 0;
  mouse_byte = 0 ∷ 0 ∷ 0 ∷ [];
  mouse_buttons = 0;
  mouse_updated = 0;
}

initial-IsValid : IsValid initial
initial-IsValid = omega arith

-- The first byte of a packet, with bit 3, the left button and the sign of x.
first_byte_kept : IsValid (mouse_handler initial 1 0x29).0
first_byte_kept = mouse_handler-IsValid initial 1 0x29 initial-IsValid

abbrev left_up : List Motion
left_up =
    record { dx = negsuc 4; dy = pos 7; buttons = 1 }
    ∷ record { dx = pos 255; dy = negsuc 255; buttons = 0 }
    ∷ []

stream : feed 1 initial (packets left_up) ≡ moves initial left_up
stream = feed-packets 1 initial left_up refl refl refl (omega arith)

stream_runs : (moves initial left_up).mouse_x ≡ pos 650
unfolding moves move clamp
stream_runs = refl

-- A controller that has some bytes, gives one at each read, and takes what it gets at once.
abbrev controller : Bus ℕ
controller = record {
  inb =
      λ port left. if port == 0x64 then ((if left == 0 then 0 else 1), left) else (0x67, left - 1);
  inw = λ port left. (0, left);
  outb = λ port byte left. left;
  outw = λ port word left. left;
}

init_mouse-dialogue_example :
    (status : ℕ) × (ack1 : ℕ) × (ack2 : ℕ) × (e : ℕ) × (init_mouse (logged controller) 3 (2, [])
      ≡ some (e, dialogue controller status ack1 ack2 (took 0x67 ∷ took 0x67 ∷ [])))
init_mouse-dialogue_example = init_mouse-dialogue controller 2 2 (refl, (refl, refl))
