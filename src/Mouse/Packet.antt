-- ===== src/Mouse/Packet.antt =====
-- The packets of a PS/2 mouse, and what src/drivers/mouse.c makes of them.
use openyanase_kernel.Base.{
  ℕ, ◌+◌, ◌-◌, ◌*◌, ◌/◌, ◌%◌, ◌^◌, ◌≤◌, ◌<◌, ◌≡◌, refl, ap, ◌∙◌, false, List, [], ◌∷◌, ◌++◌, ◌==◌,
  set, get_or, bit_and, length, arith, All, get_or-set_self,
}
use openyanase_kernel.Base.Bits.{bit_and_mask, bit_and_high}
use openyanase_kernel.Base.Int.{ℤ, pos, negsuc, ◌+ℤ◌, ◌-ℤ◌, ◌≤ℤ◌}
use openyanase_kernel.Mouse.{Mouse, clamp, delta, process, advance, mouse_handler}

-- A motion that the protocol can say: nine bits with the sign for each axis, and three buttons.
pub record Motion : Type 0 where
  pub dx : ℤ
  pub dy : ℤ
  pub buttons : ℕ

abbrev pub NineBits : ℤ → Type 0
NineBits v = (negsuc 255 ≤ℤ v) × (v ≤ℤ pos 255)

abbrev pub IsMotion : Motion → Type 0
IsMotion p = NineBits p.dx × NineBits p.dy × (p.buttons < 8)

abbrev pub sign : ℤ → ℕ
sign (pos n) = 0
sign (negsuc n) = 1

-- The low eight bits of a number from -256 to 255.
abbrev pub low_byte : ℤ → ℕ
low_byte (pos n) = n
low_byte (negsuc n) = 255 - n

abbrev pub first_byte : Motion → ℕ
first_byte p = p.buttons + 8 + 16 * sign p.dx + 32 * sign p.dy

-- The three bytes of the packet: bit 3 of the first is always set, bits 4 and 5 are the signs.
abbrev pub packet : Motion → List ℕ
packet p = first_byte p ∷ low_byte p.dx ∷ low_byte p.dy ∷ []

-- What a motion means: the pointer moves, down the screen for a negative `dy`, and stays on it.
unfoldable pub move : Mouse → Motion → Mouse
move s p = record s {
  mouse_x = clamp 800 (s.mouse_x +ℤ p.dx);
  mouse_y = clamp 600 (s.mouse_y -ℤ p.dy);
  mouse_cycle = 0;
  mouse_byte = packet p;
  mouse_buttons = p.buttons;
  mouse_updated = 1;
}

-- The interrupts for the bytes, with the data ready at each.
unfoldable pub feed : ℕ → Mouse → List ℕ → Mouse
feed status s [] = s
feed status s (b ∷ bs) = feed status (mouse_handler s status b).0 bs

bit : (k a : ℕ) → bit_and a (1 * 2 ^ k) ≡ a / 2 ^ k % 2 * 2 ^ k
bit k a = bit_and_high k a 1 ∙ ap (λ t. t * 2 ^ k) (bit_and_mask 1 (a / 2 ^ k))

sign-le : (v : ℤ) → sign v ≤ 1
sign-le (pos n) = omega arith
sign-le (negsuc n) = omega arith

-- The fields of the first byte.
fields :
    (p : Motion)
    → p.buttons < 8
    → (bit_and (first_byte p) 8 ≡ 8)
      × (bit_and (first_byte p) 0x10 ≡ 16 * sign p.dx)
      × (bit_and (first_byte p) 0x20 ≡ 32 * sign p.dy)
      × (bit_and (first_byte p) 7 ≡ p.buttons)
fields p h = (
  bit 3 (first_byte p) ∙ omega (arith, sign-le p.dx, sign-le p.dy),
  bit 4 (first_byte p) ∙ omega (arith, sign-le p.dx, sign-le p.dy),
  bit 5 (first_byte p) ∙ omega (arith, sign-le p.dx, sign-le p.dy),
  bit_and_mask 3 (first_byte p) ∙ omega (arith, sign-le p.dx, sign-le p.dy),
)

delta_x : (v : ℤ) → NineBits v → delta (low_byte v) (16 * sign v) ≡ v
unfolding delta
delta_x (pos n) h = refl
delta_x (negsuc n) h = ground arith

delta_y : (v : ℤ) → NineBits v → delta (low_byte v) (32 * sign v) ≡ v
unfolding delta
delta_y (pos n) h = refl
delta_y (negsuc n) h = ground arith

stored : (l : List ℕ) (a b c : ℕ) → length l ≡ 3 → set (set (set l 0 a) 1 b) 2 c ≡ a ∷ b ∷ c ∷ []
stored (x ∷ y ∷ z ∷ []) a b c h = refl
stored _ a b c h = absurd (omega arith)

-- An interrupt with data ready.
handler-ready :
    (s : Mouse) (status b : ℕ)
    → (bit_and status 1 == 0) ≡ false
    → (mouse_handler s status b).0
      ≡ advance (record s { mouse_byte = set s.mouse_byte s.mouse_cycle b })
unfolding mouse_handler
handler-ready s status b h = rw h refl

advance_first :
    (s : Mouse)
    → s.mouse_cycle ≡ 0
    → bit_and (get_or s.mouse_byte 0 0) 8 ≡ 8
    → advance s ≡ record s { mouse_cycle = 1 }
unfolding advance
advance_first s z e = rw (z, e) refl

advance_second : (s : Mouse) → s.mouse_cycle ≡ 1 → advance s ≡ record s { mouse_cycle = 2 }
unfolding advance
advance_second s z = rw z refl

advance_third : (s : Mouse) → s.mouse_cycle ≡ 2 → advance s ≡ process s
unfolding advance
advance_third s z = rw z refl

process-move :
    (s : Mouse) (p : Motion)
    → IsMotion p
    → process (record s { mouse_byte = packet p; mouse_cycle = 2 }) ≡ move s p
unfolding process move
process-move s p h = rw (f.1, f.2, f.3, delta_x p.dx h.0, delta_y p.dy h.1) refl
  where
    f :
        (bit_and (first_byte p) 8 ≡ 8)
        × (bit_and (first_byte p) 0x10 ≡ 16 * sign p.dx)
        × (bit_and (first_byte p) 0x20 ≡ 32 * sign p.dy)
        × (bit_and (first_byte p) 7 ≡ p.buttons)
    f = fields p h.2

-- From the start of a packet, the three interrupts for the packet of a motion do what the motion
-- means.
feed-packet :
    (status : ℕ) (s : Mouse) (p : Motion)
    → (bit_and status 1 == 0) ≡ false
    → s.mouse_cycle ≡ 0
    → length s.mouse_byte ≡ 3
    → IsMotion p
    → feed status s (packet p) ≡ move s p
unfolding feed
feed-packet status s p ready z l h =
    ap (λ t. (mouse_handler (mouse_handler t status (low_byte p.dx)).0 status (low_byte p.dy)).0)
      first
    ∙ ap (λ t. (mouse_handler t status (low_byte p.dy)).0) second
    ∙ third
    ∙ ap process filled
    ∙ process-move s p h
  where
    s1 : Mouse
    s1 = record s { mouse_byte = set s.mouse_byte 0 (first_byte p); mouse_cycle = 1 }

    s2 : Mouse
    s2 = record s1 { mouse_byte = set s1.mouse_byte 1 (low_byte p.dx); mouse_cycle = 2 }

    s3 : Mouse
    s3 = record s2 { mouse_byte = set s2.mouse_byte 2 (low_byte p.dy) }

    entry : bit_and (get_or (set s.mouse_byte s.mouse_cycle (first_byte p)) 0 0) 8 ≡ 8
    entry = rw (z, get_or-set_self s.mouse_byte 0 (first_byte p) 0 (omega arith)) (fields p h.2).0

    first : (mouse_handler s status (first_byte p)).0 ≡ s1
    first =
        handler-ready s status (first_byte p) ready
        ∙ advance_first (record s { mouse_byte = set s.mouse_byte s.mouse_cycle (first_byte p) }) z
            entry
        ∙ ap (λ c. record s { mouse_byte = set s.mouse_byte c (first_byte p); mouse_cycle = 1 }) z

    second : (mouse_handler s1 status (low_byte p.dx)).0 ≡ s2
    second =
        handler-ready s1 status (low_byte p.dx) ready
        ∙ advance_second (record s1 { mouse_byte = set s1.mouse_byte 1 (low_byte p.dx) }) refl

    third : (mouse_handler s2 status (low_byte p.dy)).0 ≡ process s3
    third = handler-ready s2 status (low_byte p.dy) ready ∙ advance_third s3 refl

    filled : s3 ≡ record s { mouse_byte = packet p; mouse_cycle = 2 }
    filled =
        ap (λ t. record s { mouse_byte = t; mouse_cycle = 2 })
          (stored s.mouse_byte (first_byte p) (low_byte p.dx) (low_byte p.dy) l)

feed-append :
    (status : ℕ) (s : Mouse) (xs ys : List ℕ)
    → feed status s (xs ++ ys) ≡ feed status (feed status s xs) ys
unfolding feed
feed-append status s [] ys = refl
feed-append status s (x ∷ xs) ys = feed-append status (mouse_handler s status x).0 xs ys

-- The bytes of several packets, one after the other.
abbrev pub packets : List Motion → List ℕ
packets [] = []
packets (p ∷ ps) = packet p ++ packets ps

unfoldable pub moves : Mouse → List Motion → Mouse
moves s [] = s
moves s (p ∷ ps) = moves (move s p) ps

-- A stream of whole packets, read by interrupts with data ready from the start of a packet, moves
-- the pointer and sets the buttons as the motions say, one after the other: signs, clamping at
-- the borders of the screen and the count of bytes never get out of step.
pub feed-packets :
    (status : ℕ) (s : Mouse) (ps : List Motion)
    → (bit_and status 1 == 0) ≡ false
    → s.mouse_cycle ≡ 0
    → length s.mouse_byte ≡ 3
    → All IsMotion ps
    → feed status s (packets ps) ≡ moves s ps
unfolding moves
feed-packets status s [] ready z l h = unfold feed in refl
feed-packets status s (p ∷ ps) ready z l h =
    feed-append status s (packet p) (packets ps)
    ∙ ap (λ t. feed status t (packets ps)) (feed-packet status s p ready z l h.0)
    ∙ feed-packets status (move s p) ps ready (unfold move in refl) (unfold move in refl) h.1
