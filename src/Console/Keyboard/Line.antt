-- ===== src/Console/Keyboard/Line.antt =====
-- The command line that src/keyboard.c builds, against a line editor.
use openyanase_kernel.Base.{
  ℕ, zero, suc, ◌+◌, ◌-◌, ◌<◌, ◌≤◌, ◌≡◌, refl, sym, subst, ==_refl, ◌∙◌, ap, ap₂, true, false, ◌&&◌,
  List, [], ◌∷◌, ltb, ◌==◌, if◌then◌else◌, update, bit_and, get_or, arith, length, Bool-cases, inl,
  inr, All,
}
use openyanase_kernel.Console.Keyboard.{Keyboard, press, kbd_us, keyboard_handler}

-- The first `n` bytes of the buffer, the last one first.
abbrev pub line : (ℕ → ℕ) → ℕ → List ℕ
line b zero = []
line b (suc n) = b n ∷ line b n

abbrev pub tail : List ℕ → List ℕ
tail [] = []
tail (x ∷ xs) = xs

-- The line editor, on the line with the last character first: a full line takes no more characters.
unfoldable pub edit : List ℕ → ℕ → List ℕ
edit l c =
    if c == 10
    then l
    else (if c == 8 then tail l else (if ltb 0 c && ltb (length l) 255 then c ∷ l else l))

pub length-line : (b : ℕ → ℕ) (n : ℕ) → length (line b n) ≡ n
length-line b zero = refl
length-line b (suc n) = ap suc (length-line b n)

line-update : (b : ℕ → ℕ) (n i v : ℕ) → n ≤ i → line (update b i v) n ≡ line b n
line-update b zero i v h = refl
line-update b (suc n) i v h = ap₂ ◌∷◌ (ground arith) (line-update b n i v (omega arith))

tail-line : (b : ℕ → ℕ) (n : ℕ) → tail (line b n) ≡ line b (n - 1)
tail-line b zero = refl
tail-line b (suc n) = ap (line b) (omega arith)

-- The buffer is never filled beyond its last byte, and the key edits the line in it as the line
-- editor says; the command is marked as ready exactly when the key is Enter or it was before.
pub record Edits (k : Keyboard) (c : ℕ) (k' : Keyboard) : Type 0 where
  pub fits : k'.shell_ptr < 256
  pub edited : line k'.shell_buffer k'.shell_ptr ≡ edit (line k.shell_buffer k.shell_ptr) c
  pub ready : k'.command_ready ≡ (if c == 10 then 1 else k.command_ready)

line-grown : (b : ℕ → ℕ) (n v : ℕ) → line (update b n v) (n + 1) ≡ v ∷ line b n
line-grown b n v =
    ap (line (update b n v)) {x = n + 1} {y = suc n} (omega arith)
    ∙ ap₂ ◌∷◌ (ground arith) (line-update b n n v (omega arith))

press-edited :
    (k : Keyboard) (c : ℕ)
    → line (press k c).shell_buffer (press k c).shell_ptr ≡ edit (line k.shell_buffer k.shell_ptr) c
unfolding press edit
press-edited k c = elim (Bool-cases (c == 10)) [
  | inl enter ↦ rw enter (line-update b p p 0 (omega arith))
  | inr other ↦ elim (Bool-cases (c == 8)) [
    | inl back ↦ elim (Bool-cases (ltb 0 p)) [
      | inl some_left ↦
          rw (other, back, some_left)
            (line-update b (p - 1) (p - 1) 0 (omega arith) ∙ sym (tail-line b p))
      | inr empty ↦
          rw (other, back, empty, tail-line b p) (ap (line b) {x = p} {y = p - 1} (ground arith))
    ]
    | inr typed ↦ elim (Bool-cases (ltb 0 c && ltb p 255)) [
      | inl room ↦ rw (other, typed, length-line b p, room) (line-grown b p c)
      | inr full ↦ rw (other, typed, length-line b p, full) refl
    ]
  ]
]
  where
    b : ℕ → ℕ
    b = k.shell_buffer

    p : ℕ
    p = k.shell_ptr

pub press-Edits : (k : Keyboard) (c : ℕ) → k.shell_ptr < 256 → Edits k c (press k c)
press-Edits k c h = record {
  fits = unfold press in ground arith;
  edited = press-edited k c;
  ready = unfold press in ground arith;
}

-- A key pressed, as the controller reports it: data is ready and bit 7 of the scancode is clear.
abbrev pub IsPress : ℕ → ℕ → Type 0
IsPress status scancode = ((bit_and status 1 == 0) ≡ false) × ((bit_and scancode 0x80 == 0) ≡ true)

-- The interrupts for the keys, in order.
unfoldable pub keys : ℕ → Keyboard → List ℕ → Keyboard
keys status k [] = k
keys status k (c ∷ cs) = keys status (keyboard_handler k status c) cs

unfoldable pub edits : List ℕ → List ℕ → List ℕ
edits l [] = l
edits l (c ∷ cs) = edits (edit l (get_or kbd_us c 0)) cs

pub handler-press :
    (k : Keyboard) (status c : ℕ)
    → IsPress status c
    → keyboard_handler k status c ≡ press k (get_or kbd_us c 0)
unfolding keyboard_handler
handler-press k status c h = rw (h.0, h.1) refl

-- The buffer of a keyboard holds a line, and has room for its terminator.
abbrev pub Holds : Keyboard → List ℕ → Type 0
Holds k l = (line k.shell_buffer k.shell_ptr ≡ l) × (k.shell_ptr < 256)

-- Any sequence of keys pressed leaves in the buffer the line that the line editor makes of their
-- characters, and never fills the buffer beyond its last byte.
pub keys-edits :
    (status : ℕ) (k : Keyboard) (cs : List ℕ)
    → k.shell_ptr < 256
    → All (IsPress status) cs
    → Holds (keys status k cs) (edits (line k.shell_buffer k.shell_ptr) cs)
unfolding keys edits
keys-edits status k [] h p = (refl, h)
keys-edits status k (c ∷ cs) h p =
    let one = press-Edits k (get_or kbd_us c 0) h in
    subst
      (λ k'.
        Holds (keys status k' cs)
          (edits (edit (line k.shell_buffer k.shell_ptr) (get_or kbd_us c 0)) cs))
      (sym (handler-press k status c p.0))
      (subst (λ l. Holds (keys status (press k (get_or kbd_us c 0)) cs) (edits l cs)) one.edited
        (keys-edits status (press k (get_or kbd_us c 0)) cs one.fits p.1))

-- Enter ends the command in the buffer with a terminator behind the line, changes nothing of the
-- line and marks the command as ready.
pub press_enter :
    (k : Keyboard)
    → let k' = press k 10 in
      (k'.shell_buffer k'.shell_ptr ≡ 0)
      × (line k'.shell_buffer k'.shell_ptr ≡ line k.shell_buffer k.shell_ptr)
      × (k'.command_ready ≡ 1)
unfolding press
press_enter k = (
  rw (==_refl k.shell_ptr) refl,
  line-update k.shell_buffer k.shell_ptr k.shell_ptr 0 (omega arith),
  refl,
)
