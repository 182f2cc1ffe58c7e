-- ===== src/Shell/Loop.antt =====
-- The loop of `kernel_main` in src/main.c with the keyboard's interrupt, which may come at any time.
use openyanase_kernel.Base.{
  ℕ, ◌≤◌, ◌<◌, ◌≡◌, refl, ap, ◌∙◌, ◌⊎◌, Option, none, some, List, [], ◌∷◌, ◌++◌, length, ◌==◌, ltb,
  if◌then◌else◌, Bool-cases, inl, inr, arith,
}
use openyanase_kernel.Console.Keyboard.{Keyboard, press, keyboard_handler}
use openyanase_kernel.Console.Keyboard.Line.{line, edit, length-line, press-Edits, press_enter}
use openyanase_kernel.Shell.{
  Call, puts, Ending, returned, endless, Files, Line, execute_command, entered, shell_input, served,
  main_round,
}
use openyanase_kernel.Shell.Returns.{Returns, Remains}

-- An interrupt, whatever the controller gives, or the end of a round; what a command does before
-- leaves the keyboard alone.
pub data Step : Keyboard → Keyboard → Type 0 where
  interrupt : (k : Keyboard) (status scancode : ℕ) → Step k (keyboard_handler k status scancode)
  round_end : (k : Keyboard) → Step k (record k { shell_ptr = 0; command_ready = 0 })

pub data Reach (k : Keyboard) : Keyboard → Type 0 where
  here : Reach k k
  next : {l m : Keyboard} → Reach k l → Step l m → Reach k m

-- The last byte of the buffer is never anything but 0.
pub record IsSafe (k : Keyboard) : Type 0 where
  pub inside : k.shell_ptr ≤ 255
  pub ended : k.shell_buffer 255 ≡ 0

-- Nothing behind the 256 bytes of the buffer is written.
abbrev pub Within : Keyboard → Keyboard → Type 0
Within k l = (i : ℕ) → 256 ≤ i → l.shell_buffer i ≡ k.shell_buffer i

-- A round of the loop on a line: a command that comes back is followed by the prompt, and the line
-- is empty again; in one that does not the loop stays, with the line as it is.
abbrev pub IsServed : Files → Keyboard → Type 0
IsServed f k =
    ((calls : List Call) × (execute_command f k.shell_buffer ≡ some (returned calls))
      × (main_round f k ≡ (
        some (returned (calls ++ puts "\n> " 15 ∷ [])),
        record k { shell_ptr = 0; command_ready = 0 },
      )))
    ⊎ ((calls : List Call) × (execute_command f k.shell_buffer ≡ some (endless calls))
        × (main_round f k ≡ (some (endless calls), k))
        × Remains k.shell_buffer)

same_ptr : (k : Keyboard) → k.shell_ptr < 255 → (press k 10).shell_ptr < 256
unfolding press
same_ptr k room = omega arith

added : (l : List ℕ) (c : ℕ) → 32 ≤ c → length l < 255 → edit l c ≡ c ∷ l
unfolding edit
added l c char room = ground arith

still : (c : ℕ) {r : ℕ} → 32 ≤ c → r ≡ 1 → (if c == 10 then 1 else r) ≡ 1
still c char e = ground arith

written :
    (k : Keyboard) (c : ℕ) → k.shell_ptr < 255 → 32 ≤ c → (press k c).shell_buffer k.shell_ptr ≡ c
unfolding press
written k c room char = ground arith

-- A key that comes after Enter and before the loop does not begin a new line: a character takes the
-- place of the terminator, behind the line that was typed, and the loop then executes the buffer as
-- it is with this character in it.
pub late_key :
    (f : Files) (k : Keyboard) (c : ℕ)
    → k.shell_ptr < 255
    → 32 ≤ c
    → let late = press (press k 10) c in
      (line late.shell_buffer late.shell_ptr ≡ c ∷ line k.shell_buffer k.shell_ptr)
      × (late.shell_buffer k.shell_ptr ≡ c)
      × (main_round f late ≡ served (execute_command f late.shell_buffer) late)
unfolding main_round
late_key f k c room char =
    let entered = press_enter k in
    let late = press-Edits (press k 10) c (same_ptr k room) in
    let typed = line k.shell_buffer k.shell_ptr in
    (
      late.edited
          ∙ ap (λ l. edit l c) entered.1
          ∙ added typed c char (omega (arith, length-line k.shell_buffer k.shell_ptr)),
      written_late,
      rw (late.ready ∙ still c char entered.2) refl,
    )
  where
    written_late : (press (press k 10) c).shell_buffer k.shell_ptr ≡ c
    written_late =
        ap (press (press k 10) c).shell_buffer {x = k.shell_ptr} {y = (press k 10).shell_ptr}
          (unfold press in refl)
        ∙ written (press k 10) c (unfold press in room) char

entered_ptr : (e : Option Ending) (s : Line) → s.cmd_ptr < 256 → (entered e s).1.cmd_ptr < 256
unfolding entered
entered_ptr (some (returned calls)) s room = omega arith
entered_ptr (some (endless calls)) s room = room
entered_ptr none s room = room

-- What `shell_input` takes never fills its buffer beyond the 256 bytes.
pub shell_input_fits :
    (f : Files) (s : Line) (c : ℕ) → s.cmd_ptr < 256 → (shell_input f s c).1.cmd_ptr < 256
unfolding shell_input
shell_input_fits f s c room = elim (Bool-cases (c == 10)) [
  | inl e ↦ rw e (entered_ptr _ _ room)
  | inr e ↦ elim (Bool-cases (c == 8)) [
    | inl b ↦ elim (Bool-cases (ltb 0 s.cmd_ptr)) [
      | inl t ↦ rw (e, b, t) (omega arith)
      | inr t ↦ rw (e, b, t) room
    ]
    | inr b ↦ elim (Bool-cases (ltb s.cmd_ptr 255)) [
      | inl t ↦ rw (e, b, t) (ground arith)
      | inr t ↦ rw (e, b, t) room
    ]
  ]
]
