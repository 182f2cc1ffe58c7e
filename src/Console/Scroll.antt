-- ===== src/Console/Scroll.antt =====
-- `vga_scroll` and `vga_clear` of src/vga_buffer.c, cell by cell.
use openyanase_kernel.Base.{
  ℕ, zero, suc, ◌+◌, ◌*◌, ◌<◌, ◌≤◌, ◌≡◌, ◌⊎◌, inl, inr, refl, ◌∙◌, ap, ltb, if◌then◌else◌, update,
  arith, Bool-cases, ltb→lt, ltb→ge,
}
use native.Mathlib.Decide.{ℕ_discrete, dec_lt}
use openyanase_kernel.Console.{
  Console, clear_loop, copy_line, copy_lines, blank_line, vga_scroll, vga_entry, vga_clear,
  update_cursor,
}

abbrev pub blank : ℕ
blank = vga_entry 32 7

copy_line_outside :
    (n x y : ℕ) (b : ℕ → ℕ) (i : ℕ)
    → (i < y * 80 + x) ⊎ (y * 80 + x + n ≤ i)
    → copy_line n x y b i ≡ b i
unfolding copy_line
copy_line_outside zero x y b i h = refl
copy_line_outside (suc n) x y b i h =
    copy_line_outside n (x + 1) y (update b (y * 80 + x) (b ((y + 1) * 80 + x))) i (omega arith)
    ∙ ground arith

copy_line_inside :
    (n x y : ℕ) (b : ℕ → ℕ) (i : ℕ)
    → x + n ≤ 80
    → y * 80 + x ≤ i
    → i < y * 80 + x + n
    → copy_line n x y b i ≡ b (i + 80)
unfolding copy_line
copy_line_inside zero x y b i fits lo hi = absurd (omega arith)
copy_line_inside (suc n) x y b i fits lo hi = elim (ℕ_discrete i (y * 80 + x)) [
  | yes e ↦
      copy_line_outside n (x + 1) y (update b (y * 80 + x) (b ((y + 1) * 80 + x))) i
        (inl (omega arith))
      ∙ ground (arith, ap b {x = (y + 1) * 80 + x} {y = i + 80} (omega arith))
  | no ne ↦
      copy_line_inside n (x + 1) y (update b (y * 80 + x) (b ((y + 1) * 80 + x))) i (omega arith)
        (omega arith) (omega arith)
      ∙ ground arith
]

copy_lines_outside :
    (n y : ℕ) (b : ℕ → ℕ) (i : ℕ) → (i < y * 80) ⊎ ((y + n) * 80 ≤ i) → copy_lines n y b i ≡ b i
unfolding copy_lines
copy_lines_outside zero y b i h = refl
copy_lines_outside (suc n) y b i h =
    copy_lines_outside n (y + 1) (copy_line 80 0 y b) i (omega arith)
    ∙ copy_line_outside 80 0 y b i (omega arith)

copy_lines_inside :
    (n y : ℕ) (b : ℕ → ℕ) (i : ℕ) → y * 80 ≤ i → i < (y + n) * 80 → copy_lines n y b i ≡ b (i + 80)
unfolding copy_lines
copy_lines_inside zero y b i lo hi = absurd (omega arith)
copy_lines_inside (suc n) y b i lo hi = elim (dec_lt i (y * 80 + 80)) [
  | yes here ↦
      copy_lines_outside n (y + 1) (copy_line 80 0 y b) i (inl (omega arith))
      ∙ copy_line_inside 80 0 y b i (omega arith) (omega arith) (omega arith)
  | no below ↦
      copy_lines_inside n (y + 1) (copy_line 80 0 y b) i (omega arith) (omega arith)
      ∙ copy_line_outside 80 0 y b (i + 80) (inr (omega arith))
]

blank_line_outside :
    (n x : ℕ) (b : ℕ → ℕ) (i : ℕ) → (i < 1920 + x) ⊎ (1920 + x + n ≤ i) → blank_line n x b i ≡ b i
unfolding blank_line
blank_line_outside zero x b i h = refl
blank_line_outside (suc n) x b i h =
    blank_line_outside n (x + 1) (update b (1920 + x) (vga_entry 32 7)) i (omega arith)
    ∙ ground arith

blank_line_inside :
    (n x : ℕ) (b : ℕ → ℕ) (i : ℕ) → 1920 + x ≤ i → i < 1920 + x + n → blank_line n x b i ≡ blank
unfolding blank_line
blank_line_inside zero x b i lo hi = absurd (omega arith)
blank_line_inside (suc n) x b i lo hi = elim (ℕ_discrete i (1920 + x)) [
  | yes e ↦
      blank_line_outside n (x + 1) (update b (1920 + x) (vga_entry 32 7)) i (inl (omega arith))
      ∙ ground arith
  | no ne ↦
      blank_line_inside n (x + 1) (update b (1920 + x) (vga_entry 32 7)) i (omega arith)
        (omega arith)
]

clear_loop_outside :
    (n i : ℕ) (b : ℕ → ℕ) (k : ℕ) → (k < i) ⊎ (i + n ≤ k) → clear_loop n i b k ≡ b k
unfolding clear_loop
clear_loop_outside zero i b k h = refl
clear_loop_outside (suc n) i b k h =
    clear_loop_outside n (i + 1) (update b i (vga_entry 32 7)) k (omega arith) ∙ ground arith

clear_loop_inside : (n i : ℕ) (b : ℕ → ℕ) (k : ℕ) → i ≤ k → k < i + n → clear_loop n i b k ≡ blank
unfolding clear_loop
clear_loop_inside zero i b k lo hi = absurd (omega arith)
clear_loop_inside (suc n) i b k lo hi = elim (ℕ_discrete k i) [
  | yes e ↦
      clear_loop_outside n (i + 1) (update b i (vga_entry 32 7)) k (inl (omega arith))
      ∙ ground arith
  | no ne ↦ clear_loop_inside n (i + 1) (update b i (vga_entry 32 7)) k (omega arith) (omega arith)
]

-- What a scrolled screen shows: every line but the last is the line that was below it, the last
-- one is blank, and the memory behind the screen is as it was.
abbrev pub scrolled : (ℕ → ℕ) → ℕ → ℕ
scrolled b i = if ltb i 1920 then b (i + 80) else (if ltb i 2000 then blank else b i)

-- The nested loops of `vga_scroll`, which copy in place, move every line up by one and blank the
-- last one; the cursor goes to the last line.
pub vga_scroll-scrolled :
    (s : Console) (i : ℕ)
    → ((vga_scroll s).vga_buffer i ≡ scrolled s.vga_buffer i)
      × ((vga_scroll s).cursor_y ≡ 24)
      × ((vga_scroll s).cursor_x ≡ s.cursor_x)
unfolding vga_scroll
vga_scroll-scrolled s i = (cell, refl, refl)
  where
    lines : ℕ → ℕ
    lines = copy_lines 24 0 s.vga_buffer

    cell : blank_line 80 0 lines i ≡ scrolled s.vga_buffer i
    cell = elim (Bool-cases (ltb i 1920)) [
      | inl upper ↦ rw upper (
          blank_line_outside 80 0 lines i (inl (ltb→lt _ _ upper))
          ∙ copy_lines_inside 24 0 s.vga_buffer i (omega arith) (ltb→lt _ _ upper))
      | inr low ↦ elim (Bool-cases (ltb i 2000)) [
        | inl last ↦
            rw (low, last) (blank_line_inside 80 0 lines i (ltb→ge _ _ low) (ltb→lt _ _ last))
        | inr behind ↦
            rw (low, behind)
              (blank_line_outside 80 0 lines i (inr (ltb→ge _ _ behind))
                ∙ copy_lines_outside 24 0 s.vga_buffer i (inr (ltb→ge _ _ low)))
      ]
    ]

-- `vga_clear` blanks the whole screen and nothing behind it, and puts the cursor at the start.
pub vga_clear-blank :
    (s : Console) (i : ℕ)
    → ((vga_clear s).vga_buffer i ≡ (if ltb i 2000 then blank else s.vga_buffer i))
      × ((vga_clear s).cursor_x ≡ 0)
      × ((vga_clear s).cursor_y ≡ 0)
unfolding vga_clear update_cursor
vga_clear-blank s i = (cell, refl, refl)
  where
    cell : clear_loop 2000 0 s.vga_buffer i ≡ (if ltb i 2000 then blank else s.vga_buffer i)
    cell = elim (Bool-cases (ltb i 2000)) [
      | inl on ↦ rw on (clear_loop_inside 2000 0 s.vga_buffer i (omega arith) (ltb→lt _ _ on))
      | inr behind ↦ rw behind (clear_loop_outside 2000 0 s.vga_buffer i (inr (ltb→ge _ _ behind)))
    ]
