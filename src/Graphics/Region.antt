-- ===== src/Graphics/Region.antt =====
-- Which pixels `vesa_update_region` of src/graphics/vesa.c copies.
use openyanase_kernel.Base.{
  ℕ, ◌+◌, ◌-◌, ◌*◌, ◌<◌, ◌≤◌, ◌≡◌, ◌≢◌, refl, ap, sym, subst, ◌∙◌, Bool, true, false, not, ◌&&◌,
  ◌||◌, if◌then◌else◌, arith, ◌⊎◌, inl, inr, Bool-cases,
}
use openyanase_kernel.Base.Int.{ℤ, pos, negsuc, ◌+ℤ◌, ◌-ℤ◌, ltb_ℤ, pos_part}
use native.Mathlib.Decide.{ℕ_discrete}
use openyanase_kernel.Base.Loops.{for_loop-outside, for_loop-inside}
use openyanase_kernel.Graphics.{
  Vesa, memcpy, update_row, first_column, columns, outside, vesa_update_region,
}
use openyanase_kernel.Graphics.Copy.{memcpy_inside, memcpy_outside}

-- The columns of the region that has `w` columns from `x` on.
abbrev pub has : ℤ → ℤ → ℕ → Bool
has x w a = not (ltb_ℤ (pos a) x) && ltb_ℤ (pos a) (x +ℤ w)

-- The columns that are copied are those of the region on the screen.
columns_some : (x w : ℤ) (a : ℕ) → a < 800 → has x w a ≡ true → ltb_ℤ (pos 0) (columns x w) ≡ true
unfolding columns first_column
columns_some (pos x) (pos w) a ha h = ground arith
columns_some (pos x) (negsuc w) a ha h = ground arith
columns_some (negsuc x) (pos w) a ha h = ground arith
columns_some (negsuc x) (negsuc w) a ha h = ground arith

columns_from : (x w : ℤ) (a : ℕ) → a < 800 → has x w a ≡ true → pos_part (first_column x) ≤ a
unfolding columns first_column
columns_from (pos x) (pos w) a ha h = ground arith
columns_from (pos x) (negsuc w) a ha h = ground arith
columns_from (negsuc x) (pos w) a ha h = ground arith
columns_from (negsuc x) (negsuc w) a ha h = ground arith

columns_to :
    (x w : ℤ) (a : ℕ)
    → a < 800
    → has x w a ≡ true
    → a < pos_part (first_column x) + pos_part (columns x w)
unfolding columns first_column
columns_to (pos x) (pos w) a ha h = ground arith
columns_to (pos x) (negsuc w) a ha h = ground arith
columns_to (negsuc x) (pos w) a ha h = ground arith
columns_to (negsuc x) (negsuc w) a ha h = ground arith

columns_miss :
    (x w : ℤ) (a : ℕ)
    → a < 800
    → has x w a ≡ false
    → ltb_ℤ (pos 0) (columns x w) ≡ true
    → (a < pos_part (first_column x)) ⊎ (pos_part (first_column x) + pos_part (columns x w) ≤ a)
unfolding columns first_column
columns_miss (pos x) (pos w) a ha h some_left = ground arith
columns_miss (pos x) (negsuc w) a ha h some_left = ground arith
columns_miss (negsuc x) (pos w) a ha h some_left = ground arith
columns_miss (negsuc x) (negsuc w) a ha h some_left = ground arith

columns_fit :
    (x w : ℤ)
    → ltb_ℤ (pos 0) (columns x w) ≡ true
    → pos_part (first_column x) + pos_part (columns x w) ≤ 800
unfolding columns first_column
columns_fit (pos x) (pos w) some_left = ground arith
columns_fit (pos x) (negsuc w) some_left = ground arith
columns_fit (negsuc x) (pos w) some_left = ground arith
columns_fit (negsuc x) (negsuc w) some_left = ground arith

-- One row: a pixel of that row in those columns is copied.
row_hit :
    (x w : ℤ) (s : Vesa) (a b : ℕ)
    → a < 800
    → b < 600
    → has x w a ≡ true
    → (update_row x w (pos b) s).vesa_mem (b * 800 + a) ≡ s.back_buffer (b * 800 + a)
unfolding update_row
row_hit x w s a b ha hb h =
    rw (on, columns_some x w a ha h)
      (subst (λ k. memcpy n s.vesa_mem at s.back_buffer at k ≡ s.back_buffer k)
        {x = at + (a - first)} {y = b * 800 + a} (omega (arith, columns_from x w a ha h))
        (memcpy_inside n s.vesa_mem at s.back_buffer at (a - first)
          (omega (arith, columns_to x w a ha h, columns_from x w a ha h))))
  where
    first : ℕ
    first = pos_part (first_column x)

    n : ℕ
    n = pos_part (columns x w)

    at : ℕ
    at = b * 800 + first

    on : outside 600 (pos b) ≡ false
    on = ground arith

row_miss :
    (x w row : ℤ) (s : Vesa) (a b : ℕ)
    → a < 800
    → (row ≢ pos b) ⊎ (has x w a ≡ false)
    → (update_row x w row s).vesa_mem (b * 800 + a) ≡ s.vesa_mem (b * 800 + a)
unfolding update_row
row_miss x w row s a b ha h =
    elim (Bool-cases (outside 600 row || not (ltb_ℤ (pos 0) (columns x w)))) [
      | inl skipped ↦ rw skipped refl
      | inr copied ↦ rw copied (
          memcpy_outside (pos_part (columns x w)) s.vesa_mem at s.back_buffer at (b * 800 + a)
            (apart h (right copied) (not_negative copied)))
    ]
  where
    at : ℕ
    at = pos_part row * 800 + pos_part (first_column x)

    right :
        (outside 600 row || not (ltb_ℤ (pos 0) (columns x w))) ≡ false
        → ltb_ℤ (pos 0) (columns x w) ≡ true
    right copied = ground arith

    not_negative :
        (outside 600 row || not (ltb_ℤ (pos 0) (columns x w))) ≡ false → pos (pos_part row) ≡ row
    not_negative copied = ground arith

    apart :
        (row ≢ pos b) ⊎ (has x w a ≡ false)
        → ltb_ℤ (pos 0) (columns x w) ≡ true
        → pos (pos_part row) ≡ row
        → (b * 800 + a < at) ⊎ (at + pos_part (columns x w) ≤ b * 800 + a)
    apart (inl other) some_left real = elim (ℕ_discrete (pos_part row) b) [
      | yes e ↦ absurd (other (sym real ∙ ap pos e))
      | no ne ↦ omega (arith, columns_fit x w some_left)
    ]
    apart (inr out) some_left real = elim (ℕ_discrete (pos_part row) b) [
      | yes e ↦ omega (arith, columns_miss x w a ha out some_left)
      | no ne ↦ omega (arith, columns_fit x w some_left)
    ]

-- The rows of the loop are those of the region.
not_row : (y h : ℤ) (b j : ℕ) → has y h b ≡ false → j < 0 + pos_part h → y +ℤ pos j ≢ pos b
not_row (pos y) (pos h) b j out lt = ground arith
not_row (pos y) (negsuc h) b j out lt = ground arith
not_row (negsuc y) (pos h) b j out lt = ground arith
not_row (negsuc y) (negsuc h) b j out lt = ground arith

abbrev round_of : ℤ → ℕ → ℕ
round_of y b = pos_part (pos b -ℤ y)

row_of_round : (y h : ℤ) (b : ℕ) → has y h b ≡ true → y +ℤ pos (round_of y b) ≡ pos b
row_of_round (pos y) (pos h) b inside = ground arith
row_of_round (pos y) (negsuc h) b inside = ground arith
row_of_round (negsuc y) (pos h) b inside = ground arith
row_of_round (negsuc y) (negsuc h) b inside = ground arith

round_in : (y h : ℤ) (b : ℕ) → has y h b ≡ true → round_of y b < 0 + pos_part h
round_in (pos y) (pos h) b inside = ground arith
round_in (pos y) (negsuc h) b inside = ground arith
round_in (negsuc y) (pos h) b inside = ground arith
round_in (negsuc y) (negsuc h) b inside = ground arith

only_round : (y h : ℤ) (b j : ℕ) → has y h b ≡ true → j ≢ round_of y b → y +ℤ pos j ≢ pos b
only_round (pos y) (pos h) b j inside ne = ground arith
only_round (pos y) (negsuc h) b j inside ne = ground arith
only_round (negsuc y) (pos h) b j inside ne = ground arith
only_round (negsuc y) (negsuc h) b j inside ne = ground arith

row_keeps :
    (x w row : ℤ) (s t : Vesa)
    → t.back_buffer ≡ s.back_buffer
    → (update_row x w row t).back_buffer ≡ s.back_buffer
unfolding update_row
row_keeps x w row s t q = elim (Bool-cases (outside 600 row || not (ltb_ℤ (pos 0) (columns x w)))) [
  | inl skipped ↦ rw skipped q
  | inr copied ↦ rw copied q
]

-- `vesa_update_region` copies exactly the pixels of the region that lie on the screen, whatever the
-- signs of its place and size are; the other pixels of the screen stay.
pub update_region-shown :
    (x y w h : ℤ) (s : Vesa) (a b : ℕ)
    → a < 800
    → b < 600
    → (vesa_update_region x y w h s).vesa_mem (b * 800 + a)
      ≡ (if has x w a && has y h b then s.back_buffer (b * 800 + a) else s.vesa_mem (b * 800 + a))
unfolding vesa_update_region
update_region-shown x y w h s a b ha hb = elim (Bool-cases (has x w a)) [
  | inr left ↦ rw left (
      for_loop-outside (λ t. t.vesa_mem (b * 800 + a)) _ (λ t. Unit {0}) (λ j t p. tt) (pos_part h)
        0 s tt (λ j t p lo hi. row_miss x w (y +ℤ pos j) t a b ha (inr left)))
  | inl column ↦ elim (Bool-cases (has y h b)) [
    | inr above ↦
        rw (column, above)
          (for_loop-outside (λ t. t.vesa_mem (b * 800 + a)) _ (λ t. Unit {0}) (λ j t p. tt)
            (pos_part h) 0 s tt
            (λ j t p lo hi. row_miss x w (y +ℤ pos j) t a b ha (inl (not_row y h b j above hi))))
    | inl row ↦
        rw (column, row)
          (for_loop-inside (λ t. t.vesa_mem (b * 800 + a)) _ (λ t. t.back_buffer ≡ s.back_buffer)
            (λ j t q. row_keeps x w (y +ℤ pos j) s t q) (round_of y b) (s.back_buffer (b * 800 + a))
            (pos_part h) 0 s (omega arith) (round_in y h b row) refl
            (λ t q.
              subst (λ r. (update_row x w r t).vesa_mem (b * 800 + a) ≡ s.back_buffer (b * 800 + a))
                (sym (row_of_round y h b row))
                (row_hit x w t a b ha hb column ∙ ap (λ f. f (b * 800 + a)) q))
            (λ j t q lt ne. row_miss x w (y +ℤ pos j) t a b ha (inl (only_round y h b j row ne))))
  ]
]
