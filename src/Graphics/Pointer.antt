-- ===== src/Graphics/Pointer.antt =====
-- The pointer of src/graphics/vesa.c and src/graphics/cursors.c leaves no trace.
use openyanase_kernel.Base.{
  ℕ, ◌+◌, ◌-◌, ◌*◌, ◌%◌, ◌^◌, ◌<◌, ◌≤◌, ◌≡◌, ◌≢◌, refl, ap, ap₂, ◌∙◌, Bool, true, false, ◌&&◌, ◌||◌,
  ltb, leb, ◌==◌, if◌then◌else◌, arith, ◌⊎◌, inl, inr, Bool-cases,
}
use native.Mathlib.Decide.{dec_lt}
use openyanase_kernel.Base.Int.{ℤ, pos, ◌+ℤ◌}
use openyanase_kernel.Base.Grid.{grid-keeps, grid-outside, grid-inside}
use openyanase_kernel.Graphics.{
  Vesa, vesa_put_pixel, vesa_get_pixel, as_u16, mouse_save_back, mouse_restore_back,
}
use openyanase_kernel.Graphics.Cursor.{Cursor, cursor_draw}
use openyanase_kernel.Graphics.Pixel.{Is800x600, pixel, put_pixel-pixel, put_pixel_mode}

-- The pixel is not in the square.
abbrev pub Outside : ℕ → ℕ → ℕ → ℕ → Type 0
Outside x y a b = (a < x) ⊎ (x + 16 ≤ a) ⊎ (b < y) ⊎ (y + 16 ≤ b)

-- A pixel is in the square, at a row and a column, or outside.
pub inside_or_out :
    (x y a b : ℕ)
    → ((r : ℕ) × (c : ℕ) × (r < 16) × (c < 16) × (a ≡ x + c) × (b ≡ y + r)) ⊎ Outside x y a b
inside_or_out x y a b = elim (dec_lt a x) [
  | yes left ↦ inr (omega arith)
  | no l ↦ elim (dec_lt b y) [
    | yes above ↦ inr (omega arith)
    | no u ↦ elim (dec_lt a (x + 16)) [
      | no right ↦ inr (omega arith)
      | yes v ↦ elim (dec_lt b (y + 16)) [
        | no below ↦ inr (omega arith)
        | yes w ↦ inl (b - y, a - x, omega arith, omega arith, omega arith, omega arith)
      ]
    ]
  ]
]

-- What is saved of a pixel on the screen.
saved :
    (s : Vesa) (x y r c : ℕ)
    → r < 16
    → c < 16
    → x + c < 800
    → y + r < 600
    → (mouse_save_back (pos x) (pos y) s).mouse_save_buffer (r * 16 + c) ≡ pixel s (x + c) (y + r)
unfolding mouse_save_back vesa_get_pixel
saved s x y r c hr hc sx sy =
    grid-inside 16 16 (λ t. t.mouse_save_buffer (r * 16 + c)) _ (λ t. t.back_buffer ≡ s.back_buffer)
      (λ i j t q. q) r c (pixel s (x + c) (y + r)) s hr hc refl
      (λ t q. ground (arith, ap (λ b. b ((y + r) * 800 + (x + c))) q))
      (λ i j t q hi hj ne. ground arith)

-- Where the saving leaves the picture.
pub save_keeps :
    (s : Vesa) (x y : ℤ)
    → Is800x600 s
    → ((mouse_save_back x y s).back_buffer ≡ s.back_buffer) × Is800x600 (mouse_save_back x y s)
unfolding mouse_save_back
save_keeps s x y mode =
    grid-keeps 16 16 (λ t. t) _ (λ t. (t.back_buffer ≡ s.back_buffer) × Is800x600 t)
      (λ i j t q. (q.0, record { width = q.1.width; height = q.1.height })) s (refl, mode)

-- While the pointer is drawn and taken off again, what was saved stays.
abbrev pub Keeps : Vesa → Vesa → Type 0
Keeps s t = (t.mouse_save_buffer ≡ s.mouse_save_buffer) × Is800x600 t

put-Keeps : (s t : Vesa) (x y color : ℕ) → Keeps s t → Keeps s (vesa_put_pixel t x y color)
put-Keeps s t x y color q = (same ∙ q.0, put_pixel_mode t x y color q.1)
  where
    same : (vesa_put_pixel t x y color).mouse_save_buffer ≡ t.mouse_save_buffer
    same =
        unfold vesa_put_pixel in
        (elim (Bool-cases (leb t.width x || leb t.height y)) [
          | inl off ↦ rw off refl
          | inr on ↦ rw on refl
        ])

if-Keeps : (s t u : Vesa) (test : Bool) → Keeps s t → Keeps s u → Keeps s (if test then t else u)
if-Keeps s t u true q r = q
if-Keeps s t u false q r = r

place : (x j : ℕ) → as_u16 (pos x +ℤ pos j) ≡ (x + j) % 2 ^ 16
place x j = ground arith

put_at :
    (t : Vesa) (x y i j color a b : ℕ)
    → Is800x600 t
    → a < 800
    → pixel (vesa_put_pixel t (as_u16 (pos x +ℤ pos j)) (as_u16 (pos y +ℤ pos i)) color) a b ≡ (
        if ((x + j) % 2 ^ 16 == a && (y + i) % 2 ^ 16 == b) && ltb b 600
        then color
        else pixel t a b)
put_at t x y i j color a b mode ha =
    ap₂ (λ v w. pixel (vesa_put_pixel t v w color) a b) (place x j) (place y i)
    ∙ put_pixel-pixel t ((x + j) % 2 ^ 16) ((y + i) % 2 ^ 16) color a b mode ha

-- The pixels that a round for the row `i` and the column `j` misses.
missed :
    (t : Vesa) (x y i j color a b : ℕ)
    → Is800x600 t
    → a < 800
    → ((x + j) % 2 ^ 16 == a && (y + i) % 2 ^ 16 == b) ≡ false
    → pixel (vesa_put_pixel t (as_u16 (pos x +ℤ pos j)) (as_u16 (pos y +ℤ pos i)) color) a b
      ≡ pixel t a b
missed t x y i j color a b mode ha h = put_at t x y i j color a b mode ha ∙ rw h refl

-- Drawing changes no pixel outside the square of the pointer, and not what was saved.
pub draw-Outside :
    (k : Cursor) (s : Vesa) (x y a b : ℕ)
    → Is800x600 s
    → x < 800
    → y < 600
    → a < 800
    → Outside x y a b
    → pixel (cursor_draw k (pos x) (pos y) s) a b ≡ pixel s a b
unfolding cursor_draw
draw-Outside k s x y a b mode hx hy ha out =
    grid-outside 16 16 (λ t. pixel t a b) _ (Keeps s)
      (λ i j t q. if-Keeps s t _ (k.cursor_mask (i * 16 + j) == 0) q (put-Keeps s t _ _ _ q)) s
      (refl, mode)
      (λ i j t q hi hj. elim (Bool-cases (k.cursor_mask (i * 16 + j) == 0)) [
        | inl clear ↦ rw clear refl
        | inr set ↦ rw set (missed t x y i j _ a b q.1 ha (ground arith))
      ])

pub draw-Keeps : (k : Cursor) (s : Vesa) (x y : ℤ) → Is800x600 s → Keeps s (cursor_draw k x y s)
unfolding cursor_draw
draw-Keeps k s x y mode =
    grid-keeps 16 16 (λ t. t) _ (Keeps s)
      (λ i j t q. if-Keeps s t _ (k.cursor_mask (i * 16 + j) == 0) q (put-Keeps s t _ _ _ q)) s
      (refl, mode)

-- Drawing gives a pixel of the square the colour of the pointer's picture, where the mask has it.
pub draw_inside :
    (k : Cursor) (s : Vesa) (x y r c : ℕ)
    → Is800x600 s
    → r < 16
    → c < 16
    → x + c < 800
    → y + r < 600
    → pixel (cursor_draw k (pos x) (pos y) s) (x + c) (y + r) ≡ (
        if k.cursor_mask (r * 16 + c) == 0
        then pixel s (x + c) (y + r)
        else k.cursor_pixels (r * 16 + c))
unfolding cursor_draw
draw_inside k s x y r c mode hr hc sx sy = elim (Bool-cases (k.cursor_mask (r * 16 + c) == 0)) [
  | inl clear ↦ rw clear (
      grid-outside 16 16 (λ t. pixel t (x + c) (y + r)) _ (Keeps s)
        (λ i j t q. if-Keeps s t _ (k.cursor_mask (i * 16 + j) == 0) q (put-Keeps s t _ _ _ q)) s
        (refl, mode)
        (λ i j t q hi hj. elim (Bool-cases (k.cursor_mask (i * 16 + j) == 0)) [
          | inl e ↦ rw e refl
          | inr e ↦ rw e (
              missed t x y i j _ (x + c) (y + r) q.1 sx
                (other_cell i j hi hj (differ (ap (λ d. k.cursor_mask d == 0)) clear e)))
        ]))
  | inr set ↦ rw set (
      grid-inside 16 16 (λ t. pixel t (x + c) (y + r)) _ (Keeps s)
        (λ i j t q. if-Keeps s t _ (k.cursor_mask (i * 16 + j) == 0) q (put-Keeps s t _ _ _ q)) r c
        (k.cursor_pixels (r * 16 + c)) s hr hc (refl, mode)
        (λ t q.
          rw set
            (put_at t x y r c (k.cursor_pixels (r * 16 + c)) (x + c) (y + r) q.1 sx ∙ rw hit refl))
        (λ i j t q hi hj ne. elim (Bool-cases (k.cursor_mask (i * 16 + j) == 0)) [
          | inl e ↦ rw e refl
          | inr e ↦ rw e (missed t x y i j _ (x + c) (y + r) q.1 sx (ground arith))
        ]))
]
  where
    differ : {d e : ℕ} {a b : Bool} → (d ≡ e → a ≡ b) → b ≡ true → a ≡ false → d ≢ e
    differ same t f z = cc (same z, t, f)

    other_cell :
        (i j : ℕ)
        → i < 16
        → j < 16
        → i * 16 + j ≢ r * 16 + c
        → ((x + j) % 2 ^ 16 == x + c && (y + i) % 2 ^ 16 == y + r) ≡ false
    other_cell i j hi hj ne = ground (arith, ne)

    hit : (((x + c) % 2 ^ 16 == x + c && (y + r) % 2 ^ 16 == y + r) && ltb (y + r) 600) ≡ true
    hit = ground arith

-- What is put back.
pub restore-Outside :
    (s : Vesa) (x y a b : ℕ)
    → Is800x600 s
    → x < 800
    → y < 600
    → a < 800
    → Outside x y a b
    → pixel (mouse_restore_back (pos x) (pos y) s) a b ≡ pixel s a b
unfolding mouse_restore_back
restore-Outside s x y a b mode hx hy ha out =
    grid-outside 16 16 (λ t. pixel t a b) _ (Keeps s) (λ i j t q. put-Keeps s t _ _ _ q) s
      (refl, mode) (λ i j t q hi hj. missed t x y i j _ a b q.1 ha (ground arith))

pub restore_inside :
    (s : Vesa) (x y r c : ℕ)
    → Is800x600 s
    → r < 16
    → c < 16
    → x + c < 800
    → y + r < 600
    → pixel (mouse_restore_back (pos x) (pos y) s) (x + c) (y + r)
      ≡ s.mouse_save_buffer (r * 16 + c)
unfolding mouse_restore_back
restore_inside s x y r c mode hr hc sx sy =
    grid-inside 16 16 (λ t. pixel t (x + c) (y + r)) _ (Keeps s) (λ i j t q. put-Keeps s t _ _ _ q)
      r c (s.mouse_save_buffer (r * 16 + c)) s hr hc (refl, mode)
      (λ t q.
        put_at t x y r c (t.mouse_save_buffer (r * 16 + c)) (x + c) (y + r) q.1 sx
        ∙ rw hit (ap (λ b. b (r * 16 + c)) q.0))
      (λ i j t q hi hj ne. missed t x y i j _ (x + c) (y + r) q.1 sx (ground arith))
  where
    hit : (((x + c) % 2 ^ 16 == x + c && (y + r) % 2 ^ 16 == y + r) && ltb (y + r) 600) ≡ true
    hit = ground arith

-- On the screen of 800 by 600, with the pointer's place on the screen: what lies under the pointer
-- is saved, the pointer is drawn with any picture and mask, and what was saved is put back; then
-- every pixel of the screen is as it was, also where the pointer reaches over the border.
pub restore-draw-save :
    (k : Cursor) (s : Vesa) (x y a b : ℕ)
    → Is800x600 s
    → x < 800
    → y < 600
    → a < 800
    → b < 600
    → pixel
        (mouse_restore_back
          (pos x)
          (pos y)
          (cursor_draw k (pos x) (pos y) (mouse_save_back (pos x) (pos y) s)))
        a
        b
      ≡ pixel s a b
restore-draw-save k s x y a b mode hx hy ha hb = elim (inside_or_out x y a b) [
  | inl (r, c, hr, hc, ea, eb) ↦
      rw (ea, eb)
        (restore_inside drawn x y r c kept.1 hr hc (omega arith) (omega arith)
          ∙ ap (λ f. f (r * 16 + c)) kept.0
          ∙ saved s x y r c hr hc (omega arith) (omega arith))
  | inr out ↦
      restore-Outside drawn x y a b kept.1 hx hy ha out
      ∙ draw-Outside k save x y a b under.1 hx hy ha out
      ∙ ap (λ f. f (b * 800 + a)) under.0
]
  where
    save : Vesa
    save = mouse_save_back (pos x) (pos y) s

    drawn : Vesa
    drawn = cursor_draw k (pos x) (pos y) save

    under : (save.back_buffer ≡ s.back_buffer) × Is800x600 save
    under = save_keeps s (pos x) (pos y) mode

    kept : Keeps save drawn
    kept = draw-Keeps k save (pos x) (pos y) under.1
