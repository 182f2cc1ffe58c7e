-- ===== src/Graphics/Frame/Trace.antt =====
-- The pointer's loop of src/main.c keeps the picture and the screen.
use openyanase_kernel.Base.{
  ℕ, ◌+◌, ◌-◌, ◌*◌, true, leb, ltb, if◌then◌else◌, ◌<◌, ◌≤◌, ◌≡◌, refl, ap, sym, ◌∙◌, false, ◌&&◌,
  arith, inl, inr, Bool-cases, ◌==◌, List, [], ◌∷◌, map, All,
}
use openyanase_kernel.Base.Int.{ℤ, pos, ◌+ℤ◌, pos_part}
use openyanase_kernel.Base.Loops.{for_loop-keeps}
use openyanase_kernel.Graphics.{
  Vesa, update_row, vesa_update_region, mouse_save_back, mouse_restore_back, vesa_put_pixel,
}
use openyanase_kernel.Graphics.Cursor.{Cursor, cursor_draw}
use openyanase_kernel.Graphics.Pixel.{Is800x600, pixel, put_pixel_mode}
use openyanase_kernel.Base.Grid.{grid-keeps}
use openyanase_kernel.Graphics.Pointer.{
  Outside, inside_or_out, save_keeps, draw-Outside, draw-Keeps, draw_inside, restore-Outside,
  restore_inside, restore-draw-save,
}
use openyanase_kernel.Graphics.Region.{has, update_region-shown}
use openyanase_kernel.Graphics.Frame.{Shown, show_pointer, frame, frames}

-- All but what the monitor shows.
record Same (s t : Vesa) : Type 0 where
  back : t.back_buffer ≡ s.back_buffer
  saved : t.mouse_save_buffer ≡ s.mouse_save_buffer
  width : t.width ≡ s.width
  height : t.height ≡ s.height

row-Same : (x w row : ℤ) (s t : Vesa) → Same s t → Same s (update_row x w row t)
unfolding update_row
row-Same x w row s t q = ground arith

update_region-Same : (x y w h : ℤ) (s : Vesa) → Same s (vesa_update_region x y w h s)
unfolding vesa_update_region
update_region-Same x y w h s =
    for_loop-keeps (Same s) (λ i t. update_row x w (y +ℤ pos i) t) (pos_part h) 0 s
      (record { back = refl; saved = refl; width = refl; height = refl })
      (λ i t q. row-Same x w (y +ℤ pos i) s t q)

Same-Is800x600 : {s t : Vesa} → Same s t → Is800x600 s → Is800x600 t
Same-Is800x600 q mode = record { width = q.width ∙ mode.width; height = q.height ∙ mode.height }

-- What is put back does not depend on the monitor.
restore-Same :
    (s t : Vesa) (x y a b : ℕ)
    → Same s t
    → Is800x600 s
    → x < 800
    → y < 600
    → a < 800
    → b < 600
    → pixel (mouse_restore_back (pos x) (pos y) t) a b
      ≡ pixel (mouse_restore_back (pos x) (pos y) s) a b
restore-Same s t x y a b q mode hx hy ha hb = elim (inside_or_out x y a b) [
  | inl (r, c, hr, hc, ea, eb) ↦
      rw (ea, eb)
        (restore_inside t x y r c (Same-Is800x600 q mode) hr hc (omega arith) (omega arith)
          ∙ ap (λ f. f (r * 16 + c)) q.saved
          ∙ sym (restore_inside s x y r c mode hr hc (omega arith) (omega arith)))
  | inr out ↦
      restore-Outside t x y a b (Same-Is800x600 q mode) hx hy ha out
      ∙ ap (λ f. f (b * 800 + a)) q.back
      ∙ sym (restore-Outside s x y a b mode hx hy ha out)
]

put_shown :
    (s t : Vesa) (x y color : ℕ)
    → t.vesa_mem ≡ s.vesa_mem
    → (vesa_put_pixel t x y color).vesa_mem ≡ s.vesa_mem
unfolding vesa_put_pixel
put_shown s t x y color q = ground arith

save_shown : (s : Vesa) (x y : ℤ) → (mouse_save_back x y s).vesa_mem ≡ s.vesa_mem
unfolding mouse_save_back
save_shown s x y = grid-keeps 16 16 (λ t. t) _ (λ t. t.vesa_mem ≡ s.vesa_mem) (λ i j t q. q) s refl

restore_shown : (s : Vesa) (x y : ℤ) → (mouse_restore_back x y s).vesa_mem ≡ s.vesa_mem
unfolding mouse_restore_back
restore_shown s x y =
    grid-keeps 16 16 (λ t. t) _ (λ t. t.vesa_mem ≡ s.vesa_mem) (λ i j t q. put_shown s t _ _ _ q) s
      refl

draw_shown : (k : Cursor) (s : Vesa) (x y : ℤ) → (cursor_draw k x y s).vesa_mem ≡ s.vesa_mem
unfolding cursor_draw
draw_shown k s x y =
    grid-keeps 16 16 (λ t. t) _ (λ t. t.vesa_mem ≡ s.vesa_mem)
      (λ i j t q. elim (Bool-cases (k.cursor_mask (i * 16 + j) == 0)) [
        | inl clear ↦ rw clear q
        | inr set ↦ rw set (put_shown s t _ _ _ q)
      ])
      s refl

restore-Is800x600 : (s : Vesa) (x y : ℤ) → Is800x600 s → Is800x600 (mouse_restore_back x y s)
unfolding mouse_restore_back
restore-Is800x600 s x y mode =
    grid-keeps 16 16 (λ t. t) _ Is800x600 (λ i j t q. put_pixel_mode t _ _ _ q) s mode

-- A pixel that a region of `size` does not have is not under the pointer.
not_had :
    (x y size a b : ℕ)
    → 16 ≤ size
    → (has (pos x) (pos size) a && has (pos y) (pos size) b) ≡ false
    → Outside x y a b
not_had x y size a b le h = elim (inside_or_out x y a b) [
  | inl (r, c, hr, hc, ea, eb) ↦ absurd (ground arith)
  | inr out ↦ out
]

-- A cell of the pointer over a colour.
abbrev pub over_cell : Cursor → ℕ → ℕ → ℕ
over_cell k idx under = if k.cursor_mask idx == 0 then under else k.cursor_pixels idx

-- The pixel `(a, b)` of the picture `pic` with the pointer at `(x, y)`.
abbrev pub with_pointer : Cursor → Vesa → ℕ → ℕ → ℕ → ℕ → ℕ
with_pointer k pic x y a b =
    if (leb x a && ltb a (x + 16)) && (leb y b && ltb b (y + 16))
    then over_cell k ((b - y) * 16 + (a - x)) (pixel pic a b)
    else pixel pic a b

-- The pointer is shown at `(x, y)` over the picture `pic`: the back buffer has the picture with the
-- pointer drawn over it, taking the pointer off would leave the picture, and the monitor shows
-- every pixel of the back buffer.
pub record Over (k : Cursor) (pic : Vesa) (x y : ℕ) (s : Vesa) : Type 0 where
  pub mode : Is800x600 s
  pub drawn : (a b : ℕ) → a < 800 → b < 600 → pixel s a b ≡ with_pointer k pic x y a b
  pub under :
      (a b : ℕ)
      → a < 800
      → b < 600
      → pixel (mouse_restore_back (pos x) (pos y) s) a b ≡ pixel pic a b
  pub shown : (a b : ℕ) → a < 800 → b < 600 → s.vesa_mem (b * 800 + a) ≡ pixel s a b

with_pointer-inside :
    (k : Cursor) (pic : Vesa) (x y r c : ℕ)
    → r < 16
    → c < 16
    → with_pointer k pic x y (x + c) (y + r) ≡ over_cell k (r * 16 + c) (pixel pic (x + c) (y + r))
with_pointer-inside k pic x y r c hr hc = rw covered (
    ap (λ i. over_cell k i (pixel pic (x + c) (y + r))) {x = (y + r - y) * 16 + (x + c - x)}
      {y = r * 16 + c} (omega arith))
  where
    covered :
        ((leb x (x + c) && ltb (x + c) (x + 16)) && (leb y (y + r) && ltb (y + r) (y + 16))) ≡ true
    covered = ground arith

with_pointer-Outside :
    (k : Cursor) (pic : Vesa) (x y a b : ℕ)
    → Outside x y a b
    → with_pointer k pic x y a b ≡ pixel pic a b
with_pointer-Outside k pic x y a b out = rw clear refl
  where
    clear : ((leb x a && ltb a (x + 16)) && (leb y b && ltb b (y + 16))) ≡ false
    clear = ground (arith, out)

-- Two pictures with the same pixel.
with_pointer-same :
    (k : Cursor) (p q : Vesa) (x y a b : ℕ)
    → pixel p a b ≡ pixel q a b
    → with_pointer k p x y a b ≡ with_pointer k q x y a b
with_pointer-same k p q x y a b e =
    ap
      (λ v.
        if (leb x a && ltb a (x + 16)) && (leb y b && ltb b (y + 16))
        then over_cell k ((b - y) * 16 + (a - x)) v
        else v)
      e

-- The place is on the screen.
abbrev pub OnScreen : ℕ × ℕ → Type 0
OnScreen p = (p.0 < 800) × (p.1 < 600)

abbrev pub as_int : ℕ × ℕ → ℤ × ℤ
as_int p = (pos p.0, pos p.1)

abbrev pub last : ℕ × ℕ → List (ℕ × ℕ) → ℕ × ℕ
last p [] = p
last p (q ∷ rest) = last q rest

module _ (k : Cursor) (size : ℕ) (le : 16 ≤ size) where
  -- The pointer is drawn at a place of a clean picture.
  abbrev drawn : ℕ → ℕ → Vesa → Vesa
  drawn x y s = cursor_draw k (pos x) (pos y) (mouse_save_back (pos x) (pos y) s)

  drawn-Is800x600 : (x y : ℕ) (s : Vesa) → Is800x600 s → Is800x600 (drawn x y s)
  drawn-Is800x600 x y s mode =
      (draw-Keeps k (mouse_save_back (pos x) (pos y) s) (pos x) (pos y)
        (save_keeps s (pos x) (pos y) mode).1).1

  drawn-Outside :
      (x y a b : ℕ) (s : Vesa)
      → Is800x600 s
      → x < 800
      → y < 600
      → a < 800
      → Outside x y a b
      → pixel (drawn x y s) a b ≡ pixel s a b
  drawn-Outside x y a b s mode hx hy ha out =
      let kept = save_keeps s (pos x) (pos y) mode in
      draw-Outside k (mouse_save_back (pos x) (pos y) s) x y a b kept.1 hx hy ha out
      ∙ ap (λ f. f (b * 800 + a)) kept.0

  drawn-with_pointer :
      (x y a b : ℕ) (s : Vesa)
      → Is800x600 s
      → x < 800
      → y < 600
      → a < 800
      → b < 600
      → pixel (drawn x y s) a b ≡ with_pointer k s x y a b
  drawn-with_pointer x y a b s mode hx hy ha hb = elim (inside_or_out x y a b) [
    | inl (r, c, hr, hc, ea, eb) ↦
        let kept = save_keeps s (pos x) (pos y) mode in
        rw (ea, eb)
          (draw_inside k (mouse_save_back (pos x) (pos y) s) x y r c kept.1 hr hc (omega arith)
              (omega arith)
            ∙ ap (λ f. over_cell k (r * 16 + c) (f ((y + r) * 800 + (x + c)))) kept.0
            ∙ sym (with_pointer-inside k s x y r c hr hc))
    | inr out ↦
        drawn-Outside x y a b s mode hx hy ha out ∙ sym (with_pointer-Outside k s x y a b out)
  ]

  drawn_shown : (x y : ℕ) (s : Vesa) → (drawn x y s).vesa_mem ≡ s.vesa_mem
  drawn_shown x y s =
      draw_shown k (mouse_save_back (pos x) (pos y) s) (pos x) (pos y)
      ∙ save_shown s (pos x) (pos y)

  -- A region that is updated is shown, and what was shown before stays so.
  update-shown :
      (x y a b : ℕ) (s : Vesa)
      → a < 800
      → b < 600
      → ((has (pos x) (pos size) a && has (pos y) (pos size) b) ≡ false
          → s.vesa_mem (b * 800 + a) ≡ pixel s a b)
      → (vesa_update_region (pos x) (pos y) (pos size) (pos size) s).vesa_mem (b * 800 + a)
        ≡ pixel s a b
  update-shown x y a b s ha hb before =
      elim (Bool-cases (has (pos x) (pos size) a && has (pos y) (pos size) b)) [
        | inl e ↦ update_region-shown (pos x) (pos y) (pos size) (pos size) s a b ha hb ∙ rw e refl
        | inr e ↦
            update_region-shown (pos x) (pos y) (pos size) (pos size) s a b ha hb ∙ rw e (before e)
      ]

  show_pointer-Over :
      (x y : ℕ) (s : Vesa)
      → Is800x600 s
      → x < 800
      → y < 600
      → ((a b : ℕ) → a < 800 → b < 600 → s.vesa_mem (b * 800 + a) ≡ pixel s a b)
      → Over k s x y (show_pointer k size (pos x, pos y) s).screen
  unfolding show_pointer
  show_pointer-Over x y s mode hx hy clean =
      let same = update_region-Same (pos x) (pos y) (pos size) (pos size) (drawn x y s) in
      record {
        mode = Same-Is800x600 same (drawn-Is800x600 x y s mode);
        drawn = λ a b ha hb.
            ap (λ f. f (b * 800 + a)) same.back ∙ drawn-with_pointer x y a b s mode hx hy ha hb;
        under = λ a b ha hb.
            restore-Same (drawn x y s) _ x y a b same (drawn-Is800x600 x y s mode) hx hy ha hb
            ∙ restore-draw-save k s x y a b mode hx hy ha hb;
        shown = λ a b ha hb.
            update-shown x y a b (drawn x y s) ha hb (λ out.
              ap (λ f. f (b * 800 + a)) (drawn_shown x y s)
              ∙ clean a b ha hb
              ∙ sym (drawn-Outside x y a b s mode hx hy ha (not_had x y size a b le out)))
            ∙ sym (ap (λ f. f (b * 800 + a)) same.back);
      }

  shown_x : (x y : ℕ) (s : Vesa) → (show_pointer k size (pos x, pos y) s).last_mouse_x ≡ pos x
  unfolding show_pointer
  shown_x x y s = refl

  shown_y : (x y : ℕ) (s : Vesa) → (show_pointer k size (pos x, pos y) s).last_mouse_y ≡ pos y
  unfolding show_pointer
  shown_y x y s = refl

  frame-Over :
      (pic : Vesa) (x y nx ny : ℕ) (s : Shown)
      → x < 800
      → y < 600
      → nx < 800
      → ny < 600
      → s.last_mouse_x ≡ pos x
      → s.last_mouse_y ≡ pos y
      → Over k pic x y s.screen
      → Over k pic nx ny (frame k size (pos nx, pos ny) s).screen
  unfolding frame
  frame-Over pic x y nx ny s hx hy hnx hny ex ey v =
      let old = s.screen in
      let clean = mouse_restore_back (pos x) (pos y) old in
      let mode = restore-Is800x600 old (pos x) (pos y) v.mode in
      let d = drawn nx ny clean in
      let first = update_region-Same (pos x) (pos y) (pos size) (pos size) d in
      let u = vesa_update_region (pos x) (pos y) (pos size) (pos size) d in
      let second = update_region-Same (pos nx) (pos ny) (pos size) (pos size) u in
      let drawn_mode = drawn-Is800x600 nx ny clean mode in
      rw (ex, ey)
        (record {
          mode = Same-Is800x600 second (Same-Is800x600 first drawn_mode);
          drawn = λ a b ha hb.
              ap (λ f. f (b * 800 + a)) second.back
              ∙ ap (λ f. f (b * 800 + a)) first.back
              ∙ drawn-with_pointer nx ny a b clean mode hnx hny ha hb
              ∙ with_pointer-same k clean pic nx ny a b (v.under a b ha hb);
          under = λ a b ha hb.
              restore-Same u _ nx ny a b second (Same-Is800x600 first drawn_mode) hnx hny ha hb
              ∙ restore-Same d u nx ny a b first drawn_mode hnx hny ha hb
              ∙ restore-draw-save k clean nx ny a b mode hnx hny ha hb
              ∙ v.under a b ha hb;
          shown = λ a b ha hb.
              update-shown nx ny a b u ha hb (λ new.
                update-shown x y a b d ha hb (λ gone.
                  ap (λ f. f (b * 800 + a)) (drawn_shown nx ny clean)
                  ∙ ap (λ f. f (b * 800 + a)) (restore_shown old (pos x) (pos y))
                  ∙ v.shown a b ha hb
                  ∙ sym (restore-Outside old x y a b v.mode hx hy ha (not_had x y size a b le gone))
                  ∙ sym (
                      drawn-Outside nx ny a b clean mode hnx hny ha
                        (not_had nx ny size a b le new)))
                ∙ sym (ap (λ f. f (b * 800 + a)) first.back))
              ∙ sym (ap (λ f. f (b * 800 + a)) second.back);
        })

  frames-Over :
      (pic : Vesa) (x y : ℕ) (s : Shown) (places : List (ℕ × ℕ))
      → OnScreen (x, y)
      → All OnScreen places
      → s.last_mouse_x ≡ pos x
      → s.last_mouse_y ≡ pos y
      → Over k pic x y s.screen
      → let (nx, ny) = last (x, y) places in
        Over k pic nx ny (frames k size (map as_int places) s).screen
  unfolding frames frame
  frames-Over pic x y s [] at all ex ey v = v
  frames-Over pic x y s (p ∷ places) at all ex ey v =
      frames-Over pic p.0 p.1 (frame k size (pos p.0, pos p.1) s) places all.0 all.1 refl refl
        (frame-Over pic x y p.0 p.1 s at.0 at.1 all.0.0 all.0.1 ex ey v)

  -- From a picture that the monitor shows, wherever the mouse goes on the screen: after each round
  -- of the loop the back buffer has the picture with the pointer drawn at its last place and nowhere
  -- else, taking the pointer off would leave the picture, and the monitor shows every pixel of the
  -- back buffer.
  pub frames-show_pointer :
      (x y : ℕ) (s : Vesa) (places : List (ℕ × ℕ))
      → Is800x600 s
      → OnScreen (x, y)
      → All OnScreen places
      → ((a b : ℕ) → a < 800 → b < 600 → s.vesa_mem (b * 800 + a) ≡ pixel s a b)
      → let (nx, ny) = last (x, y) places in
        Over k s nx ny
          (frames k size (map as_int places) (show_pointer k size (pos x, pos y) s)).screen
  frames-show_pointer x y s places mode at all clean =
      frames-Over s x y (show_pointer k size (pos x, pos y) s) places at all (shown_x x y s)
        (shown_y x y s) (show_pointer-Over x y s mode at.0 at.1 clean)
