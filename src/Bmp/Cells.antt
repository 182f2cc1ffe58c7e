-- ===== src/Bmp/Cells.antt =====
-- What `bmp_parse_to_buffer` of src/graphics/bmp.c and `cursor_load_bmp` of
-- src/graphics/cursors.c put into the pointer's picture and mask.
use openyanase_kernel.Base.{
  ℕ, ◌+◌, ◌-◌, ◌*◌, ◌/◌, ◌^◌, ◌<◌, ◌≡◌, ◌≢◌, refl, ap, ◌∙◌, Bool, true, false, ◌&&◌, ◌||◌, not, ltb,
  leb, ◌==◌, if◌then◌else◌, [], get_or, add32, arith, Bool-cases, inl, inr, ◌⊎◌, sym,
}
use openyanase_kernel.Base.Grid.{grid-inside}
use openyanase_kernel.Initrd.{Memory}
use native.Mathlib.Decide.{dec_lt}
use openyanase_kernel.Graphics.Cursor.{Cursor, set_cell, load_default_cursor, default_cursor}
use openyanase_kernel.Bmp.{
  parse_cell, source, color_at, bmp_parse_to_buffer, cursor_load_bmp, bf_type, bf_off_bits,
  bi_width, bi_height, bi_bit_count, headers_size, rounds,
}

-- The mask and the colour of a cell.
abbrev pub cell : Cursor → ℕ → ℕ × ℕ
cell c idx = (c.cursor_mask idx, c.cursor_pixels idx)

-- The cell for a pixel of the file: magenta is see-through.
abbrev pub file_cell : Memory → ℕ → ℕ × ℕ
file_cell m a =
    if◌then◌else◌ {A = ℕ × ℕ} (m (a + 2) == 0xFF && m (a + 1) == 0 && m a == 0xFF) (0, 0)
      (1, color_at m a)

-- The cell of the picture that is built in: a white border, a blue inside.
abbrev pub default_cell : ℕ → ℕ × ℕ
default_cell v =
    if◌then◌else◌ {A = ℕ × ℕ} (v == 1) (1, 0xFFFFFF)
      (if◌then◌else◌ {A = ℕ × ℕ} (v == 2) (1, 0x1E90FF) (0, 0))

row_after : (w x z y d : ℕ) → x < w → y * w + x ≢ (y + 1 + d) * w + z
row_after w x z y d lt e = absurd (grind arith)

row_before : (w x z y y' : ℕ) → x < w → y < y' → y * w + x ≢ y' * w + z
row_before w x z y y' hx lt e =
    row_after w x z y (y' - (y + 1)) hx (e ∙ ap (λ v. v * w + z) (omega arith))

-- The places of the output are all different.
index_ne : (w x z y y' : ℕ) → x < w → z < w → (y ≢ y') ⊎ (x ≢ z) → y' * w + z ≢ y * w + x
index_ne w x z y y' hx hz ne e = elim (dec_lt y y') [
  | yes after ↦ row_before w x z y y' hx after (sym e)
  | no l ↦ elim (dec_lt y' y) [
    | yes before ↦ row_before w z x y' y hz before e
    | no u ↦ same (omega arith) e ne
  ]
]
  where
    same : y ≡ y' → y' * w + z ≡ y * w + x → (y ≢ y') ⊎ (x ≢ z) → ⊥
    same eq e ne = ground (arith, ap (λ v. v * w) eq)

parse_cell-here :
    (m : Memory) (a idx : ℕ) (c : Cursor) → cell (parse_cell m a idx c) idx ≡ file_cell m a
unfolding parse_cell set_cell
parse_cell-here m a idx c = ground arith

parse_cell-other :
    (m : Memory) (a idx k : ℕ) (c : Cursor) → k ≢ idx → cell (parse_cell m a idx c) k ≡ cell c k
unfolding parse_cell set_cell
parse_cell-other m a idx k c ne = ground arith

-- The test of `bmp_parse_to_buffer`, of a file that is taken.
abbrev pub accepts : Memory → ℕ → ℕ → ℕ → ℕ → Bool
accepts m data_at size w h =
    not (data_at == 0)
    && leb headers_size size
    && bf_type m data_at == 0x4D42
    && bi_width m data_at == w
    && bi_height m data_at == h
    && leb 24 (bi_bit_count m data_at)

-- The place of the pixel in the row `r` and the column `x` of a file that is taken.
abbrev pub file_pixel : Memory → ℕ → ℕ → ℕ → ℕ → ℕ → ℕ
file_pixel m data_at w h r x =
    source (add32 data_at (bf_off_bits m data_at)) w h (bi_bit_count m data_at / 8) r x

refuses_accepts :
    (m : Memory) (data_at size w h : ℕ)
    → (data_at == 0
        || ltb size headers_size
        || not (bf_type m data_at == 0x4D42)
        || not (bi_width m data_at == w)
        || not (bi_height m data_at == h)
        || ltb (bi_bit_count m data_at / 8) 3)
      ≡ not (accepts m data_at size w h)
refuses_accepts m data_at size w h = ground arith

rounds_lem : (v : ℕ) → v < 2 ^ 31 → rounds v ≡ v
rounds_lem v h = ground arith

-- A file that is taken fills the cells with its rows from the bottom to the top.
parse_to_buffer_file :
    (m : Memory) (data_at size w h : ℕ) (c : Cursor) (r x : ℕ)
    → accepts m data_at size w h ≡ true
    → w < 2 ^ 31
    → h < 2 ^ 31
    → r < h
    → x < w
    → ((bmp_parse_to_buffer m data_at size w h c).0 ≡ true)
      × (cell (bmp_parse_to_buffer m data_at size w h c).1 (r * w + x)
          ≡ file_cell m (file_pixel m data_at w h r x))
unfolding bmp_parse_to_buffer
parse_to_buffer_file m data_at size w h c r x ok hw hh hr hx =
    rw (refuses_accepts m data_at size w h, ok, wide, high, rounds_lem w hw, rounds_lem h hh)
      (
        refl,
        grid-inside h w (λ k. cell k (r * w + x)) _ (λ k. Unit {0}) (λ i j k q. tt) r x
            (file_cell m (file_pixel m data_at w h r x)) c hr hx tt
            (λ k q. parse_cell-here m (file_pixel m data_at w h r x) (r * w + x) k)
            (λ i j k q hi hj ne.
              parse_cell-other m (file_pixel m data_at w h i j) (i * w + j) (r * w + x) k
                (index_ne w j x i r hj hx ne)),
      )
  where
    wide : bi_width m data_at ≡ w
    wide = ground (arith, ok)

    high : bi_height m data_at ≡ h
    high = ground (arith, ok)

-- A file that is not taken changes nothing.
parse_to_buffer_other :
    (m : Memory) (data_at size w h : ℕ) (c : Cursor)
    → accepts m data_at size w h ≡ false
    → bmp_parse_to_buffer m data_at size w h c ≡ (false, c)
unfolding bmp_parse_to_buffer
parse_to_buffer_other m data_at size w h c other =
    rw (refuses_accepts m data_at size w h, other) refl

abbrev round_cell : (v idx : ℕ) (c : Cursor) → Cursor
round_cell v idx c =
    if v == 1
    then set_cell idx 1 0xFFFFFF c
    else if v == 2
    then set_cell idx 1 0x1E90FF c
    else set_cell idx 0 0 c

round_cell-here : (v idx : ℕ) (c : Cursor) → cell (round_cell v idx c) idx ≡ default_cell v
unfolding set_cell
round_cell-here v idx c = ground arith

round_cell-other : (v idx k : ℕ) (c : Cursor) → k ≢ idx → cell (round_cell v idx c) k ≡ cell c k
unfolding set_cell
round_cell-other v idx k c ne = ground arith

load_default_cursor-cell :
    (c : Cursor) (r x : ℕ)
    → r < 16
    → x < 16
    → cell (load_default_cursor c) (r * 16 + x)
      ≡ default_cell (get_or (get_or default_cursor r []) x 0)
unfolding load_default_cursor
load_default_cursor-cell c r x hr hx =
    grid-inside 16 16 (λ k. cell k (r * 16 + x)) _ (λ k. Unit {0}) (λ i j k q. tt) r x _ c hr hx tt
      (λ k q. round_cell-here (get_or (get_or default_cursor r []) x 0) (r * 16 + x) k)
      (λ i j k q hi hj ne.
        round_cell-other (get_or (get_or default_cursor i []) j 0) (i * 16 + j) (r * 16 + x) k
          (omega arith))

abbrev pub default_shape : ℕ → ℕ → ℕ
default_shape r x = get_or (get_or default_cursor r []) x 0

-- After cursor_load_bmp each of the 16 by 16 cells of the pointer, whatever it was before, has the
-- mask and the colour of the file's pixel in the same column and the row counted from the
-- bottom, with pure magenta see-through, when the file is there, is long enough for its headers,
-- begins with the letters BM and has 16 columns, 16 rows and at least 24 bits for a pixel;
-- otherwise it has those of the picture that is built in.
pub cursor_load_bmp-cell :
    (m : Memory) (data_at size : ℕ) (c : Cursor) (r x : ℕ)
    → r < 16
    → x < 16
    → cell (cursor_load_bmp m data_at size c) (r * 16 + x)
      ≡ if◌then◌else◌ {A = ℕ × ℕ}
          (accepts m data_at size 16 16)
          (file_cell m (file_pixel m data_at 16 16 r x))
          (default_cell (default_shape r x))
unfolding cursor_load_bmp
cursor_load_bmp-cell m data_at size c r x hr hx = elim (Bool-cases (accepts m data_at size 16 16)) [
  | inl ok ↦ rw ok (taken ok)
  | inr other ↦
      rw (other, parse_to_buffer_other m data_at size 16 16 c other)
        (load_default_cursor-cell c r x hr hx)
]
  where
    taken :
        accepts m data_at size 16 16 ≡ true
        → cell (cursor_load_bmp m data_at size c) (r * 16 + x)
          ≡ file_cell m (file_pixel m data_at 16 16 r x)
    taken ok =
        let file =
          parse_to_buffer_file m data_at size 16 16 c r x ok (omega arith) (omega arith) hr hx in
        rw file.0 file.1
