-- ===== src/Graphics/Text/Number.antt =====
-- `vesa_draw_number` of src/graphics/vesa.c writes decimal numbers.
use openyanase_kernel.Base.{
  ℕ, zero, suc, ◌+◌, ◌-◌, ◌*◌, ◌/◌, ◌%◌, ◌^◌, ◌<◌, ◌≤◌, ◌≡◌, ◌≢◌, refl, ap, ◌∙◌, true, false, not,
  ◌&&◌, List, [], ◌∷◌, ltb, leb, ◌==◌, if◌then◌else◌, arith, add32, sub32, Bool-cases, inl, inr,
  length, All, subst,
}
use native.Mathlib.Decide.{dec_lt}
use openyanase_kernel.Initrd.{Memory}
use openyanase_kernel.Graphics.{Vesa}
use openyanase_kernel.Graphics.Text.{
  Font, psf_width, vesa_draw_char, vesa_draw_string, digits_loop, digits_rounds, vesa_draw_number,
}

-- The number that a text of digits stands for, behind digits that stand for `n`.
abbrev pub read_decimal : ℕ → List ℕ → ℕ
read_decimal n [] = n
read_decimal n (d ∷ ds) = read_decimal (n * 10 + (d - b'0')) ds

abbrev pub IsDigit : ℕ → Type 0
IsDigit d = (b'0' ≤ d) × (d ≤ b'9')

-- The text is not empty and begins with no zero but the only digit.
abbrev pub Unpadded : List ℕ → Type 0
Unpadded [] = ⊥
Unpadded (d ∷ []) = Unit {0}
Unpadded (d ∷ e ∷ ds) = d ≢ b'0'

-- It does not begin with a zero at all.
abbrev Leads : List ℕ → Type 0
Leads [] = ⊥
Leads (d ∷ ds) = d ≢ b'0'

pub record IsDecimal (n : ℕ) (ds : List ℕ) : Type 0 where
  pub value : read_decimal 0 ds ≡ n
  pub digits : All IsDigit ds
  pub unpadded : Unpadded ds
  pub fits : length ds ≤ 10

abbrev tens : ℕ → ℕ
tens zero = 1
tens (suc k) = 10 * tens k

loop_end : (fuel : ℕ) (t : List ℕ) → digits_loop fuel 0 t ≡ t
unfolding digits_loop
loop_end zero t = refl
loop_end (suc fuel) t = refl

loop_step :
    (fuel n : ℕ) (t : List ℕ)
    → 0 < n
    → n < 2 ^ 31
    → digits_loop (suc fuel) n t ≡ digits_loop fuel (n / 10) ((n % 10 + b'0') ∷ t)
unfolding digits_loop
loop_step fuel n t lo hi = ground arith

-- What holds of the digits that are there and is kept by each digit that goes before them.
loop-IsDigit : (fuel n : ℕ) (t : List ℕ) → All IsDigit t → All IsDigit (digits_loop fuel n t)
unfolding digits_loop
loop-IsDigit zero n t h = h
loop-IsDigit (suc fuel) n t h =
    let rest = loop-IsDigit fuel (n / 10) ((n % 10 + b'0') ∷ t) ((omega arith, omega arith), h) in
    elim (Bool-cases (not (n == 0) && ltb n (2 ^ 31))) [
      | inl more ↦ rw more rest
      | inr done ↦ rw done h
    ]

loop-length : (fuel n : ℕ) (t : List ℕ) → length (digits_loop fuel n t) ≤ fuel + length t
unfolding digits_loop
loop-length zero n t = omega arith
loop-length (suc fuel) n t =
    let rest = loop-length fuel (n / 10) ((n % 10 + b'0') ∷ t) in
    elim (Bool-cases (not (n == 0) && ltb n (2 ^ 31))) [
      | inl more ↦ rw more (omega arith)
      | inr done ↦ rw done (omega arith)
    ]

loop-read_decimal :
    (fuel n : ℕ) (t : List ℕ)
    → n < tens fuel
    → n < 2 ^ 31
    → read_decimal 0 (digits_loop fuel n t) ≡ read_decimal n t
loop-read_decimal zero n t bound hi =
    subst (λ k. read_decimal 0 (digits_loop 0 k t) ≡ read_decimal k t) (nothing n bound)
      (ap (read_decimal 0) (loop_end 0 t))
  where
    nothing : (n : ℕ) → n < 1 → 0 ≡ n
    nothing n h = omega arith
loop-read_decimal (suc fuel) n t bound hi = elim (dec_lt 0 n) [
  | yes lo ↦
      ap (read_decimal 0) (loop_step fuel n t lo hi)
      ∙ loop-read_decimal fuel (n / 10) ((n % 10 + b'0') ∷ t) (omega arith) (omega arith)
      ∙ ap (λ k. read_decimal k t) (omega arith)
  | no end ↦
      subst (λ k. read_decimal 0 (digits_loop (suc fuel) k t) ≡ read_decimal k t) (omega arith)
        (ap (read_decimal 0) (loop_end (suc fuel) t))
]

loop-Leads :
    (fuel n : ℕ) (t : List ℕ) → 0 < n → n < tens fuel → n < 2 ^ 31 → Leads (digits_loop fuel n t)
loop-Leads zero n t lo bound hi = absurd (omega arith)
loop-Leads (suc fuel) n t lo bound hi = rw (loop_step fuel n t lo hi) (elim (dec_lt 0 (n / 10)) [
  | yes more ↦ loop-Leads fuel (n / 10) ((n % 10 + b'0') ∷ t) more (omega arith) (omega arith)
  | no last ↦ rw (none_left last, loop_end fuel ((n % 10 + b'0') ∷ t)) (λ e. omega arith)
])
  where
    none_left : ¬ (0 < n / 10) → n / 10 ≡ 0
    none_left h = omega arith

Leads-Unpadded : (ds : List ℕ) → Leads ds → Unpadded ds
Leads-Unpadded [] h = h
Leads-Unpadded (d ∷ []) h = tt
Leads-Unpadded (d ∷ e ∷ ds) h = h

digits_loop-IsDecimal : (n : ℕ) → 0 < n → n < 2 ^ 31 → IsDecimal n (digits_loop digits_rounds n [])
digits_loop-IsDecimal n lo hi = record {
  value = loop-read_decimal 10 n [] (omega arith) hi;
  digits = loop-IsDigit 10 n [] tt;
  unpadded = Leads-Unpadded (digits_loop 10 n []) (loop-Leads 10 n [] lo (omega arith) hi);
  fits = loop-length 10 n [];
}

module _ (m : Memory) (f : Font) (font x y color : ℕ) (s : Vesa) where
  -- The text as it is drawn for a number and for its negation: a zero has no sign.
  abbrev pub plain : List ℕ → Vesa
  plain text = vesa_draw_string m f font x y text color s

  abbrev pub negated : ℕ → List ℕ → Vesa
  negated n text =
      if n == 0
      then plain text
      else vesa_draw_string m f font (add32 x (psf_width m font)) y text color
          (vesa_draw_char m f x y b'-' color s)

  -- For n from 0 to 2147483647 there is a text of at most ten digits, the decimal notation of n
  -- without a zero in front of other digits: vesa_draw_number draws n as this text, and -n as a
  -- minus sign and, one place to the right, this text; -0 is 0.
  pub draw_number-IsDecimal :
      (n : ℕ)
      → n < 2 ^ 31
      → (text : List ℕ) × IsDecimal n text
        × (vesa_draw_number m f font x y n color s ≡ plain text)
        × (vesa_draw_number m f font x y (sub32 0 n) color s ≡ negated n text)
  unfolding vesa_draw_number
  draw_number-IsDecimal zero hi = (
    b'0' ∷ [],
    record {
      value = refl;
      digits = ((omega arith, omega arith), tt);
      unpadded = tt;
      fits = omega arith;
    },
    refl,
    refl,
  )
  draw_number-IsDecimal (suc k) hi = (
    digits_loop digits_rounds (suc k) [],
    digits_loop-IsDecimal (suc k) (omega arith) hi,
    rw (nonzero, below) refl,
    rw (nonzero', above, back, nonzero) refl,
  )
    where
      nonzero : (suc k == 0) ≡ false
      nonzero = ground arith

      below : leb (2 ^ 31) (suc k) ≡ false
      below = ground arith

      nonzero' : (sub32 0 (suc k) == 0) ≡ false
      nonzero' = ground arith

      above : leb (2 ^ 31) (sub32 0 (suc k)) ≡ true
      above = ground arith

      back : sub32 0 (sub32 0 (suc k)) ≡ suc k
      back = omega arith

-- The smallest number has no text but its sign.
pub smallest_number :
    (m : Memory) (f : Font) (font x y color : ℕ) (s : Vesa)
    → vesa_draw_number m f font x y (2 ^ 31) color s ≡ vesa_draw_char m f x y b'-' color s
unfolding vesa_draw_number digits_loop vesa_draw_string
smallest_number m f font x y color s = refl
