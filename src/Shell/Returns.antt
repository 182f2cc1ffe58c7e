-- ===== src/Shell/Returns.antt =====
-- Every command of src/main.c gets through its loops over the line.
use openyanase_kernel.Base.{
  ℕ, zero, suc, ◌+◌, ◌-◌, ◌≤◌, ◌<◌, ◌≡◌, ◌≢◌, refl, ap, sym, ◌∙◌, true, ◌⊎◌, Option, none, some,
  List, [], ◌∷◌, length, get_or, ◌==◌, Bool-cases, inl, inr, arith,
}
use native.Mathlib.Decide.{dec_lt, ℕ_discrete}
use Prim.Native.String.{String}
use openyanase_kernel.Base.Text.{codes}
use openyanase_kernel.Str.{CString}
use openyanase_kernel.Str.Compare.{Agree}
use openyanase_kernel.Initrd.Archive.{same_iff}
use openyanase_kernel.Config.{text}
use openyanase_kernel.Shell.{
  Call, puts, Ending, returned, endless, returning, behind, view, startx, Files, from, skip_spaces,
  count, line_fuel, starts, cat, java, imgview, dispatch, execute_command,
}

skip_spaces-stop :
    (fuel : ℕ) (s : CString) (i t : ℕ)
    → s t ≡ 0
    → i ≤ t
    → t - i < fuel
    → (r : ℕ) × (skip_spaces fuel s i ≡ some r) × (i ≤ r) × (r ≤ t)
unfolding skip_spaces
skip_spaces-stop zero s i t z le lt = absurd (omega arith)
skip_spaces-stop (suc fuel) s i t z le lt = elim (Bool-cases (s i == b' ')) [
  | inr other ↦ (i, rw other refl, omega arith, le)
  | inl space ↦
      let before : i ≢ t = λ e. absurd (ground (arith, ap s e)) in
      let rest = skip_spaces-stop fuel s (i + 1) t z (omega arith) (omega arith) in
      (rest.0, rw space rest.1, omega arith, rest.3)
]

count-stop :
    (fuel : ℕ) (s : CString) (i t : ℕ)
    → s t ≡ 0
    → i ≤ t
    → t - i < fuel
    → (r : ℕ) × (count fuel s i ≡ some r)
unfolding count
count-stop zero s i t z le lt = absurd (omega arith)
count-stop (suc fuel) s i t z le lt = elim (Bool-cases (s i == 0)) [
  | inl end ↦ (i, rw end refl)
  | inr more ↦
      let before : i ≢ t = λ e. absurd (ground (arith, ap s e)) in
      let rest = count-stop fuel s (i + 1) t z (omega arith) (omega arith) in
      (rest.0, rw more rest.1)
]

-- A string that starts with a word of `n` characters does not end before them.
Agree-nonzero :
    (n : ℕ) (s w : CString)
    → Agree n s w
    → ((j : ℕ) → j < n → w j ≢ 0)
    → (i : ℕ) → i ≤ n
    → (j : ℕ) → j < i
    → s j ≢ 0
Agree-nonzero n s w h full zero le j lt = absurd (omega arith)
Agree-nonzero n s w h full (suc i) le j lt = elim (ℕ_discrete j i) [
  | no ne ↦ Agree-nonzero n s w h full i (omega arith) j (omega arith)
  | yes e ↦ λ z.
      full i (omega arith)
        (sym (h i (omega arith) (Agree-nonzero n s w h full i (omega arith))) ∙ ap s (sym e) ∙ z)
]

-- The shell's words have no zero among their characters.
abbrev Nonzero : List ℕ → Type 0
Nonzero [] = Unit {0}
Nonzero (c ∷ cs) = (c ≢ 0) × Nonzero cs

Nonzero-get_or : (cs : List ℕ) → Nonzero cs → (j : ℕ) → j < length cs → get_or cs j 0 ≢ 0
Nonzero-get_or [] h j lt = absurd (omega arith)
Nonzero-get_or (c ∷ cs) h zero lt = h.0
Nonzero-get_or (c ∷ cs) h (suc j) lt = Nonzero-get_or cs h.1 j (omega arith)

starts-length :
    (s : CString) (word : String) (t : ℕ)
    → starts s word ≡ true
    → Nonzero (codes word)
    → s t ≡ 0
    → length (codes word) ≤ t
unfolding starts
starts-length s word t h full z = elim (dec_lt t (length (codes word))) [
  | no past ↦ omega arith
  | yes inside ↦ absurd (
      Agree-nonzero (length (codes word)) s (text (codes word))
        ((same_iff s (text (codes word)) (length (codes word))).0 h)
        (Nonzero-get_or (codes word) full) (length (codes word)) (omega arith) t inside z)
]

-- The commands that do not come back.
pub data Stays (s : CString) : Type 0 where
  views : starts s "imgview " ≡ true → Stays s
  starts_graphics : starts s "startx" ≡ true → Stays s
  shuts_down : starts s "shutdown" ≡ true → Stays s

-- A command comes back, unless it is one of these.
abbrev pub Ends : CString → Option Ending → Type 0
Ends s m =
    ((calls : List Call) × (m ≡ some (returned calls)))
    ⊎ ((calls : List Call) × (m ≡ some (endless calls)) × Stays s)

view-Ends :
    (f : Files) (s path : CString) (file : Option (ℕ × ℕ))
    → starts s "imgview " ≡ true
    → Ends s (some (view f path file))
unfolding view
view-Ends f s path (some (address, size)) h = inr (_, refl, views h)
view-Ends f s path none h = inl (_, refl)

-- The line ends within the 256 characters of the buffer.
module _ (f : Files) (s : CString) (t : ℕ) (end : s t ≡ 0) (fits : t < 256) where
  skipped : (i : ℕ) → i ≤ t → (r : ℕ) × (skip_spaces line_fuel s i ≡ some r) × (i ≤ r) × (r ≤ t)
  skipped i le = skip_spaces-stop 256 s i t end le (omega arith)

  cat-Ends : 4 ≤ t → Ends s (returning (cat f s))
  unfolding cat
  cat-Ends le = let r = skipped 4 le in rw (r.1) (inl (_, refl))

  java-Ends : 5 ≤ t → Ends s (returning (java f s))
  unfolding java
  java-Ends le =
      let r = skipped 5 le in
      let c =
        count-stop 256 (from r.0 s) 0 (t - r.0)
          (ap s {x = r.0 + (t - r.0)} {y = t} (omega arith) ∙ end) (omega arith) (omega arith) in
      rw (r.1, c.1) (inl (_, refl))

  imgview-Ends : 8 ≤ t → starts s "imgview " ≡ true → Ends s (imgview f s)
  unfolding imgview
  imgview-Ends le h =
      let r = skipped 8 le in
      rw (r.1) (view-Ends f s (from r.0 s) (f.initrd_read_file (from r.0 s)) h)

  dispatch-Ends : Ends s (dispatch f s)
  unfolding dispatch startx
  dispatch-Ends = elim (Bool-cases (starts s "help")) [
    | inl h ↦ rw h (inl (_, refl))
    | inr h ↦ rw h (elim (Bool-cases (starts s "ls")) [
      | inl h ↦ rw h (inl (_, refl))
      | inr h ↦ rw h (elim (Bool-cases (starts s "cat ")) [
        | inl h ↦ rw h (cat-Ends (starts-length s "cat " t h (omega arith) end))
        | inr h ↦ rw h (elim (Bool-cases (starts s "java ")) [
          | inl h ↦ rw h (java-Ends (starts-length s "java " t h (omega arith) end))
          | inr h ↦ rw h (elim (Bool-cases (starts s "imgview ")) [
            | inl h ↦ rw h (imgview-Ends (starts-length s "imgview " t h (omega arith) end) h)
            | inr h ↦ rw h (elim (Bool-cases (starts s "mem")) [
              | inl h ↦ rw h (inl (_, refl))
              | inr h ↦ rw h (elim (Bool-cases (starts s "startx")) [
                | inl x ↦ rw x (inr (_, refl, starts_graphics x))
                | inr h ↦ rw h (elim (Bool-cases (starts s "clear")) [
                  | inl h ↦ rw h (inl (_, refl))
                  | inr h ↦ rw h (elim (Bool-cases (starts s "reboot")) [
                    | inl h ↦ rw h (inl (_, refl))
                    | inr h ↦ rw h (elim (Bool-cases (starts s "shutdown")) [
                      | inl d ↦ rw d (inr (_, refl, shuts_down d))
                      | inr h ↦ rw h (elim (Bool-cases (s 0 == 0)) [
                        | inl h ↦ rw h (inl (_, refl))
                        | inr h ↦ rw h (inl (_, refl))
                      ])
                    ])
                  ])
                ])
              ])
            ])
          ])
        ])
      ])
    ])
  ]

-- The line without the spaces at its front is that of a command that does not come back.
abbrev pub Remains : CString → Type 0
Remains s = (start : ℕ) × (skip_spaces line_fuel s 0 ≡ some start) × Stays (from start s)

abbrev pub Returns : CString → Option Ending → Type 0
Returns s m =
    ((calls : List Call) × (m ≡ some (returned calls)))
    ⊎ ((calls : List Call) × (m ≡ some (endless calls)) × Remains s)

-- A line that ends within the 256 characters of the shell's buffer is executed: none of the loops
-- over it runs past its end, and the command comes back unless it is imgview, startx or shutdown.
pub execute_command-Returns :
    (f : Files) (s : CString) (t : ℕ) → s t ≡ 0 → t < 256 → Returns s (execute_command f s)
unfolding execute_command behind
execute_command-Returns f s t end fits =
    let r = skipped f s t end fits 0 (omega arith) in
    elim (dispatch-Ends f (from r.0 s) (t - r.0)
      (ap s {x = r.0 + (t - r.0)} {y = t} (omega arith) ∙ end) (omega arith)) [
        | inl (calls, e) ↦ inl (puts "\n" 0x07 ∷ calls, rw (r.1, e) refl)
        | inr (calls, e, stays) ↦ inr (puts "\n" 0x07 ∷ calls, rw (r.1, e) refl, (r.0, r.1, stays))
      ]
