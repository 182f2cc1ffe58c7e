-- ===== src/Jar/Pool.antt =====
-- `parse_constant_pool` of src/runtime/jar.c: the constants of a class file.
use openyanase_kernel.Base.{
  ℕ, zero, suc, ◌+◌, ◌*◌, ◌^◌, ◌||◌, Option, none, some, ltb, ◌==◌, if◌then◌else◌, update, bit_or,
  u16, add32,
}
use openyanase_kernel.Initrd.{Memory, at}
use openyanase_kernel.Runtime.Machine.{
  CpEntry, utf8, integer, class_ref, string_ref, method_ref, name_and_type, other,
}

-- Big-endian words.
abbrev pub be16 : Memory → ℕ → ℕ
be16 m a = bit_or (m a * 2 ^ 8) (m (a + 1))

abbrev pub be32 : Memory → ℕ → ℕ
be32 m a =
    bit_or (bit_or (bit_or (m a * 2 ^ 24) (m (a + 1) * 2 ^ 16)) (m (a + 2) * 2 ^ 8)) (m (a + 3))

-- What the `switch` makes of the constant whose tag has been read: how far it goes, how many places
-- of the pool it takes, and the entry. Nothing reads the members of the entries that are kept as
-- `other`. `none` is an unknown tag.
pub record Parsed : Type 0 where
  pub off : ℕ
  pub places : ℕ
  pub entry : CpEntry

unfoldable pub parse_entry : Memory → ℕ → ℕ → Option Parsed
parse_entry m tag off =
    if tag == 1
    then some (record {
      off = add32 (add32 off 2) (be16 m off);
      places = 1;
      entry = utf8 (at m (add32 off 2)) (be16 m off);
    })
    else if tag == 3
    then some (record { off = add32 off 4; places = 1; entry = integer (be32 m off) })
    else if tag == 4
    then some (record { off = add32 off 4; places = 1; entry = other tag })
    else if tag == 5 || tag == 6
    then some (record { off = add32 off 8; places = 2; entry = other tag })
    else if tag == 7
    then some (record { off = add32 off 2; places = 1; entry = class_ref (be16 m off) })
    else if tag == 8
    then some (record { off = add32 off 2; places = 1; entry = string_ref (be16 m off) })
    else if tag == 10
    then some (record {
      off = add32 off 4;
      places = 1;
      entry = method_ref (be16 m off) (be16 m (add32 off 2));
    })
    else if tag == 9 || tag == 11
    then some (record { off = add32 off 4; places = 1; entry = other tag })
    else if tag == 12
    then some (record {
      off = add32 off 4;
      places = 1;
      entry = name_and_type (be16 m off) (be16 m (add32 off 2));
    })
    else none

-- The loop from the place `i` on, with fuel: `none` means that the fuel ran out. At an unknown tag it
-- ends behind the tag.
unfoldable pub pool_loop : ℕ → Memory → ℕ → ℕ → ℕ → (ℕ → CpEntry) → Option (ℕ × (ℕ → CpEntry))
pool_loop zero m count i off cp = none
pool_loop (suc fuel) m count i off cp =
    let tag = m off in
    let next : Option (ℕ × (ℕ → CpEntry)) = elim (parse_entry m tag (add32 off 1)) [
      | none ↦ some (add32 off 1, update cp i (other tag))
      | some r ↦ pool_loop fuel m count (u16 (i + r.places)) r.off (update cp i r.entry)
    ] in
    if ltb i count then next else some (off, cp)

unfoldable pub parse_constant_pool : ℕ → Memory → ℕ → (ℕ → CpEntry) → Option (ℕ × (ℕ → CpEntry))
unfolding pool_loop
parse_constant_pool fuel m count cp = pool_loop fuel m count 1 0 cp
