-- ===== src/Iso/Listing.antt =====
-- What `iso_list_directory` of src/fs/iso9660.c prints.
use openyanase_kernel.Base.{
  ℕ, zero, suc, ◌+◌, ◌-◌, ◌/◌, ◌^◌, ◌≤◌, ◌<◌, ◌≡◌, refl, ap, ◌∙◌, Bool, true, false, ◌||◌, ◌&&◌,
  not, List, [], ◌∷◌, ◌++◌, ◌==◌, if◌then◌else◌, arith, add32, some, Option,
}
use mathlib.Core.Path.{fun_ext}
use mathlib.Core.Option
use native.Mathlib.Nat.{add_assoc}
use openyanase_kernel.Initrd.{Memory, load32}
use openyanase_kernel.Iso.Device.{with_sector}
use openyanase_kernel.Iso.{
  Print, puts, print_record, list_loop, print_then, list_sectors, iso_list_directory, extent_lba,
  data_length, root_directory_record, sector_fuel,
}
use openyanase_kernel.Iso.Records.{Records, sector_end, no_more, record_at, sector-Records}
use openyanase_kernel.Iso.Drive.{IsDrive, with_sector-again, with_sector-inside, load32-with_sector}

-- A line for each record.
unfoldable pub print_records : Memory → ℕ → List ℕ → List Print
print_records m buf [] = []
print_records m buf (o ∷ os) = print_record m (buf + o) ++ print_records m buf os

list_loop-print_records :
    (fuel : ℕ) (m : Memory) (buf o : ℕ) (os : List ℕ)
    → 2048 - o < fuel
    → Records m buf o os
    → list_loop fuel m buf o ≡ some (print_records m buf os)
unfolding list_loop print_records
list_loop-print_records zero m buf o os lt r = absurd (omega arith)
list_loop-print_records (suc fuel) m buf o [] lt (sector_end _ hi) = ground arith
list_loop-print_records (suc fuel) m buf o [] lt (no_more _ lo z) = ground arith
list_loop-print_records (suc fuel) m buf o (_ ∷ os) lt (record_at _ _ lo nz r) =
    let rest = list_loop-print_records fuel m buf (o + m (buf + o)) os (omega arith) r in
    ground (arith, ap (Option.map (λ out. print_record m (buf + o) ++ out)) rest)

-- Three tests, of which the first that fails leaves.
checked :
    {A S T : Type 0} (a b c : Bool) (error out : A) (s : S) (t : T) (x : Option A × S × T)
    → x.0 ≡ some out
    → (if not a || not b || not c then (some error, s, t) else x).0
      ≡ some (if a && b && c then out else error)
checked true true true error out s t x e = e
checked true true false error out s t x e = refl
checked true false c error out s t x e = refl
checked false b c error out s t x e = refl

module _ {D : Type 0} (read_sector : ℕ → ℕ → Memory → D → Memory × D) (disc : ℕ → ℕ → ℕ)
    (IsReady : D → Type 0) (v : IsDrive read_sector disc IsReady) (buf : ℕ) (m : Memory) where
  -- The memory while the sector `lba` is listed.
  abbrev pub sector_memory : ℕ → Memory
  sector_memory lba = with_sector (disc lba) buf 2048 m

  -- The lines of all the records of `n` sectors, in order.
  unfoldable pub print_sectors : ℕ → ℕ → List Print
  print_sectors zero lba = []
  print_sectors (suc n) lba =
      let m1 = sector_memory lba in
      print_records m1 buf (sector-Records m1 buf).0 ++ print_sectors n (lba + 1)

  same_sector :
      (lba lba1 : ℕ) → with_sector (disc lba) buf 2048 (sector_memory lba1) ≡ sector_memory lba
  same_sector lba lba1 = fun_ext (λ q. with_sector-again (disc lba) (disc lba1) buf 2048 m q)

  list_sectors-print_sectors :
      (n s lba : ℕ) (m1 : Memory) (d : D)
      → lba + (s + n) ≤ 2 ^ 32
      → IsReady d
      → ((lba : ℕ) → with_sector (disc lba) buf 2048 m1 ≡ sector_memory lba)
      → (list_sectors read_sector buf n s lba m1 d).0 ≡ some (print_sectors n (lba + s))
  unfolding list_sectors print_sectors print_then
  list_sectors-print_sectors zero s lba m1 d fits h same = refl
  list_sectors-print_sectors (suc n) s lba m1 d fits h same =
      let one = v.reads (lba + s) buf m1 d (omega arith) h in
      let word : add32 lba s ≡ lba + s = omega arith in
      let here =
        list_loop-print_records sector_fuel (sector_memory (lba + s)) buf 0
          (sector-Records (sector_memory (lba + s)) buf).0 (omega arith)
          (sector-Records (sector_memory (lba + s)) buf).1 in
      let memory = one.0 ∙ same (lba + s) in
      let rest =
        list_sectors-print_sectors n (s + 1) lba (read_sector (lba + s) buf m1 d).0
          (read_sector (lba + s) buf m1 d).1 (omega arith) one.1
          (λ a. ap (with_sector (disc a) buf 2048) memory ∙ same_sector a (lba + s)) in
      rw (word, rest, memory, here, add_assoc lba s 1) refl

  -- Over a drive that gives the sectors of a volume with 'CD' in its descriptor, the command prints
  -- one line for each record of each sector of the root directory, in their order; over any other
  -- volume, the error alone.
  pub iso_list_directory-print_sectors :
      (d : D)
      → IsReady d
      → let root = extent_lba (disc 16) root_directory_record in
        let sectors = (data_length (disc 16) root_directory_record + 2047) / 2048 in
        data_length (disc 16) root_directory_record + 2047 < 2 ^ 32
        → root + sectors ≤ 2 ^ 32
        → (iso_list_directory read_sector buf m d).0
          ≡ some (
              if disc 16 0 == 1 && disc 16 1 == b'C' && disc 16 2 == b'D'
              then puts "Index of /:\n" 0x0B ∷ print_sectors sectors root
              else puts "FS Error: Invalid ISO9660 PVD\n" 0x0C ∷ [])
  unfolding iso_list_directory
  iso_list_directory-print_sectors d h word fits =
      let first = v.reads 16 buf m d (omega arith) h in
      let root = buf + root_directory_record in
      let m1 = sector_memory 16 in
      let type = with_sector-inside (disc 16) buf 2048 m buf 0 (omega arith) (omega arith) in
      let c = with_sector-inside (disc 16) buf 2048 m (buf + 1) 1 (omega arith) (omega arith) in
      let d_ = with_sector-inside (disc 16) buf 2048 m (buf + 2) 2 (omega arith) (omega arith) in
      let lba = load32-with_sector (disc 16) buf m (root + 2) 158 (omega arith) (omega arith) in
      let size = load32-with_sector (disc 16) buf m (root + 10) 166 (omega arith) (omega arith) in
      let count : add32 (load32 (disc 16) 166) 2047 ≡ load32 (disc 16) 166 + 2047 = omega arith in
      let sectors = (load32 (disc 16) 166 + 2047) / 2048 in
      let listed =
        list_sectors-print_sectors sectors 0 (load32 (disc 16) 158) m1 (read_sector 16 buf m d).1
          (omega arith) first.1 (λ a. same_sector a 16) in
      let from_root =
        ap (λ lba. some (print_sectors sectors lba)) {x = load32 (disc 16) 158 + 0}
          {y = load32 (disc 16) 158} (omega arith) in
      rw (first.0, type, c, d_, lba, size, count)
        (checked (disc 16 0 == 1) (disc 16 1 == b'C') (disc 16 2 == b'D') _ _ _ _ _
          (ap (Option.map (λ out. puts "Index of /:\n" 0x0B ∷ out)) (listed ∙ from_root)))
