-- ===== src/Iso/File.antt =====
-- Looking up and reading a file by src/fs/iso9660.c, from a drive that reads its sectors.
use openyanase_kernel.Base.{
  ℕ, zero, suc, ◌+◌, ◌*◌, ◌/◌, ◌^◌, ◌≤◌, ◌<◌, ◌≡◌, refl, sym, ap, subst, ◌∙◌, List, arith, add32,
  some, ◌⊎◌, inl, inr, false, true, ltb,
}
use mathlib.Core.Path.{fun_ext}
use native.Mathlib.Decide.{dec_lt}
use openyanase_kernel.Base.Loops.{for_loop}
use openyanase_kernel.Initrd.{Memory}
use openyanase_kernel.Str.{CString}
use openyanase_kernel.Iso.Device.{with_sector}
use openyanase_kernel.Iso.{
  Search, absent, overrun, present, record_fits, find_loop, find_file_record, out_record, filename,
  found_size, iso9660_get_size, read_sectors, read_found, iso9660_read_file, extent_lba,
  data_length, root_directory_record, sector_fuel,
}
use openyanase_kernel.Iso.Records.{Records, first_match, find_loop-sector}
use openyanase_kernel.Iso.Drive.{
  IsDrive, file_bytes, with_sector-next, with_sector-none, with_sector-again, load32-with_sector,
  load32-lt, load32-copy_record,
}

module _ {D : Type 0} (read_sector : ℕ → ℕ → Memory → D → Memory × D) (disc : ℕ → ℕ → ℕ)
    (IsReady : D → Type 0) (v : IsDrive read_sector disc IsReady) (buf : ℕ) where
  -- The sector of the root directory.
  abbrev pub root_lba : ℕ
  root_lba = extent_lba (disc 16) root_directory_record

  -- The memory, with the root directory's first sector in the buffer.
  abbrev pub directory : Memory → Memory
  directory m = with_sector (disc root_lba) buf 2048 m

  read_directory :
      (m : Memory) (d : D)
      → IsReady d
      → let (m1, d1) = read_sector 16 buf m d in
        let (m2, d2) = read_sector (extent_lba m1 (buf + root_directory_record)) buf m1 d1 in
        (m2 ≡ directory m) × IsReady d2
  read_directory m d h =
      let first = v.reads 16 buf m d (omega arith) h in
      let root =
        ap (λ (m : Memory). extent_lba m (buf + root_directory_record)) first.0
        ∙ load32-with_sector (disc 16) buf m (buf + root_directory_record + 2) 158 (omega arith)
            (omega arith) in
      let second =
        v.reads root_lba buf (read_sector 16 buf m d).0 (read_sector 16 buf m d).1
          (load32-lt (disc 16) 158 (v.bytes 16)) first.1 in
      rw root (
        second.0
            ∙ ap (with_sector (disc root_lba) buf 2048) first.0
            ∙ fun_ext (λ q. with_sector-again (disc root_lba) (disc 16) buf 2048 m q),
        second.1,
      )

  find_file_record_lem :
      (path : CString) (rec m : Memory) (d : D) (os : List ℕ)
      → IsReady d
      → Records (directory m) buf 0 os
      → let (result, rec1, m1, d1) = find_file_record read_sector buf path rec m d in
        (result ≡ record_fits (directory m) buf (first_match (directory m) buf (filename path) os))
        × (rec1 ≡ out_record (directory m) buf rec result)
        × (m1 ≡ directory m)
        × IsReady d1
  unfolding find_file_record
  find_file_record_lem path rec m d os h r =
      let read = read_directory m d h in
      let searched = find_loop-sector (directory m) buf (filename path) os r in
      (
        ap (λ m. record_fits m buf (find_loop sector_fuel m buf (filename path) 0)) read.0
            ∙ ap (record_fits (directory m) buf) searched,
        ap (λ m. out_record m buf rec (searching m)) read.0
            ∙ sym (ap (λ t. out_record (directory m) buf rec (searching t)) read.0),
        read.0,
        read.1,
      )
    where
      searching : Memory → Search
      searching m = record_fits m buf (find_loop sector_fuel m buf (filename path) 0)

  read_sectors_lem :
      (lba buffer n i : ℕ) (m m1 : Memory) (d : D)
      → lba + (i + n) ≤ 2 ^ 32
      → IsReady d
      → m1 ≡ with_sector (file_bytes disc lba) buffer (i * 2048) m
      → let s =
          for_loop n i
            (λ i (s : Memory × D). read_sector (add32 lba i) (buffer + i * 2048) s.0 s.1)
            (m1, d) in
        (s.0 ≡ with_sector (file_bytes disc lba) buffer ((i + n) * 2048) m) × IsReady s.1
  unfolding for_loop
  read_sectors_lem lba buffer zero i m m1 d le h e = (
    e
        ∙ ap (λ k. with_sector (file_bytes disc lba) buffer k m) {x = i * 2048} {y = (i + 0) * 2048}
            (omega arith),
    h,
  )
  read_sectors_lem lba buffer (suc n) i m m1 d le h e =
      let one = v.reads (lba + i) (buffer + i * 2048) m1 d (omega arith) h in
      let read = read_sector (lba + i) (buffer + i * 2048) m1 d in
      let next =
        one.0
        ∙ ap (with_sector (disc (lba + i)) (buffer + i * 2048) 2048) e
        ∙ fun_ext (λ q. with_sector-next disc lba buffer i m q) in
      let rest = read_sectors_lem lba buffer n (i + 1) m read.0 read.1 (omega arith) one.1 next in
      subst
        (λ (a : ℕ).
          let s =
            for_loop n (i + 1)
              (λ i (s : Memory × D). read_sector (add32 lba i) (buffer + i * 2048) s.0 s.1)
              (read_sector a (buffer + i * 2048) m1 d) in
          (s.0 ≡ with_sector (file_bytes disc lba) buffer ((i + suc n) * 2048) m) × IsReady s.1)
        {x = lba + i} {y = add32 lba i} (omega arith)
        (
          rest.0
              ∙ ap (λ k. with_sector (file_bytes disc lba) buffer k m) {x = (i + 1 + n) * 2048}
                  {y = (i + suc n) * 2048} (omega arith),
          rest.1,
        )

  read_sectors-file_bytes :
      (lba buffer n : ℕ) (m m1 : Memory) (d : D)
      → lba + n ≤ 2 ^ 32
      → IsReady d
      → m1 ≡ m
      → ((read_sectors read_sector buf n lba buffer m1 d).0
          ≡ with_sector (file_bytes disc lba) buffer (n * 2048) m)
        × IsReady (read_sectors read_sector buf n lba buffer m1 d).1
  unfolding read_sectors
  read_sectors-file_bytes lba buffer n m m1 d fits h e =
      let l =
        read_sectors_lem lba buffer n 0 m m1 d (omega arith) h
          (e ∙ fun_ext (λ q. with_sector-none (file_bytes disc lba) buffer m q)) in
      (
        l.0
            ∙ ap (λ k. with_sector (file_bytes disc lba) buffer k m) {x = (0 + n) * 2048}
                {y = n * 2048} (omega arith),
        l.1,
      )

  -- Where no record of the sector matches, the size is 0 and there is no file: no pointer is given,
  -- the size behind `out_size` stays, and only the buffer of the directory is written.
  pub iso9660_read_file-absent :
      (path : CString) (buffer out_size : ℕ) (rec m : Memory) (d : D) (os : List ℕ)
      → IsReady d
      → Records (directory m) buf 0 os
      → first_match (directory m) buf (filename path) os ≡ absent
      → let (result, length, m1, d1) =
          iso9660_read_file read_sector buf path buffer out_size rec m d in
        ((iso9660_get_size read_sector buf path rec m d).0 ≡ some 0)
        × (result ≡ absent)
        × (length ≡ out_size)
        × (m1 ≡ directory m)
        × IsReady d1
  unfolding iso9660_read_file read_found iso9660_get_size found_size record_fits
  iso9660_read_file-absent path buffer out_size rec m d os h r miss =
      let f = find_file_record_lem path rec m d os h r in
      let there = f.0 ∙ ap (record_fits (directory m) buf) miss in
      rw there (refl, refl, refl, f.2, f.3)

  -- The file that the search finds: its record is long enough to have the fields that are read.
  module _ (path : CString) (rec m : Memory) (d : D) (os : List ℕ) (o : ℕ) (h : IsReady d)
      (r : Records (directory m) buf 0 os)
      (hit : first_match (directory m) buf (filename path) os ≡ present o)
      (long : 14 ≤ directory m (buf + o)) where
    abbrev pub size : ℕ
    size = data_length (directory m) (buf + o)

    abbrev pub lba : ℕ
    lba = extent_lba (directory m) (buf + o)

    abbrev pub record_length : ℕ
    record_length = directory m (buf + o)

    searched_short :
        record_length ≤ 34
        → record_fits (directory m) buf (first_match (directory m) buf (filename path) os)
          ≡ present o
    unfolding record_fits
    searched_short short =
        let inside : ltb 34 record_length ≡ false = ground arith in
        ap (record_fits (directory m) buf) hit ∙ rw inside refl

    searched_long :
        34 < record_length
        → record_fits (directory m) buf (first_match (directory m) buf (filename path) os) ≡ overrun
    unfolding record_fits
    searched_long longer =
        let outside : ltb 34 record_length ≡ true = ground arith in
        ap (record_fits (directory m) buf) hit ∙ rw outside refl

    -- The size of a file is that of the record which the search finds.
    pub iso9660_get_size-found :
        record_length ≤ 34 → (iso9660_get_size read_sector buf path rec m d).0 ≡ some size
    unfolding iso9660_get_size found_size out_record
    iso9660_get_size-found fits =
        let f = find_file_record_lem path rec m d os h r in
        let there = f.0 ∙ searched_short fits in
        rw (f.1, there)
          (ap some (load32-copy_record (directory m) (buf + o) rec 10 (omega arith)) ∙ refl)

    -- What reading a file of a record that fits the variable leaves: its buffer and its size; the
    -- sectors from its first one on in the buffer, whole, up to the next multiple of 2048 bytes;
    -- and nothing else in memory has changed but the buffer of the directory.
    abbrev pub IsRead : ℕ → Search × ℕ × Memory × D → Type 0
    IsRead buffer after =
        (after.0 ≡ present buffer)
        × (after.1 ≡ size)
        × (after.2
            ≡ with_sector (file_bytes disc lba) buffer ((size + 2047) / 2048 * 2048) (directory m))
        × IsReady after.3

    IsRead-short :
        (buffer out_size : ℕ)
        → size + 2047 < 2 ^ 32
        → lba + (size + 2047) / 2048 ≤ 2 ^ 32
        → record_length ≤ 34
        → IsRead buffer (iso9660_read_file read_sector buf path buffer out_size rec m d)
    unfolding iso9660_read_file read_found out_record
    IsRead-short buffer out_size word fits short =
        let f = find_file_record_lem path rec m d os h r in
        let there = f.0 ∙ searched_short short in
        let read =
          read_sectors-file_bytes lba buffer ((size + 2047) / 2048) (directory m) _ _ fits f.3
            f.2 in
        let length : add32 size 2047 ≡ size + 2047 = omega arith in
        rw
          (
            f.1,
            there,
            load32-copy_record (directory m) (buf + o) rec 10 (omega arith),
            load32-copy_record (directory m) (buf + o) rec 2 (omega arith),
          )
          (refl, refl, rw length read.0, rw length read.1)

    read_long :
        (buffer out_size : ℕ)
        → 34 < record_length
        → (iso9660_read_file read_sector buf path buffer out_size rec m d).0 ≡ overrun
    unfolding iso9660_read_file read_found
    read_long buffer out_size long_one =
        let f = find_file_record_lem path rec m d os h r in
        let there = f.0 ∙ searched_long long_one in rw there refl

    -- Reading a file whose directory record has more than 34 bytes writes the record
    -- over what stands behind the 34 bytes of a local variable.
    -- Where the record has at most 34 bytes, reading gives the buffer and the size of the file, and
    -- puts the sectors from its first one on into the buffer, whole: up to the next multiple of 2048
    -- bytes. Nothing else in memory changes then but the buffer of the directory.
    pub iso9660_read_file-file_bytes :
        (buffer out_size : ℕ)
        → size + 2047 < 2 ^ 32
        → lba + (size + 2047) / 2048 ≤ 2 ^ 32
        → let after = iso9660_read_file read_sector buf path buffer out_size rec m d in
          ((34 < record_length) × (after.0 ≡ overrun))
          ⊎ ((record_length ≤ 34) × IsRead buffer after)
    iso9660_read_file-file_bytes buffer out_size word fits = elim (dec_lt 34 record_length) [
      | yes more ↦ inl (more, read_long buffer out_size more)
      | no enough ↦ inr (omega arith, IsRead-short buffer out_size word fits (omega arith))
    ]
