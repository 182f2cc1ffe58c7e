-- ===== src/Iso/Tests.antt =====
-- A CD with one file, a drive that holds it, and two buses of drives, for src/fs/iso9660.c.
use openyanase_kernel.Base.{
  ℕ, ◌+◌, ◌-◌, ◌*◌, ◌%◌, ◌<◌, ◌≡◌, ◌↔◌, refl, true, ◌&&◌, some, none, List, [], ◌∷◌, ltb, ◌==◌,
  if◌then◌else◌, length, get_or, bit_and, arith, ◌<◌, ◌≤◌, ◌⊎◌, inl, inr,
}
use openyanase_kernel.Initrd.{Memory}
use openyanase_kernel.Ports.{Bus}
use openyanase_kernel.Iso.Atapi.{atapi_read_sector}
use openyanase_kernel.Iso.Device.{
  Phase, idle, asked, sending, read_packet, drq, before_word, IsAtapi, with_sector,
  atapi_read_sector-with_sector,
}
use openyanase_kernel.Iso.{
  overrun, find_loop, sector_fuel, filename, filename_match, present, puts, iso9660_read_file,
  iso_list_directory,
}
use openyanase_kernel.Iso.Names.{filename_match-prefix, stem}
use openyanase_kernel.Iso.Records.{Records, no_more, record_at, first_match, find_loop-sector}
use openyanase_kernel.Iso.Listing.{iso_list_directory-print_sectors, print_sectors}
use openyanase_kernel.Iso.Mount.{IsAtaBus, iso9660_mount, iso9660_mount-is_cd}
use openyanase_kernel.Iso.Drive.{IsDrive, atapi_read_sector-IsDrive, file_bytes}
use openyanase_kernel.Iso.File.{directory, iso9660_read_file-file_bytes}

-- The list at the address `a` of a sector of zeros.
abbrev placed : ℕ → List ℕ → Memory → Memory
placed a xs m k = if ltb k a then m k else get_or xs (k - a) (m k)

-- The volume's descriptor with the root directory at the sector 20.
abbrev descriptor : Memory
descriptor =
    placed 0 (1 ∷ b'C' ∷ b'D' ∷ b'0' ∷ b'0' ∷ b'1' ∷ 1 ∷ [])
      (placed 156 (34 ∷ 0 ∷ 20 ∷ 0 ∷ 0 ∷ 0 ∷ 0 ∷ 0 ∷ 0 ∷ 20 ∷ 0 ∷ 8 ∷ []) (λ _. 0))

-- The file `H` of three bytes, in the sector 30, whose record has 34 bytes, and the file `XI;1` of
-- three bytes in the same sector, whose record has 38.
abbrev root_sector : Memory
root_sector =
    placed 0 (34 ∷ 0 ∷ 30 ∷ 0 ∷ 0 ∷ 0 ∷ 0 ∷ 0 ∷ 0 ∷ 30 ∷ 3 ∷ 0 ∷ 0 ∷ 0 ∷ 0 ∷ 0 ∷ 0 ∷ 3 ∷ []) (
      placed 32 (1 ∷ b'H' ∷ []) (
        placed 34 (38 ∷ 0 ∷ 30 ∷ 0 ∷ 0 ∷ 0 ∷ 0 ∷ 0 ∷ 0 ∷ 30 ∷ 3 ∷ 0 ∷ 0 ∷ 0 ∷ 0 ∷ 0 ∷ 0 ∷ 3 ∷ [])
          (placed 66 (4 ∷ b'X' ∷ b'I' ∷ b';' ∷ b'1' ∷ []) (λ _. 0))))

abbrev file_sector : Memory
file_sector = placed 0 (b'h' ∷ b'i' ∷ b'!' ∷ []) (λ _. 0)

abbrev disc : ℕ → ℕ → ℕ
disc lba k =
    (if lba == 16
      then descriptor k
      else if lba == 20
      then root_sector k
      else if lba == 30
      then file_sector k
      else 0)
    % 256

-- A drive on the primary bus that is never busy: its state is its phase.
abbrev taken_word : ℕ → Phase → Phase
taken_word w (asked ws) =
    if length ws == 5
    then elim (read_packet (w ∷ ws)) [ some lba ↦ sending lba 0 | none ↦ idle ]
    else asked (w ∷ ws)
taken_word w f = f

abbrev given_word : Phase → ℕ × Phase
given_word (sending lba i) =
    (disc lba (2 * i) + 256 * disc lba (2 * i + 1), before_word lba (i + 1))
given_word f = (0, f)

abbrev cd_drive : Bus Phase
cd_drive = record {
  inb = λ port f. (drq f, f);
  inw = λ port f. given_word f;
  outb = λ port v f. if port == 0x1F7 then asked [] else f;
  outw = λ port w f. taken_word w f;
}

abbrev InPhase : Phase → ℕ → Phase → Type 0
InPhase f n d = (d ≡ f) × (n ≡ 0)

not_busy : (f : Phase) → bit_and (drq f) 0x80 ≡ 0
not_busy idle = refl
not_busy (asked ws) = refl
not_busy (sending lba i) = refl

drq_bit : (f : Phase) → bit_and (drq f) 8 ≡ drq f
drq_bit idle = refl
drq_bit (asked ws) = refl
drq_bit (sending lba i) = refl

last_word :
    (ws : List ℕ) (w lba : ℕ)
    → read_packet (w ∷ ws) ≡ some lba
    → taken_word w (asked ws) ≡ sending lba 0
last_word (w4 ∷ w3 ∷ w2 ∷ w1 ∷ w0 ∷ []) w lba h = rw h refl
last_word [] w lba h = cc
last_word (a ∷ []) w lba h = cc
last_word (a ∷ b ∷ []) w lba h = cc
last_word (a ∷ b ∷ c ∷ []) w lba h = cc
last_word (a ∷ b ∷ c ∷ d ∷ []) w lba h = cc
last_word (a ∷ b ∷ c ∷ d ∷ e ∷ f ∷ r) w lba h = cc

next_word : (ws : List ℕ) (w : ℕ) → length ws < 5 → taken_word w (asked ws) ≡ asked (w ∷ ws)
next_word ws w lt = ground arith

cd_drive-IsAtapi : IsAtapi cd_drive 0x1F0 0 disc InPhase
cd_drive-IsAtapi = record {
  ready = λ f d h. rw (h.0) (not_busy f, drq_bit f, (refl, refl));
  busy = λ f n d h. absurd (omega (arith, h.1));
  select = λ n v d h. (h.0, refl);
  features = λ v d h. h;
  count_low = λ v d h. h;
  count_high = λ v d h. h;
  command = λ d h. (refl, refl);
  word = λ ws w d h lt. rw (h.0) (next_word ws w lt, refl);
  packet = λ ws w lba d h e. rw (h.0) (last_word ws w lba e, refl);
  value = λ lba i d h lt. rw (h.0) (refl, (refl, refl));
}

cd_drive-IsDrive : IsDrive (atapi_read_sector cd_drive 0x1F0) disc (InPhase idle 0)
cd_drive-IsDrive =
    atapi_read_sector-IsDrive cd_drive 0x1F0 0 disc InPhase cd_drive-IsAtapi (omega arith)
      (λ lba k. omega arith)

abbrev memory : Memory
memory k = 7

abbrev path : List ℕ → ℕ → ℕ
path name k = get_or name k 0

abbrev in_use : Memory
in_use =
    directory (atapi_read_sector cd_drive 0x1F0) disc (InPhase idle 0) cd_drive-IsDrive 0 memory

two-Records : Records in_use 0 0 (0 ∷ 34 ∷ [])
two-Records =
    record_at 0 (34 ∷ []) (omega arith) (omega arith)
      (record_at 34 [] (omega arith) (omega arith) (no_more 72 (omega arith) refl))

read_h : first_match in_use 0 (filename (path (b'/' ∷ b'H' ∷ []))) (0 ∷ 34 ∷ []) ≡ present 0
unfolding first_match filename filename_match
read_h = refl

read_xi : first_match in_use 0 (filename (path (b'X' ∷ b'I' ∷ []))) (0 ∷ 34 ∷ []) ≡ present 34
unfolding first_match filename filename_match
read_xi = refl

find_loop-sector_example :
    find_loop sector_fuel in_use 0 (path (b'X' ∷ b'I' ∷ [])) 0
    ≡ first_match in_use 0 (path (b'X' ∷ b'I' ∷ [])) (0 ∷ 34 ∷ [])
find_loop-sector_example =
    find_loop-sector in_use 0 (path (b'X' ∷ b'I' ∷ [])) (0 ∷ 34 ∷ []) two-Records

atapi_read_sector-with_sector_example :
    ((atapi_read_sector cd_drive 0x1F0 20 0x1000 memory idle).0
      ≡ with_sector (disc 20) 0x1000 2048 memory)
    × InPhase idle 0 (atapi_read_sector cd_drive 0x1F0 20 0x1000 memory idle).1
atapi_read_sector-with_sector_example =
    atapi_read_sector-with_sector cd_drive 0x1F0 0 disc InPhase cd_drive-IsAtapi 20 0x1000 0 memory
      idle (omega arith) (omega arith) (λ k. omega arith) (refl, refl)

iso9660_read_file-file_bytes_example :
    let after =
      iso9660_read_file
        (atapi_read_sector cd_drive 0x1F0)
        0
        (path (b'/' ∷ b'H' ∷ []))
        0x1000
        9
        memory
        memory
        idle in
    ((34 < 34) × (after.0 ≡ overrun))
    ⊎ ((34 ≤ 34)
        × ((after.0 ≡ present 0x1000)
            × (after.1 ≡ 3)
            × (after.2 ≡ with_sector (file_bytes disc 30) 0x1000 2048 in_use)
            × InPhase idle 0 after.3))
iso9660_read_file-file_bytes_example =
    iso9660_read_file-file_bytes (atapi_read_sector cd_drive 0x1F0) disc (InPhase idle 0)
      cd_drive-IsDrive 0 (path (b'/' ∷ b'H' ∷ [])) memory memory idle (0 ∷ 34 ∷ []) 0 (refl, refl)
      two-Records read_h (omega arith) 0x1000 9 (omega arith) (omega arith)

-- The file with the longer record.
overrun_found :
    (iso9660_read_file
      (atapi_read_sector cd_drive 0x1F0)
      0
      (path (b'X' ∷ b'I' ∷ []))
      0x1000
      9
      memory
      memory
      idle).0
    ≡ overrun
overrun_found =
    elim (iso9660_read_file-file_bytes (atapi_read_sector cd_drive 0x1F0) disc (InPhase idle 0)
      cd_drive-IsDrive 0 (path (b'X' ∷ b'I' ∷ [])) memory memory idle (0 ∷ 34 ∷ []) 34 (refl, refl)
      two-Records read_xi (omega arith) 0x1000 9 (omega arith) (omega arith)) [
        | inl r ↦ r.1
        | inr r ↦ absurd (omega (arith, r.0))
      ]

iso_list_directory-print_sectors_example :
    (iso_list_directory (atapi_read_sector cd_drive 0x1F0) 0 memory idle).0
    ≡ some (
        puts "Index of /:\n" 0x0B
        ∷ print_sectors
            (atapi_read_sector cd_drive 0x1F0)
            disc
            (InPhase idle 0)
            cd_drive-IsDrive
            0
            memory
            1
            20)
iso_list_directory-print_sectors_example =
    iso_list_directory-print_sectors (atapi_read_sector cd_drive 0x1F0) disc (InPhase idle 0)
      cd_drive-IsDrive 0 memory idle (refl, refl) (omega arith) (omega arith)

-- Two buses on which the register that was chosen last answers; the slave on the secondary bus has
-- the signature.
abbrev low : ℕ → ℕ → ℕ
low base drive = if base == 0x170 && drive == 0xB0 then 0x14 else 0

abbrev high : ℕ → ℕ → ℕ
high base drive = if base == 0x170 && drive == 0xB0 then 0xEB else 0

abbrev ata_buses : Bus (ℕ × ℕ)
ata_buses = record {
  inb = λ port d.
      ((if port == d.0 + 4 then low d.0 d.1 else if port == d.0 + 5 then high d.0 d.1 else 0), d);
  inw = λ port d. (0, d);
  outb = λ port v d. if v == 8 then d else (port - 6, v);
  outw = λ port v d. d;
}

abbrev IsLast : ℕ → ℕ → ℕ × ℕ → Type 0
IsLast base drive d = (d.0 ≡ base) × (d.1 ≡ drive)

ata_buses-IsAtaBus : IsAtaBus ata_buses low high IsLast
ata_buses-IsAtaBus = record {
  choose = λ base drive d h. ground arith;
  status = λ base drive d h. h;
  reset = λ base drive d h. h;
  read_low = λ base drive d h. ground arith;
  read_high = λ base drive d h. ground arith;
}

iso9660_mount-is_cd_example :
    let (base, result, out, d1) = iso9660_mount ata_buses 0x1F0 (0, 0) in
    (result ≡ true) × (base ≡ 0x170)
iso9660_mount-is_cd_example =
    iso9660_mount-is_cd ata_buses low high IsLast ata_buses-IsAtaBus 0x1F0 (0, 0)

-- `HIGH` is taken for the file `HI`.
filename_match-prefix_example :
    (filename_match
        (path (b'H' ∷ b'I' ∷ b'G' ∷ b'H' ∷ []))
        (path (b'H' ∷ b'I' ∷ b';' ∷ b'1' ∷ []))
        4
      ≡ true)
    ↔ ((j : ℕ)
        → j < stem 4 0 (path (b'H' ∷ b'I' ∷ b';' ∷ b'1' ∷ []))
        → path (b'H' ∷ b'I' ∷ b'G' ∷ b'H' ∷ []) j ≡ path (b'H' ∷ b'I' ∷ b';' ∷ b'1' ∷ []) j)
filename_match-prefix_example =
    filename_match-prefix 4 (path (b'H' ∷ b'I' ∷ b'G' ∷ b'H' ∷ []))
      (path (b'H' ∷ b'I' ∷ b';' ∷ b'1' ∷ []))
