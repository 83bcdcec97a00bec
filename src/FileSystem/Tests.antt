-- ===== src/FileSystem/Tests.antt =====
-- A small disk and a small directory, and runs on them.
use ntm_os.Prelude.{
  ℕ, ◌+◌, ◌-◌, ◌*◌, ◌≤◌, ◌≡◌, ◌↔◌, refl, arith, Bool, true, false, ◌==◌, ◌&&◌, ◌||◌, leb, ltb,
  Option, if◌then◌else◌,
}
use ntm_os.Prelude.Memory.{Memory, in_range, read_word}
use ntm_os.Prelude.Run.{Run, done, ◌>>=◌}
use ntm_os.HardDisk.{read_half, is_primary}
use ntm_os.HardDisk.Drive.{disk_byte}
use ntm_os.KString.Text.{CString}
use ntm_os.FileSystem.{
  Partition, Regions, parse_mbr, partition_read, regions_of, byte_per_sector, reserved_sectors,
  number_of_fat_copies, number_of_root_entries, sectors_per_fat, large_number_of_sectors,
}
use ntm_os.FileSystem.Directory.{fat16_filename_cmp, search_entries}
use ntm_os.FileSystem.Partitions.{Parsed, parse_mbr-Parsed}
use ntm_os.FileSystem.Layout.{Contiguous, regions_of-Contiguous, partition_read-Contents}
use ntm_os.FileSystem.Names.{
  AgreeFrom, FoundIn, fat16_filename_cmp-AgreeFrom, search_entries-FoundIn,
}
use ntm_os.HardDisk.Sample.{
  test_disk, DriveState, test_device, test_drive, test_state, test_state-IsPrompt, test_memory,
}

parse_mbr-Parsed_example :
    (m' : Memory) × (d' : DriveState) × (r : Run Partition) × (parse_mbr test_device 1 4096 8192
        test_memory test_state
      ≡ (r >>= λ p. done (p, m', d')))
    × Parsed 4096 (disk_byte test_disk) r
    × ((a : ℕ) → in_range 8192 512 a ≡ false → m' a ≡ test_memory a)
unfolding read_half is_primary read_word
parse_mbr-Parsed_example =
    parse_mbr-Parsed test_device 0x1f0 true test_drive 1 4096 8192 test_memory test_state
      (test_state-IsPrompt 1) (omega arith) (omega arith) refl refl (omega arith)

abbrev test_partition : Partition
test_partition = record { hdd = 4096; type = 6; start_lba = 63; num_sectors = 100 }

partition_read-Contents_example :
    (m' : Memory) × (d' : DriveState) × (partition_read test_device 1 test_partition 8192 7 2
        test_memory test_state
      ≡ done (1024, m', d'))
    × ((a : ℕ)
        → m' a ≡ (
            if in_range 8192 1024 a
            then disk_byte test_disk (512 * 70 + (a - 8192))
            else test_memory a))
unfolding read_half is_primary read_word
partition_read-Contents_example =
    partition_read-Contents test_device 0x1f0 true test_drive 1 test_partition 8192 7 2 test_memory
      test_state (test_state-IsPrompt 2) (omega arith) (omega arith) refl refl (omega arith)
      (omega arith) (omega arith) (omega arith)

-- A boot sector at 0: 512 bytes in a sector, 1 reserved sector, 2 copies of 20 sectors, 512 entries
-- in the root directory, 0x10000 sectors.
abbrev test_boot_sector : Memory
test_boot_sector a =
    if a == 12
    then 2
    else if a == 14
    then 1
    else if a == 16
    then 2
    else if a == 18
    then 2
    else if a == 22
    then 20
    else if a == 34
    then 1
    else 0

regions_of-Contiguous_example :
    (g : Regions) × (regions_of test_boot_sector 0 ≡ done g) × Contiguous g 1 40 512 512 0x10000
unfolding byte_per_sector reserved_sectors number_of_fat_copies sectors_per_fat
    number_of_root_entries large_number_of_sectors read_half read_word
regions_of-Contiguous_example =
    regions_of-Contiguous test_boot_sector 0 (λ a. ground arith) (omega arith) (omega arith)

-- The name "ab" at 100, and entries from 200 on: the first two hold "ABC", and no more follow.
abbrev test_directory : Memory
test_directory a =
    if a == 100
    then 97
    else if a == 101
    then 98
    else if (a == 200) || (a == 232)
    then 65
    else if (a == 201) || (a == 233)
    then 66
    else if (a == 202) || (a == 234)
    then 67
    else if leb 200 a && ltb a 264
    then 32
    else 0

name-CString : CString test_directory 100 2
name-CString = record { bytes = λ i lt. ground arith; end = refl }

fat16_filename_cmp-AgreeFrom_example :
    (same : Bool) × (fat16_filename_cmp 5 100 200 test_directory ≡ done same)
    × ((same ≡ true) ↔ ((2 ≤ 8) × AgreeFrom test_directory 100 200 2 0))
fat16_filename_cmp-AgreeFrom_example =
    fat16_filename_cmp-AgreeFrom 5 100 200 2 test_directory name-CString (omega arith)

-- What the comparison answers, for every entry.
abbrev test_same : ℕ → Bool
test_same entry =
    (fat16_filename_cmp-AgreeFrom 5 100 entry 2 test_directory name-CString (omega arith)).0

search_entries-FoundIn_example :
    (r : Option ℕ) × (search_entries 5 16 0 100 200 test_directory ≡ done r)
    × FoundIn test_directory test_same 200 0 16 r
search_entries-FoundIn_example =
    search_entries-FoundIn 5 16 0 100 200 test_directory test_same (λ entry.
      (fat16_filename_cmp-AgreeFrom 5 100 entry 2 test_directory name-CString (omega arith)).1)
