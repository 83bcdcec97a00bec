-- ===== src/FileSystem.antt =====
-- The file system of fs.c and fs.h: the partition table, the layout of a FAT16 partition, and the
-- search for a file in the root directory, over the disks of harddisk.c. A `char` is signed.
pub mod Partitions
pub mod Layout
pub mod Directory
pub mod Names
pub mod Files
mod Tests
use ntm_os.Prelude.{
  ℕ, zero, suc, ◌+◌, ◌-◌, ◌*◌, ◌/◌, ◌%◌, ◌^◌, Bool, true, false, ◌||◌, ◌&&◌, Option, none, some,
  ltb, leb, ◌==◌, if◌then◌else◌,
}
use ntm_os.Prelude.Int.{ℤ, pos, negsuc, signed_char, ltb_ℤ, eqb_ℤ, ◌+ℤ◌}
use ntm_os.Prelude.Memory.{Memory, read_word}
use ntm_os.Prelude.Run.{Run, done, panic, undefined, out_of_fuel, from_loop, ◌>>=◌}
use ntm_os.Prelude.Device.{Device}
use ntm_os.HardDisk.{read_half, ata_pio_lba_read}
use ntm_os.KHeap.{Heap, address, k_malloc, k_free}
use ntm_os.KHeap as KHeap
use ntm_os.KString.Text.{k_strlen}

abbrev pub n_max_partitions : ℕ
n_max_partitions = 4

-- `partition_t`
pub record Partition : Type 0 where
  pub hdd : ℕ
  pub type : ℕ
  pub start_lba : ℕ
  pub num_sectors : ℕ

-- `mbr_t`: the entries of the partition table and the signature.
unfoldable pub entry_at : ℕ → ℕ → ℕ
entry_at mbr i = mbr + 446 + 16 * i

abbrev pub boot_signature_offset : ℕ
boot_signature_offset = 510

-- The first entry whose status passes the test, with the entries left, or the first entry.
unfoldable pub choose_entry : ℕ → ℕ → ℕ → Memory → ℕ
choose_entry zero i mbr m = 0
choose_entry (suc n) i mbr m =
    let status = m (entry_at mbr i) in
    let rest = choose_entry n (i + 1) mbr m in if ltb status 1 || ltb 0x7f status then i else rest

-- The partition that an entry describes.
unfoldable pub partition_of : ℕ → ℕ → Memory → Partition
partition_of hdd pe m = record {
  hdd = hdd;
  type = m (pe + 4);
  start_lba = read_word m (pe + 8);
  num_sectors = read_word m (pe + 12);
}

-- What `parse_mbr` makes of the sector at `mbr`. It always finds an entry, and returns 0.
unfoldable pub read_mbr : ℕ → ℕ → Memory → Run Partition
read_mbr hdd mbr m =
    if (m (mbr + boot_signature_offset) == 0x55) && (m (mbr + boot_signature_offset + 1) == 0xaa)
    then done (partition_of hdd (entry_at mbr (choose_entry n_max_partitions 0 mbr m)) m)
    else panic

module _ (D : Device) where
  -- `mbr` is the address of the local variable. Both pointers are null, or the test passes.
  unfoldable pub parse_mbr : ℕ → ℕ → ℕ → Memory → D.State → Run (Partition × Memory × D.State)
  parse_mbr fuel hdd mbr m d =
      ata_pio_lba_read D fuel hdd mbr 0 1 m d
      >>= (λ r. let (_, m', d') = r in read_mbr hdd mbr m' >>= (λ p. done (p, m', d')))

  unfoldable pub partition_read :
      ℕ → Partition → ℕ → ℕ → ℕ → Memory → D.State → Run (ℕ × Memory × D.State)
  partition_read fuel p buff sector num_sectors m d =
      if leb p.num_sectors ((sector + num_sectors) % 2 ^ 32)
      then panic
      else ata_pio_lba_read D fuel p.hdd buff ((p.start_lba + sector) % 2 ^ 32) num_sectors m d

unfoldable pub partition_write : Partition → ℕ → ℕ → ℕ → ℤ
partition_write p buff sector num_sectors = negsuc 0

-- The fields of `fat16_bootsector_t`, at `bs`.
unfoldable pub byte_per_sector : Memory → ℕ → ℕ
byte_per_sector m bs = read_half m (bs + 11)

unfoldable pub sectors_per_cluster : Memory → ℕ → ℕ
sectors_per_cluster m bs = m (bs + 13)

unfoldable pub reserved_sectors : Memory → ℕ → ℕ
reserved_sectors m bs = read_half m (bs + 14)

unfoldable pub number_of_fat_copies : Memory → ℕ → ℕ
number_of_fat_copies m bs = m (bs + 16)

unfoldable pub number_of_root_entries : Memory → ℕ → ℕ
number_of_root_entries m bs = read_half m (bs + 17)

unfoldable pub sectors_per_fat : Memory → ℕ → ℕ
sectors_per_fat m bs = read_half m (bs + 22)

unfoldable pub large_number_of_sectors : Memory → ℕ → ℕ
large_number_of_sectors m bs = read_word m (bs + 32)

-- `fat16_region_info_t`
pub record Regions : Type 0 where
  pub reserved_region_start : ℕ
  pub fat_region_start : ℕ
  pub root_directory_region_start : ℕ
  pub data_region_start : ℕ
  pub reserved_region_size : ℕ
  pub fat_region_size : ℕ
  pub root_directory_region_size : ℕ
  pub data_region_size : ℕ

-- The regions that `build_root_fs_from_fat16` computes from the boot sector at `bs`.
unfoldable pub regions_of : Memory → ℕ → Run Regions
regions_of m bs =
    let reserved = reserved_sectors m bs in
    let fat = number_of_fat_copies m bs * sectors_per_fat m bs in
    let root = number_of_root_entries m bs * 32 / byte_per_sector m bs in
    let used = (reserved + fat + root) % 2 ^ 32 in
    if byte_per_sector m bs == 0
    then undefined
    else done (record {
      reserved_region_start = 0;
      fat_region_start = reserved;
      root_directory_region_start = (reserved + fat) % 2 ^ 32;
      data_region_start = used;
      reserved_region_size = reserved;
      fat_region_size = fat;
      root_directory_region_size = root;
      data_region_size = (large_number_of_sectors m bs + 2 ^ 32 - used) % 2 ^ 32;
    })

-- `filesystem_t`: the partition, the boot sector at `bs`, and the regions.
pub record FileSystem : Type 0 where
  pub device : Partition
  pub bs : ℕ
  pub regions : Regions

module _ (D : Device) where
  unfoldable pub build_root_fs_from_fat16 :
      ℕ → Partition → ℕ → Memory → D.State → Run (FileSystem × Memory × D.State)
  build_root_fs_from_fat16 fuel p bs m d = partition_read D fuel p bs 0 1 m d >>= (λ r.
      let (_, m', d') = r in
      regions_of m' bs >>= (λ g. done (record { device = p; bs = bs; regions = g }, m', d')))

  -- `none` for −1.
  unfoldable pub build_root_fs :
      ℕ → ℕ → ℕ → ℕ → Memory → D.State → Run (Option FileSystem × Memory × D.State)
  build_root_fs fuel hdd mbr bs m d = parse_mbr D fuel hdd mbr m d >>= (λ r.
      let (p, m', d') = r in
      let built =
        build_root_fs_from_fat16 fuel p bs m' d'
        >>= (λ r. let (fs, m2, d2) = r in done (some fs, m2, d2)) in
      if p.type == 6 then built else done (none, m', d'))

-- `get_location_of_n_fat_copy` computes its result and does not return it.
unfoldable pub get_location_of_n_fat_copy : FileSystem → ℕ → Run ℕ
get_location_of_n_fat_copy fs n = undefined

unfoldable pub get_fat_sector_for_n_cluster_entry : Memory → FileSystem → ℕ → Run ℕ
get_fat_sector_for_n_cluster_entry m fs n = get_location_of_n_fat_copy fs 0 >>= (λ s.
    if byte_per_sector m fs.bs == 0
    then undefined
    else done ((s + n * 2 % 2 ^ 32 / byte_per_sector m fs.bs) % 2 ^ 32))

unfoldable pub get_number_of_fat_entries : Memory → FileSystem → Run ℕ
get_number_of_fat_entries m fs =
    if sectors_per_cluster m fs.bs == 0
    then undefined
    else done (fs.regions.data_region_size / sectors_per_cluster m fs.bs)

unfoldable pub get_first_sector_of_cluster_n : Memory → FileSystem → ℕ → ℕ
get_first_sector_of_cluster_n m fs n =
    (fs.regions.data_region_start + (n + 2 ^ 32 - 2) % 2 ^ 32 * sectors_per_cluster m fs.bs)
    % 2 ^ 32
