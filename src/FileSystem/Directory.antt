-- ===== src/FileSystem/Directory.antt =====
-- The search for a file in the root directory. `k_strchr` is called for a result that is not used,
-- and is left out.
use ntm_os.Prelude.{
  ℕ, zero, suc, ◌+◌, ◌-◌, ◌*◌, ◌%◌, ◌^◌, Bool, true, false, ◌||◌, ◌&&◌, Option, none, some, ltb,
  leb, ◌==◌, if◌then◌else◌,
}
use ntm_os.Prelude.Int.{ℤ, pos, negsuc, signed_char, eqb_ℤ}
use ntm_os.Prelude.Memory.{Memory, read_word}
use ntm_os.Prelude.Run.{Run, done, undefined, from_loop, ◌>>=◌}
use ntm_os.Prelude.Device.{Device}
use ntm_os.HardDisk.{read_half}
use ntm_os.KHeap.{Heap, Result, address, k_malloc, k_free}
use ntm_os.KString.Text.{k_strlen}
use ntm_os.FileSystem.{FileSystem, byte_per_sector, number_of_root_entries, partition_read}

-- The size of `fat16_directory_entry_t`, and where its fields are.
abbrev pub directory_entry_size : ℕ
directory_entry_size = 32

abbrev pub start_cluster_offset : ℕ
start_cluster_offset = 26

abbrev pub file_size_offset : ℕ
file_size_offset = 28

unfoldable pub k_toupper : ℕ → ℕ
k_toupper c = if leb 97 c && leb c 122 then c - 32 else c

-- The loop of `fat16_filename_cmp`, with the rounds left: `true` for 0.
unfoldable pub names_agree : ℕ → ℕ → ℕ → ℕ → Memory → Bool
names_agree zero i filename entry m = true
names_agree (suc n) i filename entry m =
    let rest = names_agree n (i + 1) filename entry m in
    if (m (filename + i) == 0) || (m (entry + i) == 0x20)
    then true
    else if k_toupper (m (filename + i)) == m (entry + i)
    then rest
    else false

-- `true` for 0, and `false` for −1.
unfoldable pub fat16_filename_cmp : ℕ → ℕ → ℕ → Memory → Run Bool
fat16_filename_cmp fuel filename entry m =
    from_loop (k_strlen fuel m filename)
    >>= (λ l. done (if ltb 8 l then false else names_agree 8 0 filename entry m))

-- The loop over the entries of the directory at `buff`, with the rounds left: the entry that it
-- breaks at.
unfoldable pub search_entries : ℕ → ℕ → ℕ → ℕ → ℕ → Memory → Run (Option ℕ)
search_entries fuel zero i filename buff m = done none
search_entries fuel (suc n) i filename buff m =
    let entry = buff + directory_entry_size * i in
    let rest = search_entries fuel n (i + 1) filename buff m in
    if m entry == 0
    then done none
    else if eqb_ℤ (pos 0xe5) (signed_char (m entry))
    then rest
    else fat16_filename_cmp fuel filename entry m
      >>= (λ same. if same then done (some entry) else rest)

-- A 32-bit number as an `int32_t`.
unfoldable pub to_int : ℕ → ℤ
to_int v = if ltb v (2 ^ 31) then pos v else negsuc (2 ^ 32 - v - 1)

abbrev value_of : (ℕ → ℤ) → Option ℕ → ℤ
value_of field none = negsuc 0
value_of field (some entry) = field entry

module _ (D : Device) where
  -- The search in the directory that was read to `buff`, and the end of the function.
  unfoldable pub search_buffer :
      ℕ → FileSystem → ℕ → (Memory → ℕ → ℤ) → ℕ → ℕ → Heap → D.State → Run (ℤ × Heap × D.State)
  search_buffer fuel fs filename field n buff h d =
      partition_read D fuel fs.device buff fs.regions.root_directory_region_start
        fs.regions.root_directory_region_size h.bytes d
      >>= (λ r.
          let (_, m, d') = r in
          search_entries fuel n 0 filename buff m
          >>= (λ found. done (value_of (field m) found, k_free (record h { bytes = m }) buff, d')))

  -- What `k_malloc` gives.
  abbrev pub with_buffer :
      ℕ → FileSystem → ℕ → (Memory → ℕ → ℤ) → ℕ → Result → D.State → Run (ℤ × Heap × D.State)
  with_buffer fuel fs filename field n Result.undefined d = undefined
  with_buffer fuel fs filename field n (address p h) d =
      if p == 0 then done (negsuc 0, h, d) else search_buffer fuel fs filename field n p h d

  -- `get_file_size` and `get_file_start_cluster`, which differ in the field that they return.
  unfoldable pub look_up :
      ℕ → FileSystem → ℕ → (Memory → ℕ → ℤ) → Heap → D.State → Run (ℤ × Heap × D.State)
  look_up fuel fs filename field h d =
      let n = number_of_root_entries h.bytes fs.bs in
      let size = fs.regions.root_directory_region_size * byte_per_sector h.bytes fs.bs % 2 ^ 32 in
      let searched = from_loop (k_strlen fuel h.bytes filename) >>= (λ l.
        if l == 0
        then done (negsuc 0, h, d)
        else with_buffer fuel fs filename field n (k_malloc h size) d) in
      if filename == 0 then done (negsuc 0, h, d) else searched

  unfoldable pub get_file_size : ℕ → FileSystem → ℕ → Heap → D.State → Run (ℤ × Heap × D.State)
  get_file_size fuel fs filename h d =
      look_up fuel fs filename (λ m entry. to_int (read_word m (entry + file_size_offset))) h d

  unfoldable pub get_file_start_cluster :
      ℕ → FileSystem → ℕ → Heap → D.State → Run (ℤ × Heap × D.State)
  get_file_start_cluster fuel fs filename h d =
      look_up fuel fs filename (λ m entry. pos (read_half m (entry + start_cluster_offset))) h d
