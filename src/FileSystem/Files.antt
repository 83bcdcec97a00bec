-- ===== src/FileSystem/Files.antt =====
-- Reading a file, cluster by cluster. It has no meaning once a cluster is read, since
-- `get_location_of_n_fat_copy`, which the search for the next cluster uses, returns nothing.
use ntm_os.Prelude.{
  ℕ, zero, suc, ◌+◌, ◌-◌, ◌*◌, ◌/◌, ◌%◌, ◌^◌, Bool, false, ltb, ◌==◌, if◌then◌else◌,
}
use ntm_os.Prelude.Int.{ℤ, pos, negsuc}
use ntm_os.Prelude.Run.{Run, done, undefined, out_of_fuel, ◌>>=◌}
use ntm_os.Prelude.Device.{Device}
use ntm_os.HardDisk.{read_half}
use ntm_os.KHeap.{Heap, Result, address, k_malloc, k_free}
use ntm_os.KString.{k_memcpy}
use ntm_os.FileSystem.{
  FileSystem, byte_per_sector, sectors_per_cluster, number_of_fat_copies, partition_read,
  get_location_of_n_fat_copy, get_first_sector_of_cluster_n,
}
use ntm_os.FileSystem.Directory.{get_file_size, get_file_start_cluster}

-- An `int32_t` as a 32-bit number.
unfoldable pub to_word : ℤ → ℕ
to_word (pos n) = n % 2 ^ 32
to_word (negsuc n) = 2 ^ 32 - 1 - n % 2 ^ 32

-- The address and the heap that `k_malloc` gives.
abbrev pub allocated {ℓ} : {A : Type ℓ} → Result → (ℕ → Heap → Run A) → Run A
allocated Result.undefined k = undefined
allocated (address p h) k = k p h

-- `remain_size > 0`, signed.
unfoldable pub positive : ℕ → Bool
positive n = if n == 0 then false else ltb n (2 ^ 31)

module _ (D : Device) where
  -- The entry of the table for a cluster. A null pointer is used like any other.
  unfoldable pub get_next_cluster : ℕ → FileSystem → ℕ → Heap → D.State → Run (ℕ × Heap × D.State)
  get_next_cluster fuel fs cluster h d = get_location_of_n_fat_copy fs 0 >>= (λ start.
      let copies = number_of_fat_copies h.bytes fs.bs in
      let size = fs.regions.fat_region_size / copies in
      let read = allocated (k_malloc h (size * byte_per_sector h.bytes fs.bs % 2 ^ 32)) (λ p h'.
        partition_read D fuel fs.device p start size h'.bytes d >>= (λ r.
          let (_, m, d') = r in
          done (read_half m ((p + 2 * cluster) % 2 ^ 32), record h' { bytes = m }, d'))) in
      if copies == 0 then undefined else read)

  -- The loop of `read_file`, with the rounds left: the end of what was written to the buffer.
  unfoldable pub read_clusters :
      ℕ → ℕ → FileSystem → ℕ → ℕ → ℕ → ℕ → Heap → D.State → Run (ℕ × Heap × D.State)
  read_clusters fuel zero fs cluster_buf p_buf remain cluster h d = out_of_fuel
  read_clusters fuel (suc n) fs cluster_buf p_buf remain cluster h d =
      let spc = sectors_per_cluster h.bytes fs.bs in
      let per_cluster = byte_per_sector h.bytes fs.bs * spc in
      let count = if ltb per_cluster remain then per_cluster else remain in
      let round =
        partition_read D fuel fs.device cluster_buf
          (get_first_sector_of_cluster_n h.bytes fs cluster) spc h.bytes d
        >>= (λ r.
            let (_, m, d') = r in
            let h' = record h { bytes = (k_memcpy p_buf cluster_buf count m).1 } in
            get_next_cluster fuel fs cluster h' d' >>= (λ r.
              let (next, h2, d2) = r in
              let rest =
                read_clusters fuel n fs cluster_buf (p_buf + count) (remain - count) next h2 d2 in
              if positive next then rest else done (p_buf + count, h2, d2))) in
      if positive remain then round else done (p_buf, h, d)

  -- The result is the number of bytes that were read.
  unfoldable pub read_file :
      ℕ → ℕ → FileSystem → ℕ → ℕ → ℕ → Heap → D.State → Run (ℕ × Heap × D.State)
  read_file fuel rounds fs filename buf buf_size h d =
      get_file_size D fuel fs filename h d >>= (λ r.
        let (size, h1, d1) = r in
        let file_len = to_word size in
        let remain = if ltb file_len buf_size then file_len else buf_size in
        get_file_start_cluster D fuel fs filename h1 d1 >>= (λ r.
          let (cluster, h2, d2) = r in
          let per_cluster = byte_per_sector h2.bytes fs.bs * sectors_per_cluster h2.bytes fs.bs in
          allocated (k_malloc h2 per_cluster) (λ p h3.
            read_clusters fuel rounds fs p buf remain (to_word cluster) h3 d2
            >>= (λ r. let (end, h4, d4) = r in done (end - buf, k_free h4 p, d4)))))
