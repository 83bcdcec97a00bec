-- ===== src/Startup/Pages.antt =====
-- The page tables that `initial_global_page_table` fills. `kernel_main` does not call it.
use ntm_os.Prelude.Memory.{Memory}
