-- ===== src/KString/Tests.antt =====
-- The routines at concrete memories.
use ntm_os.Prelude.{ℕ, ◌<◌, refl, arith, ◌==◌, if◌then◌else◌}
use ntm_os.Prelude.Int.{pos, negsuc}
use ntm_os.Prelude.Memory.{Memory}
use ntm_os.KString.Text.{CString, k_strcmp}
use ntm_os.KString.Text.Order.{SameString, Decides, k_strcmp-Decides}
use ntm_os.KString.Number.{k_itoa}
use ntm_os.KString.Number.Signed.{PrintsInt, k_itoa-PrintsInt}

-- "hi" at 100 and "ho" at 110.
abbrev two_texts : Memory
two_texts = λ a.
    if a == 100
    then 104
    else if a == 101
    then 105
    else if a == 110
    then 104
    else if a == 111
    then 111
    else 0

hi : CString two_texts 100 2
hi = record { bytes = λ i below. ground arith; end = refl }

ho : CString two_texts 110 2
ho = record { bytes = λ i below. ground arith; end = refl }

bytes : (a : ℕ) → two_texts a < 256
bytes a = ground arith

k_strcmp-Decides_example : Decides (k_strcmp 5 two_texts 100 110) (SameString two_texts 100 2 110 2)
k_strcmp-Decides_example = k_strcmp-Decides 5 two_texts 100 2 110 2 bytes hi ho (omega arith)

k_itoa-PrintsInt_example :
    PrintsInt (negsuc 41) 200 two_texts (k_itoa 40 (negsuc 41) 200 (pos 10) two_texts)
k_itoa-PrintsInt_example =
    k_itoa-PrintsInt 40 (negsuc 41) 200 two_texts (omega arith) (omega arith) (omega arith)
      (omega arith)
