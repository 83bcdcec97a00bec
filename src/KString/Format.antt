-- ===== src/KString/Format.antt =====
-- `k_sprintf`. The variable arguments are a list; an argument that is missing or has another type
-- than its directive is undefined. `buffer` is the address of the local buffer.
use ntm_os.Prelude.{
  ℕ, zero, suc, ◌+◌, ◌≤◌, ◌<◌, ◌≡◌, ◌≢◌, ◌⊎◌, arith, List, [], ◌∷◌, ◌==◌, if◌then◌else◌,
}
use mathlib.Core.Path.{subst}
use ntm_os.Prelude.Int.{ℤ, pos}
use ntm_os.Prelude.Memory.{Memory, write}
use ntm_os.Prelude.Run.{Run, done, undefined, out_of_fuel, from_loop, ◌>>=◌}
use ntm_os.KString.{copy_up, k_memcpy}
use ntm_os.KString.Text.{CString, k_strcat, k_strlen}
use ntm_os.KString.Text.Contents.{CString-tail, CString-write, first_byte, last_byte}
use ntm_os.KString.Number.{k_itoa, k_utoa}

pub data Arg : Type 0 where
  int_arg : ℤ → Arg
  uint_arg : ℕ → Arg
  text_arg : ℕ → Arg

-- `str[l] = NULL; k_strcat(str, p); l += k_strlen(p);`
unfoldable pub append_text : ℕ → ℕ → ℕ → ℕ → Memory → Run (ℕ × Memory)
append_text fuel str l p m = from_loop (k_strcat fuel str p (write m (str + l) 0)) >>= λ r.
    from_loop (k_strlen fuel r.1 p) >>= λ k. done (l + k, r.1)

-- The rest of the loop, given the index, the arguments that are left, and the memory.
abbrev pub Rest : Type 0
Rest = ℕ → List Arg → Memory → Run (ℕ × Memory)

-- `case 's'`
unfoldable pub print_text : ℕ → ℕ → ℕ → List Arg → Memory → Rest → Run (ℕ × Memory)
print_text fuel str l (text_arg p ∷ args) m rest =
    append_text fuel str l p m >>= λ r. rest r.0 args r.1
print_text fuel str l (int_arg z ∷ args) m rest = undefined
print_text fuel str l (uint_arg n ∷ args) m rest = undefined
print_text fuel str l [] m rest = undefined

-- `case 'd'`
unfoldable pub print_int : ℕ → ℕ → ℕ → ℕ → List Arg → Memory → Rest → Run (ℕ × Memory)
print_int fuel str buffer l (int_arg z ∷ args) m rest = k_itoa fuel z buffer (pos 10) m >>= λ b.
    append_text fuel str l buffer b.1 >>= λ r. rest r.0 args r.1
print_int fuel str buffer l (text_arg p ∷ args) m rest = undefined
print_int fuel str buffer l (uint_arg n ∷ args) m rest = undefined
print_int fuel str buffer l [] m rest = undefined

-- `case 'x'`
unfoldable pub print_hex : ℕ → ℕ → ℕ → ℕ → List Arg → Memory → Rest → Run (ℕ × Memory)
print_hex fuel str buffer l (uint_arg n ∷ args) m rest = k_utoa fuel n buffer (pos 16) m >>= λ b.
    append_text fuel str l buffer b.1 >>= λ r. rest r.0 args r.1
print_hex fuel str buffer l (text_arg p ∷ args) m rest = undefined
print_hex fuel str buffer l (int_arg z ∷ args) m rest = undefined
print_hex fuel str buffer l [] m rest = undefined

-- The switch on the character `ch` after '%'. Another character prints nothing.
unfoldable pub directive : ℕ → ℕ → ℕ → ℕ → ℕ → List Arg → Memory → Rest → Run (ℕ × Memory)
directive fuel ch str buffer l args m rest =
    if ch == 37
    then rest (l + 1) args (write m (str + l) ch)
    else if ch == 115
    then print_text fuel str l args m rest
    else if ch == 100
    then print_int fuel str buffer l args m rest
    else if ch == 120
    then print_hex fuel str buffer l args m rest
    else if ch == 0
    then done (l, write m (str + l) 0)
    else rest l args m

-- `while (ch = *fmt++)`, and the end.
unfoldable pub format_loop : ℕ → ℕ → ℕ → ℕ → ℕ → List Arg → Memory → Run (ℕ × Memory)
format_loop zero str buffer fmt l args m = out_of_fuel
format_loop (suc fuel) str buffer fmt l args m =
    let one : Rest = format_loop fuel str buffer (fmt + 1) in
    let two : Rest = format_loop fuel str buffer (fmt + 2) in
    if m fmt == 0
    then done (l, write m (str + l) 0)
    else if m fmt == 37
    then directive fuel (m (fmt + 1)) str buffer l args m two
    else one (l + 1) args (write m (str + l) (m fmt))

-- The number of characters that it returns, and the memory.
unfoldable pub k_sprintf : ℕ → ℕ → ℕ → ℕ → List Arg → Memory → Run (ℕ × Memory)
k_sprintf fuel str buffer fmt args m = format_loop fuel str buffer fmt 0 args m

still_plain :
    (i str fmt n : ℕ) (m : Memory)
    → (str ≤ fmt) ⊎ (fmt + (i + suc n) < str)
    → ((j : ℕ) → j < suc n → m (fmt + i + j) ≢ 37)
    → (j : ℕ) → j < n
    → write m (str + i) (m (fmt + i)) (fmt + (i + 1) + j) ≢ 37
unfolding write
still_plain i str fmt n m apart plain j below = ground (arith, plain (suc j) (omega arith))

plain_format :
    (fuel i str buffer fmt n : ℕ) (args : List Arg) (m : Memory)
    → CString m (fmt + i) n
    → ((j : ℕ) → j < n → m (fmt + i + j) ≢ 37)
    → (str ≤ fmt) ⊎ (fmt + (i + n) < str)
    → n < fuel
    → format_loop fuel str buffer (fmt + i) i args m ≡ done (i + n, copy_up (suc n) i str fmt m)
unfolding format_loop copy_up
plain_format zero i str buffer fmt n args m text plain apart enough = absurd (omega arith)
plain_format (suc fuel) i str buffer fmt zero args m text plain apart enough =
    ground (arith, last_byte m (fmt + i) text)
plain_format (suc fuel) i str buffer fmt (suc n) args m text plain apart enough =
    let m' : Memory = write m (str + i) (m (fmt + i)) in
    let later : CString m' (fmt + i + 1) n =
      CString-write m (str + i) (m (fmt + i)) (fmt + i + 1) n (ground arith)
        (CString-tail _ _ n text) in
    let moved : fmt + i + 1 ≡ fmt + (i + 1) = omega arith in
    ground (
      arith,
      first_byte m (fmt + i) n text,
      plain 0 (omega arith),
      plain_format fuel (i + 1) str buffer fmt n args m' (subst (λ p. CString m' p n) moved later)
          (λ j below. still_plain i str fmt n m apart plain j below) (ground arith) (omega arith),
    )

-- `k_sprintf` of a format without '%' ends, returns its length, and copies it with its 0, whatever
-- the arguments are, if the string starts no later than the format or behind its 0.
pub k_sprintf-plain :
    (fuel str buffer fmt n : ℕ) (args : List Arg) (m : Memory)
    → CString m fmt n
    → ((j : ℕ) → j < n → m (fmt + j) ≢ 37)
    → (str ≤ fmt) ⊎ (fmt + n < str)
    → n < fuel
    → k_sprintf fuel str buffer fmt args m ≡ done (n, (k_memcpy str fmt (n + 1) m).1)
unfolding k_sprintf k_memcpy
k_sprintf-plain fuel str buffer fmt n args m text plain apart enough =
    let at_fmt : CString m (fmt + 0) n = subst (λ p. CString m p n) (omega arith) text in
    ground (
      arith,
      plain_format fuel 0 str buffer fmt n args m at_fmt (λ j below. ground (arith, plain j below))
          (ground arith) enough,
    )
