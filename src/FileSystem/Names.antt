-- ===== src/FileSystem/Names.antt =====
-- Which entry of a directory a name finds.
use ntm_os.Prelude.{
  ℕ, zero, suc, ◌+◌, ◌*◌, ◌<◌, ◌≤◌, ◌≡◌, ◌≢◌, ◌↔◌, refl, sym, ap, ap₂, ◌∙◌, arith, Bool, Bool-cases,
  true, false, ◌||◌, inl, inr, ◌⊎◌, Option, none, some, ltb, ◌==◌, ==→eq, ==→ne, if◌then◌else◌,
}
use mathlib.Core.Path.{subst}
use ntm_os.Prelude.Int.{pos, signed_char, eqb_ℤ}
use ntm_os.Prelude.Memory.{Memory}
use ntm_os.Prelude.Run.{Run, done, from_loop, ◌>>=◌}
use ntm_os.KString.Text.{CString}
use ntm_os.KString.Text.Contents.{k_strlen-CString}
use ntm_os.FileSystem.Directory.{
  directory_entry_size, k_toupper, names_agree, fat16_filename_cmp, search_entries,
}

-- From byte `i` on, the name of `n` bytes is in capitals what stands in the entry, as far as the
-- name goes and the entry has no space.
abbrev pub AgreeFrom : Memory → ℕ → ℕ → ℕ → ℕ → Type 0
AgreeFrom m filename entry n i =
    (a : ℕ)
    → i ≤ a
    → a < n
    → ((j : ℕ) → i ≤ j → j ≤ a → m (entry + j) ≢ 0x20)
    → k_toupper (m (filename + a)) ≡ m (entry + a)

-- A byte of both that is no end.
names_agree_step :
    (m : Memory) (filename entry n i : ℕ) (rest : Bool)
    → i < n
    → m (entry + i) ≢ 0x20
    → ((rest ≡ true) ↔ AgreeFrom m filename entry n (i + 1))
    → ((if k_toupper (m (filename + i)) == m (entry + i) then rest else false) ≡ true)
      ↔ AgreeFrom m filename entry n i
names_agree_step m filename entry n i rest inside no_space later =
    elim (Bool-cases (k_toupper (m (filename + i)) == m (entry + i))) [
      | inl same ↦ (
        λ e a ge lt spaces. elim (Bool-cases (a == i)) [
          | inl here ↦
              subst (λ a. k_toupper (m (filename + a)) ≡ m (entry + a)) (sym (==→eq a i here))
                (==→eq (k_toupper (m (filename + i))) (m (entry + i)) same)
          | inr other ↦
              let ne : a ≢ i = ==→ne a i other in
              later.0 (sym (ap (λ b. if b then rest else false) same) ∙ e) a (omega arith) lt
                (λ j ge' le. spaces j (omega arith) le)
        ],
        λ agree.
            ap (λ b. if b then rest else false) same
            ∙ later.1 (λ a ge lt spaces. agree a (omega arith) lt (λ j ge' le.
              elim (Bool-cases (j == i)) [
                | inl here ↦
                    λ space. no_space (ap (λ j. m (entry + j)) (sym (==→eq j i here)) ∙ space)
                | inr other ↦ let ne : j ≢ i = ==→ne j i other in spaces j (omega arith) le
              ])),
      )
      | inr differ ↦ (
        λ e.
            let clash : false ≡ true = sym (ap (λ b. if b then rest else false) differ) ∙ e in
            absurd (ground arith),
        λ agree. absurd (
            ==→ne (k_toupper (m (filename + i))) (m (entry + i)) differ (
              agree i (omega arith) inside (λ j ge le.
                let here : j ≡ i = omega arith in
                λ space. no_space (ap (λ j. m (entry + j)) (sym here) ∙ space)))),
      )
    ]

names_agree-AgreeFrom :
    (k i : ℕ) (m : Memory) (filename entry n : ℕ)
    → CString m filename n
    → n ≤ 8
    → i ≤ n
    → i + k ≡ 8
    → (names_agree k i filename entry m ≡ true) ↔ AgreeFrom m filename entry n i
unfolding names_agree
names_agree-AgreeFrom zero i m filename entry n str short le sum =
    (λ e a ge lt spaces. absurd (omega arith), λ agree. refl)
names_agree-AgreeFrom (suc k) i m filename entry n str short le sum =
    let rest = names_agree k (i + 1) filename entry m in
    let agrees = if k_toupper (m (filename + i)) == m (entry + i) then rest else false in
    elim (Bool-cases (m (filename + i) == 0)) [
      | inl ends ↦
          let zero_at : m (filename + i) ≡ 0 = ==→eq (m (filename + i)) 0 ends in
          let at_end : n ≤ i = ground (arith, str.bytes i) in
          (
            λ e a ge lt spaces. absurd (omega arith),
            λ agree. ap (λ b. if b || (m (entry + i) == 0x20) then true else agrees) ends,
          )
      | inr goes ↦ elim (Bool-cases (m (entry + i) == 0x20)) [
        | inl space ↦ (
          λ e a ge lt spaces. absurd (spaces i (omega arith) ge (==→eq (m (entry + i)) 0x20 space)),
          λ agree. ap₂ (λ b c. if b || c then true else agrees) goes space,
        )
        | inr no_space ↦
            let ne : i ≢ n =
              λ e. ==→ne (m (filename + i)) 0 goes (ap (λ a. m (filename + a)) e ∙ str.end) in
            let inside : i < n = omega arith in
            let step =
              names_agree_step m filename entry n i rest inside
                (==→ne (m (entry + i)) 0x20 no_space)
                (names_agree-AgreeFrom k (i + 1) m filename entry n str short (omega arith)
                  (omega arith)) in
            let same : names_agree (suc k) i filename entry m ≡ agrees =
              ap₂ (λ b c. if b || c then true else agrees) goes no_space in
            (λ e. step.0 (sym same ∙ e), λ agree. same ∙ step.1 agree)
      ]
    ]

-- fat16_filename_cmp of a name of at most 8 bytes returns 0 exactly if the name, in capitals, agrees
-- with the name in the entry byte by byte, up to the end of the one or the first space of the other.
-- It returns −1 for a longer name. The extension plays no part, and a part of the name is enough.
pub fat16_filename_cmp-AgreeFrom :
    (fuel filename entry n : ℕ) (m : Memory)
    → CString m filename n
    → n < fuel
    → (same : Bool) × (fat16_filename_cmp fuel filename entry m ≡ done same)
      × ((same ≡ true) ↔ ((n ≤ 8) × AgreeFrom m filename entry n 0))
unfolding fat16_filename_cmp
fat16_filename_cmp-AgreeFrom fuel filename entry n m str enough =
    let run =
      ap
        (λ l.
          from_loop l >>= (λ l. done (if ltb 8 l then false else names_agree 8 0 filename entry m)))
        (k_strlen-CString fuel m filename n str enough) in
    elim (Bool-cases (ltb 8 n)) [
      | inl long ↦ (
        false,
        run ∙ ap (λ b. done (if b then false else names_agree 8 0 filename entry m)) long,
        (λ e. absurd (ground arith), λ h. let le = h.0 in absurd (ground arith)),
      )
      | inr short ↦
          let le : n ≤ 8 = ground arith in
          let decides =
            names_agree-AgreeFrom 8 0 m filename entry n str le (omega arith) (omega arith) in
          (
            names_agree 8 0 filename entry m,
            run ∙ ap (λ b. done (if b then false else names_agree 8 0 filename entry m)) short,
            (λ e. (le, decides.0 e), λ h. decides.1 h.1),
          )
    ]

-- The entry `j` of the directory at `buff`.
abbrev pub entry_of : ℕ → ℕ → ℕ
entry_of buff j = buff + directory_entry_size * j

-- The entries from `i` on and before `j` are no end of the directory and have other names.
abbrev pub Passed : Memory → (ℕ → Bool) → ℕ → ℕ → ℕ → Type 0
Passed m same buff i j =
    (k : ℕ) → i ≤ k → k < j → (m (entry_of buff k) ≢ 0) × (same (entry_of buff k) ≡ false)

-- What the search through `n` entries from `i` on finds: the first with the name, if no end of the
-- directory comes before it, or none.
pub data FoundIn (m : Memory) (same : ℕ → Bool) (buff i n : ℕ) : Option ℕ → Type 0 where
  at_entry :
      (j : ℕ)
      → i ≤ j
      → j < i + n
      → Passed m same buff i j
      → m (entry_of buff j) ≢ 0
      → same (entry_of buff j) ≡ true
      → FoundIn m same buff i n (some (entry_of buff j))
  nowhere :
      (j : ℕ)
      → Passed m same buff i j
      → (j ≡ i + n) ⊎ (m (entry_of buff j) ≡ 0)
      → FoundIn m same buff i n none

not_deleted : (b : ℕ) → eqb_ℤ (pos 0xe5) (signed_char b) ≡ false
unfolding signed_char
not_deleted b = ground arith

Passed-first :
    (m : Memory) (same : ℕ → Bool) (buff i j : ℕ)
    → m (entry_of buff i) ≢ 0
    → same (entry_of buff i) ≡ false
    → Passed m same buff (i + 1) j
    → Passed m same buff i j
Passed-first m same buff i j goes other passed k ge lt = elim (Bool-cases (k == i)) [
  | inl here ↦
      subst (λ k. (m (entry_of buff k) ≢ 0) × (same (entry_of buff k) ≡ false))
        (sym (==→eq k i here)) (goes, other)
  | inr later ↦ let ne : k ≢ i = ==→ne k i later in passed k (omega arith) lt
]

FoundIn-first :
    (m : Memory) (same : ℕ → Bool) (buff i n : ℕ) (r : Option ℕ)
    → m (entry_of buff i) ≢ 0
    → same (entry_of buff i) ≡ false
    → FoundIn m same buff (i + 1) n r
    → FoundIn m same buff i (suc n) r
FoundIn-first m same buff i n _ goes other (FoundIn.at_entry j ge lt passed some_j same_j) =
    FoundIn.at_entry j (omega arith) (omega arith) (Passed-first m same buff i j goes other passed)
      some_j same_j
FoundIn-first m same buff i n _ goes other (FoundIn.nowhere j passed ends) =
    FoundIn.nowhere j (Passed-first m same buff i j goes other passed)
      (elim ends [ inl last ↦ inl (omega arith) | inr empty ↦ inr empty ])

-- If fat16_filename_cmp of the name and every entry returns, the search through the entries of a
-- directory returns, and finds the first entry with the name, or none if there is none before the
-- end of the directory. Entries that are marked as deleted are not left out.
pub search_entries-FoundIn :
    (fuel n i filename buff : ℕ) (m : Memory) (same : ℕ → Bool)
    → ((entry : ℕ) → fat16_filename_cmp fuel filename entry m ≡ done (same entry))
    → (r : Option ℕ) × (search_entries fuel n i filename buff m ≡ done r)
      × FoundIn m same buff i n r
unfolding search_entries
search_entries-FoundIn fuel zero i filename buff m same compares =
    (none, refl, FoundIn.nowhere i (λ k ge lt. absurd (omega arith)) (inl (omega arith)))
search_entries-FoundIn fuel (suc n) i filename buff m same compares =
    let entry = entry_of buff i in
    let (r, run, found) = search_entries-FoundIn fuel n (i + 1) filename buff m same compares in
    let rest = search_entries fuel n (i + 1) filename buff m in
    let compared : Run (Option ℕ) =
      fat16_filename_cmp fuel filename entry m
      >>= (λ same. if same then done (some entry) else rest) in
    let step : Bool → Bool → Run Bool → Run (Option ℕ) = λ ends deleted c.
      if ends
      then done none
      else if deleted
      then rest
      else c >>= (λ same. if same then done (some entry) else rest) in
    let begins = ap₂ (step (m entry == 0)) (not_deleted (m entry)) (compares entry) in
    elim (Bool-cases (m entry == 0)) [
      | inl ends ↦ (
        none,
        ap
            (λ b.
              step b (eqb_ℤ (pos 0xe5) (signed_char (m entry)))
                (fat16_filename_cmp fuel filename entry m))
            ends,
        FoundIn.nowhere i (λ k ge lt. absurd (omega arith)) (inr (==→eq (m entry) 0 ends)),
      )
      | inr goes ↦ elim (Bool-cases (same entry)) [
        | inl here ↦ (
          some entry,
          begins ∙ ap₂ (λ b c. step b false (done c)) goes here,
          FoundIn.at_entry i (omega arith) (omega arith) (λ k ge lt. absurd (omega arith))
              (==→ne (m entry) 0 goes) here,
        )
        | inr other ↦ (
          r,
          begins ∙ ap₂ (λ b c. step b false (done c)) goes other ∙ run,
          FoundIn-first m same buff i n r (==→ne (m entry) 0 goes) other found,
        )
      ]
    ]
