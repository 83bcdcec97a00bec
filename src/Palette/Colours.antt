-- ===== src/Palette/Colours.antt =====
-- The colours that the video card has after a palette was sent.
use ntm_os.Prelude.{
  ℕ, zero, suc, ◌+◌, ◌-◌, ◌*◌, ◌/◌, ◌%◌, ◌<◌, ◌≤◌, ◌≡◌, ap, ◌∙◌, arith, ◌&&◌, List, [], ◌∷◌, leb,
  ltb, ◌==◌, if◌then◌else◌,
}
use ntm_os.Prelude.Memory.{update}
use ntm_os.Palette.{send_colours, set_palette}

-- The converter of the video card: the colour that is written next, its part, from 0 to 2, and part
-- `part` of colour `i` at `3 * i + part`.
pub record Dac : Type 0 where
  pub index : ℕ
  pub part : ℕ
  pub colours : ℕ → ℕ

abbrev dac_data : ℕ → Dac → Dac
dac_data v d =
    if d.part == 2
    then record {
      index = (d.index + 1) % 256;
      part = 0;
      colours = update d.colours (3 * d.index + d.part) v;
    }
    else record {
      index = d.index;
      part = d.part + 1;
      colours = update d.colours (3 * d.index + d.part) v;
    }

-- What the card makes of a byte that is sent to a port.
abbrev pub dac_out : ℕ → ℕ → Dac → Dac
dac_out port v d =
    if port == 0x3c8
    then record d { index = v % 256; part = 0 }
    else if port == 0x3c9
    then dac_data v d
    else d

abbrev pub dac_outs : List (ℕ × ℕ) → Dac → Dac
dac_outs [] d = d
dac_outs ((port, v) ∷ more) d = dac_outs more (dac_out port v d)

-- Three parts of a colour, and then the colours that follow.
add_colour :
    (n k i : ℕ) (rgb colours : ℕ → ℕ) (c later : ℕ)
    → later ≡ (
        if leb (3 * (i + 1)) c && ltb c (3 * (i + 1 + n))
        then rgb (k + 3 + (c - 3 * (i + 1))) / 4
        else update
            (update (update colours (3 * i + 0) (rgb k / 4)) (3 * i + 1) (rgb (k + 1) / 4))
            (3 * i + 2)
            (rgb (k + 2) / 4)
            c)
    → later
      ≡ (if leb (3 * i) c && ltb c (3 * (i + suc n)) then rgb (k + (c - 3 * i)) / 4 else colours c)
unfolding update
add_colour n k i rgb colours c later e =
    let part : (j : ℕ) → c ≡ 3 * i + j → rgb (k + (c - 3 * i)) ≡ rgb (k + j) =
      λ j here. ap rgb (omega arith) in
    let first : c ≡ 3 * i + 0 → rgb (k + (c - 3 * i)) ≡ rgb k = λ here. ap rgb (omega arith) in
    let second = part 1 in
    let third = part 2 in
    let others : 3 * (i + 1) ≤ c → rgb (k + 3 + (c - 3 * (i + 1))) ≡ rgb (k + (c - 3 * i)) =
      λ behind. ap rgb (omega arith) in
    ground arith

send_colours-dac_outs :
    (n k i : ℕ) (rgb colours : ℕ → ℕ) (c : ℕ)
    → i + n ≤ 256
    → (dac_outs
          (send_colours n k rgb)
          (record { index = i % 256; part = 0; colours = colours })).colours
        c
      ≡ (if leb (3 * i) c && ltb c (3 * (i + n)) then rgb (k + (c - 3 * i)) / 4 else colours c)
unfolding send_colours
send_colours-dac_outs zero k i rgb colours c fits = ground arith
send_colours-dac_outs (suc n) k i rgb colours c fits =
    let here : i % 256 ≡ i = omega arith in
    let written : ℕ → ℕ → ℕ = λ i.
      update (update (update colours (3 * i + 0) (rgb k / 4)) (3 * i + 1) (rgb (k + 1) / 4))
        (3 * i + 2) (rgb (k + 2) / 4) in
    ap
      (λ a.
        (dac_outs (send_colours n (k + 3) rgb)
            (record { index = (a + 1) % 256; part = 0; colours = written a })).colours
          c)
      here
    ∙ add_colour n k i rgb colours c
        ((dac_outs (send_colours n (k + 3) rgb)
            (record { index = (i + 1) % 256; part = 0; colours = written i })).colours
          c)
        (send_colours-dac_outs n (k + 3) (i + 1) rgb (written i) c (omega arith))

-- In whatever state the converter of the video card is, after set_palette of some colours, which end
-- below 256, part `part` of colour `i` is the one of the table, without its two lowest bits, if the
-- colour is among them, and what it was if not.
pub set_palette-dac_outs :
    (start end i part : ℕ) (rgb : ℕ → ℕ) (d : Dac)
    → start ≤ end
    → end < 256
    → part < 3
    → (dac_outs (set_palette start end rgb) d).colours (3 * i + part) ≡ (
        if leb start i && leb i end
        then rgb (3 * (i - start) + part) / 4
        else d.colours (3 * i + part))
unfolding set_palette
set_palette-dac_outs start end i part rgb d le small third =
    let rounds : (if leb start end then end - start + 1 else 0) ≡ end - start + 1 = ground arith in
    let at : start ≤ i → 0 + (3 * i + part - 3 * start) ≡ 3 * (i - start) + part =
      λ h. omega arith in
    send_colours-dac_outs (if leb start end then end - start + 1 else 0) 0 start rgb d.colours
      (3 * i + part) (omega arith)
    ∙ ground arith
