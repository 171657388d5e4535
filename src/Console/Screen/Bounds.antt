-- ===== src/Console/Screen/Bounds.antt =====
-- console.c: where `cgaputc` and `consputc` write.
use tp2_so.Base.{
  ℕ, ◌+◌, ◌*◌, ◌/◌, ◌≤◌, ◌<◌, ◌≡◌, inl, inr, refl, ◌∙◌, false, some, List, [], ◌∷◌, ◌++◌, ◌==◌, ltb,
  leb, arith, Bool-cases,
}
use tp2_so.Console.{backspace, newline}
use tp2_so.Console.Screen.{
  Screen, put_cell, moved, scrolled, cgaputc, serial_bytes, consputc, consputs,
}

abbrev pub OnScreen : Screen → Type 0
OnScreen s = s.cursor < 24 * 80

moved_lem :
    (c : ℕ) (s : Screen)
    → OnScreen s
    → ((moved c s).cursor ≤ 24 * 80) × ((j : ℕ) → 25 * 80 ≤ j → (moved c s).cells j ≡ s.cells j)
moved_lem c s h = elim (Bool-cases (c == newline)) [
  | inl line ↦ rw line (omega arith, λ j le. refl)
  | inr no_line ↦ elim (Bool-cases (c == backspace)) [
    | inl back ↦ rw no_line (rw back (omega arith, λ j le. refl))
    | inr char ↦ rw no_line (rw char (omega arith, λ j le. ground arith))
  ]
]

-- From a cursor in the 24 rows, the calls of `consputc` for any characters never panic, leave the cursor
-- in the 24 rows, and write to no cell outside the 25 rows of the screen.
pub consputs_lem :
    (cs : List ℕ) (s : Screen)
    → OnScreen s
    → (t : Screen) × (consputs cs s ≡ some t)
      × OnScreen t
      × ((j : ℕ) → 25 * 80 ≤ j → t.cells j ≡ s.cells j)
unfolding consputs consputc cgaputc
consputs_lem [] s h = (s, refl, h, λ j le. refl)
consputs_lem (c ∷ cs) s h =
    let s1 = record s { serial = s.serial ++ serial_bytes c } in
    let m = moved c s1 in
    let (low, kept) = moved_lem c s1 h in
    let fine : ltb (25 * 80) m.cursor ≡ false = ground arith in
    elim (Bool-cases (leb 24 (m.cursor / 80))) [
      | inl full ↦
          let u = scrolled m in
          let v = record u { cells = put_cell u.cursor (32 + 0x0700) u.cells } in
          let (t, e, on, same) = consputs_lem cs v (omega arith) in
          (t, rw (fine, full, consputs) e, on, λ j le. same j le ∙ ground (arith, kept j le))
      | inr room ↦
          let v = record m { cells = put_cell m.cursor (32 + 0x0700) m.cells } in
          let (t, e, on, same) = consputs_lem cs v (ground arith) in
          (t, rw (fine, room, consputs) e, on, λ j le. same j le ∙ ground (arith, kept j le))
    ]
