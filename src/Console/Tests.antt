-- ===== src/Console/Tests.antt =====
-- A console for console.c whose counters are about to wrap around.
use tp2_so.Base.{inl, some, ◌*◌, ◌≤◌}
use tp2_so.Console.Screen.{Screen, consputs, cprintf, directive, printint, digits_of}
use tp2_so.Console.Screen.Bounds.{OnScreen, consputs_lem}
use tp2_so.Console.Screen.Numerals.{Printed, printint_lem}
use tp2_so.Base.{ℕ, ◌-◌, ◌^◌, ◌≡◌, refl, true, false, List, [], ◌∷◌, replicate, arith}
use tp2_so.Console.{Console, consoleintr, consoleread, returns}
use tp2_so.Console.Editor.{Line, View, type_keys, take_line}
use tp2_so.Console.Editor.Typing.{consoleintr_refines}
use tp2_so.Console.Editor.Reading.{consoleread_refines, Same}
use tp2_so.Console.Editor.Lines.{IsPlain, empty, more, typed-read}

abbrev idle : Console
idle = record {
  buf = replicate 128 0;
  r = 2 ^ 32 - 2;
  w = 2 ^ 32 - 2;
  e = 2 ^ 32 - 2;
  out = [];
  wakeups = 0;
}

abbrev no_keys : Line
no_keys = record { ready = []; editing = [] }

idle-View : View idle no_keys
idle-View = record {
  storage = refl;
  r_in = omega arith;
  w_in = omega arith;
  e_in = omega arith;
  in_line = omega arith;
  fits = omega arith;
  queue = refl;
  line = refl;
}

-- "lx", a Backspace, "s", a newline, Control-P.
abbrev keys : List ℕ
keys = 108 ∷ 120 ∷ 127 ∷ 115 ∷ 13 ∷ 16 ∷ []

consoleintr_refines_example :
    View (consoleintr keys idle).0 (type_keys keys no_keys) × ((consoleintr keys idle).1 ≡ true)
consoleintr_refines_example = consoleintr_refines keys idle no_keys idle-View

consoleread_refines_example : Same [] (consoleread false 9 9 idle) (take_line false 9 9 [])
consoleread_refines_example = consoleread_refines false 9 9 idle no_keys idle-View

-- A read that finds a line ready.
keys_typed : (type_keys keys no_keys).ready ≡ 108 ∷ 115 ∷ 10 ∷ []
keys_typed = refl

l-IsPlain : IsPlain 108
l-IsPlain = omega arith

s-IsPlain : IsPlain 115
s-IsPlain = omega arith

typed-read_example :
    let stop = consoleread false 100 100 (consoleintr (108 ∷ 115 ∷ 10 ∷ []) idle).0 in
    (stop.dst ≡ 108 ∷ 115 ∷ 10 ∷ [])
    × (stop.left ≡ 97)
    × (stop.why ≡ returns)
    × View stop.console no_keys
typed-read_example =
    typed-read false 100 (108 ∷ 115 ∷ []) idle idle-View
      (more 108 (115 ∷ []) l-IsPlain (more 115 [] s-IsPlain empty)) (omega arith) (omega arith)

-- A cursor at the last place of the screen, which the next character scrolls.
abbrev last_place : Screen
last_place = record { cursor = 1919; cells = λ j. 0; serial = [] }

consputs_lem_example :
    (t : Screen) × (consputs (65 ∷ 256 ∷ 10 ∷ []) last_place ≡ some t)
    × OnScreen t
    × ((j : ℕ) → 25 * 80 ≤ j → t.cells j ≡ 0)
consputs_lem_example = consputs_lem (65 ∷ 256 ∷ 10 ∷ []) last_place (omega arith)

printint_lem_example : Printed 10 (2 ^ 32 - 705) true
printint_lem_example = printint_lem 10 (2 ^ 32 - 705) true (inl refl) (omega arith)

-- cprintf("%d%%\n", -7)
printed :
    cprintf (λ a. []) (λ i. 2 ^ 32 - 7) 0 (37 ∷ 100 ∷ 37 ∷ 37 ∷ 10 ∷ []) ≡ 45 ∷ 55 ∷ 37 ∷ 10 ∷ []
unfolding cprintf directive printint digits_of
printed = refl
