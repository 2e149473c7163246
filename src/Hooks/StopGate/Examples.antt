-- ===== src/Hooks/StopGate/Examples.antt =====
-- Concrete stops of two sessions.
use mosemo.Prelude.{
  ℕ, ◌≤◌, ◌≡◌, refl, String, true, false, Option, none, some, List, [], ◌∷◌, map, string_eq, ◌==◌,
  length, if◌then◌else◌,
}
use mosemo.Hooks.StopGate.{Failure, Outcome, max_blocks, Stop, gates}
use mosemo.Hooks.StopGate.Capped.{outcomes_of, gates-capped}

abbrev digest : List (String × List String) → String
digest [] = ""
digest (f ∷ failures) = f.0

abbrev lint : Failure
lint = record { name = "ruff check"; items = "E501" ∷ []; broken = false }

abbrev run_lint : String → Option Failure
run_lint name = if name == "ruff check" then some lint else none

-- A stop whose change fails `ruff check`.
abbrev failing : String → Stop
failing change = record {
  python_paths = "a.py" ∷ [];
  some_exist = true;
  formatted = change;
  checked = change;
  run_check = run_lint;
}

abbrev three : List (String × Stop)
three = ("s", failing "1") ∷ ("t", failing "7") ∷ ("s", failing "2") ∷ ("s", failing "3") ∷ []

abbrev brief : String × Outcome → String × ℕ × String
brief o = (o.0, o.1.code, o.1.result)

-- The fourth failure passes, and so does the same change again.
runs-gates :
    (map brief (gates digest [] three)
      ≡ ("s", 2, "block") ∷ ("t", 2, "block") ∷ ("s", 2, "block") ∷ ("s", 2, "block") ∷ [])
    × (map brief (
          gates digest [] (
            ("s", failing "1")
            ∷ ("s", failing "2")
            ∷ ("s", failing "3")
            ∷ ("s", failing "4")
            ∷ ("s", failing "5")
            ∷ ("s", failing "5")
            ∷ []))
        ≡ ("s", 2, "block")
          ∷ ("s", 2, "block")
          ∷ ("s", 2, "block")
          ∷ ("s", 0, "capped")
          ∷ ("s", 2, "block")
          ∷ ("s", 0, "cached")
          ∷ [])
unfolding gates
runs-gates = (refl, refl)

blocked :
    {session : String}
    → session ≡ "s"
    → (◌≡◌ {A = ℕ} 2 2) × (◌≡◌ {A = String} "ruff check" "ruff check")
blocked e = (refl, refl)

gates-capped_example : length (outcomes_of digest "s" (gates digest [] three)) ≤ max_blocks
unfolding gates
gates-capped_example =
    gates-capped digest [] three "s" "ruff check" (blocked, (blocked, (blocked, (blocked, tt))))

abbrev fine : Stop
fine = record (failing "9") { run_check = λ name. none }
