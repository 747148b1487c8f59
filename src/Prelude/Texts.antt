-- ===== src/Prelude/Texts.antt =====
-- Texts as lists of code units, with the tests of `String.prototype`.
use Prim.Native.Char.{code}
use Prim.Native.String.{String}
use Prim.Native.Nat.{ℕ, suc, ◌+◌}
use mathlib.Core.Bool.{Bool, true, false, ◌&&◌}
use mathlib.Core.Option.{Option, none, some}
use mathlib.Core.List.{List, [], ◌∷◌}
use agent_sessions_backup.Prelude.Tests.{◌==◌, leb, if◌then◌else◌}

-- The code units of a literal.
abbrev pub units : String → List ℕ
units String.[] = []
units (String.◌∷◌ c s) = code c ∷ units s

unfoldable pub text_eq : List ℕ → List ℕ → Bool
text_eq [] [] = true
text_eq [] (d ∷ ds) = false
text_eq (c ∷ cs) [] = false
text_eq (c ∷ cs) (d ∷ ds) = (c == d) && text_eq cs ds

unfoldable pub starts_with : List ℕ → List ℕ → Bool
starts_with text [] = true
starts_with [] (p ∷ ps) = false
starts_with (c ∷ cs) (p ∷ ps) = (c == p) && starts_with cs ps

-- `text.indexOf(needle)`, with `none` for -1.
unfoldable pub find : List ℕ → List ℕ → Option ℕ
unfolding starts_with
find [] needle = if starts_with [] needle then some 0 else none
find (c ∷ cs) needle =
    let later : Option ℕ = elim (find cs needle) [ none ↦ none | some i ↦ some (suc i) ] in
    if starts_with (c ∷ cs) needle then some 0 else later

-- `toLowerCase` on a letter of the ASCII alphabet; any other code unit is kept.
unfoldable pub lower : ℕ → ℕ
lower c = if leb b'A' c && leb c b'Z' then c + 32 else c
