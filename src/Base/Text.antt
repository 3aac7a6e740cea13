-- ===== src/Base/Text.antt =====
-- C strings as their character codes, and `strcasecmp` in the C locale.
use Prim.Native.Nat.{ℕ, ◌+◌}
use Prim.Native.Char.{code}
use Prim.Native.String.{String}
use mathlib.Core.Bool.{Bool, true, false, ◌&&◌}
use mathlib.Core.List.{List, [], ◌∷◌}
use mathlib.Core.List
use mhuxd.Base.Tests.{leb, ◌==◌, if◌then◌else◌}
use mhuxd.Base.Lists.{bytes_eq}

abbrev pub codes : String → List ℕ
codes String.[] = []
codes (String.◌∷◌ c s) = code c ∷ codes s

-- `tolower`
abbrev pub lower : ℕ → ℕ
lower c = if leb b'A' c && leb c b'Z' then c + 32 else c

-- `!strcasecmp(s, t)`
abbrev pub str_case_eq : List ℕ → List ℕ → Bool
str_case_eq s t = bytes_eq (List.map lower s) (List.map lower t)

-- `!strncmp(s, p, n)` for a text `p` of `n` characters
abbrev pub starts_with : List ℕ → List ℕ → Bool
starts_with [] s = true
starts_with (c ∷ p) [] = false
starts_with (c ∷ p) (d ∷ s) = let rest = starts_with p s in if c == d then rest else false

-- A decimal digit, and the characters between two.
abbrev pub between : ℕ → ℕ → ℕ → Bool
between lo hi c = leb lo c && leb c hi
