-- ===== src/Prelude/Case.antt =====
-- strings.ToLower.
use mathlib.Core.Bool.{Bool}
use mathlib.Core.List.{[], ◌∷◌}
use Prim.Native.Nat.{ℕ, ◌+◌}
use packrune.Prelude.Tests.{ltb, if◌then◌else◌}
use packrune.Prelude.Text.{Bytes}
use packrune.Prelude.Fields.{all, in_range}

abbrev to_lower_byte : ℕ → ℕ
to_lower_byte c = if in_range b'A' b'Z' c then c + 32 else c

unfoldable pub lower_ascii : Bytes → Bytes
lower_ascii [] = []
lower_ascii (c ∷ s) = to_lower_byte c ∷ lower_ascii s

unfoldable pub is_ascii : Bytes → Bool
is_ascii s = all (λ c. ltb c 128) s

-- strings.ToLower; `other` is what it does to a text that is not all ASCII.
abbrev pub to_lower : (Bytes → Bytes) → Bytes → Bytes
to_lower other s = if is_ascii s then lower_ascii s else other s
