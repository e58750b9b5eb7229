-- ===== src/Base/Bytes.antt =====
-- Go strings and byte slices: lists of bytes.
use Prim.Native.Nat.{ℕ}
use Prim.Native.Char.{code}
use Prim.Native.String.{String}
use mathlib.Core.List.{List, [], ◌∷◌}
use cloud_agent_sandbox.Base.Tests.{Eq, nat_eq, eqb, list_beq, list_beq_iff}

abbrev pub Text : Type 0
Text = List ℕ

-- A literal of the source. All of them are ASCII, so that code points are bytes.
abbrev pub bytes : String → Text
bytes String.[] = []
bytes (String.◌∷◌ c s) = code c ∷ bytes s

instance abbrev pub text_eq : Eq Text
text_eq = record { beq = list_beq eqb; beq_iff = list_beq_iff }

abbrev pub newline : ℕ
newline = 10
