-- ===== src/Hex.antt =====
-- `hex_str_to_vec` of src/utils.rs, on the bytes of the text.
pub mod Pairs
use rgb_multisig_hub.Base.{
  ℕ, ◌+◌, ◌*◌, ◌-◌, ◌%◌, Bool, true, false, ◌&&◌, Option, none, some, List, [], ◌∷◌, ◌++◌, ◌==◌,
  leb, if◌then◌else◌,
}

-- The value of a digit: `A` to `F`, `a` to `f`, `0` to `9`.
unfoldable pub digit : ℕ → Option ℕ
digit c =
    if leb 65 c && leb c 70
    then some (c - 65 + 10)
    else if leb 97 c && leb c 102
    then some (c - 97 + 10)
    else if leb 48 c && leb c 57
    then some (c - 48)
    else none

-- The byte `b` shifted by four bits, with a digit in the place of the low ones.
abbrev pub shift_in : ℕ → ℕ → ℕ
shift_in b d = b * 16 % 256 + d

-- The byte in progress and the output after the byte `b` at a position.
unfoldable pub next_byte : ℕ → ℕ → List ℕ → ℕ × List ℕ
next_byte idx b out = if idx % 2 == 1 then (0, out ++ b ∷ []) else (b, out)

-- The loop, with its index, the byte in progress and the output.
unfoldable pub hex_loop : List ℕ → ℕ → ℕ → List ℕ → Option (List ℕ)
hex_loop [] idx b out = some out
hex_loop (c ∷ cs) idx b out = elim (digit c) [
  | none ↦ none
  | some d ↦ let (b', out') = next_byte idx (shift_in b d) out in hex_loop cs (idx + 1) b' out'
]

unfoldable pub hex_str_to_vec : List ℕ → Option (List ℕ)
unfolding hex_loop
hex_str_to_vec hex = hex_loop hex 0 0 []
