-- ===== src/Config/Utf8.antt =====
-- Whether the bytes of plugin.cfg are UTF-8, which decides how they are decoded
-- (src/core/config/config_text.h).
pub mod Encoded
pub mod Shortest
pub mod Decoded
use conan_exiles_teamspeak.Prelude.{
  ℕ, zero, suc, ◌+◌, ◌*◌, ◌/◌, ◌%◌, Bool, true, false, not, ◌&&◌, ◌||◌, Option, none, some, [], ◌∷◌,
  ltb, leb, ◌==◌, if◌then◌else◌, length,
}
use conan_exiles_teamspeak.CText.{Bytes}

-- The first byte of a sequence of more than one: how many follow, and its bits of the code point.
unfoldable pub lead : ℕ → Option (ℕ × ℕ)
lead c =
    if leb 194 c && leb c 223
    then some (1, c % 32)
    else if leb 224 c && leb c 239
    then some (2, c % 16)
    else if leb 240 c && leb c 244
    then some (3, c % 8)
    else none

-- The bytes that follow: `(s & 0xC0) == 0x80`, and their six bits added; none if one is missing.
unfoldable pub follow : ℕ → ℕ → Bytes → Option (ℕ × Bytes)
follow zero cp s = some (cp, s)
follow (suc k) cp [] = none
follow (suc k) cp (b ∷ bs) =
    let rest = follow k (cp * 64 + b % 64) bs in if b / 64 == 2 then rest else none

-- The code point is none that a shorter sequence has, a surrogate, or too large.
unfoldable pub code_point_ok : ℕ → ℕ → Bool
code_point_ok extra cp =
    not ((extra == 2 && ltb cp 2048) || (extra == 3 && ltb cp 65536))
    && not (ltb 1114111 cp || (leb 55296 cp && leb cp 57343))

-- One round on a text that is not empty: where the next one begins, none for a fault.
unfoldable pub next_char : ℕ → Bytes → Option Bytes
unfolding lead follow code_point_ok
next_char c cs = if ltb c 128 then some cs else elim (lead c) [
  | none ↦ none
  | some (extra, high) ↦ elim (follow extra high cs) [
    | none ↦ none
    | some (cp, rest) ↦ if code_point_ok extra cp then some rest else none
  ]
]

-- The loop, for a number of rounds.
unfoldable pub valid_rounds : ℕ → Bytes → Bool
unfolding next_char
valid_rounds rounds [] = true
valid_rounds zero (c ∷ cs) = false
valid_rounds (suc rounds) (c ∷ cs) = elim (next_char c cs) [
  | none ↦ false
  | some rest ↦ valid_rounds rounds rest
]

-- `cfg_utf8_is_valid`: as many rounds as there are bytes are enough.
unfoldable pub utf8_is_valid : Bytes → Bool
unfolding valid_rounds
utf8_is_valid s = valid_rounds (length s) s

-- `cfg_has_non_ascii`
unfoldable pub has_non_ascii : Bytes → Bool
has_non_ascii [] = false
has_non_ascii (c ∷ cs) = leb 128 c || has_non_ascii cs

-- `cfg_ansi_bytes_are_unambiguous`
unfoldable pub ansi_bytes_are_unambiguous : Bytes → Bool
ansi_bytes_are_unambiguous s = not (has_non_ascii s) || not (utf8_is_valid s)
