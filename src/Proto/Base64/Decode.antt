-- ===== src/Proto/Base64/Decode.antt =====
-- Base64: decoding gives back what was encoded.
use mathlib.Core.Path.{subst}
use conan_exiles_teamspeak.Prelude.{
  Bool-cases, inl, inr, ℕ, zero, suc, ◌+◌, ◌*◌, ◌/◌, ◌%◌, ◌^◌, ◌≤◌, ◌<◌, ◌≡◌, refl, ap, Bool, true,
  false, not, ◌&&◌, none, some, [], ◌∷◌, ◌==◌, ◌>>=◌, arith, length, lt→leb_false, ap₂,
}
use conan_exiles_teamspeak.CText.{Bytes}
use conan_exiles_teamspeak.Proto.Base64.{
  b64_char, b64_value, triple, encode_from, base64_encode, decode_from, base64_decode,
}

abbrev reads_back : ℕ → Bool
reads_back v = elim (b64_value (b64_char v)) [
  | none ↦ false
  | some w ↦ w == v && not (b64_char v == b'=')
]

-- The characters of `count` values from `first` on read back.
row_reads_back : ℕ → ℕ → Bool
row_reads_back zero first = true
row_reads_back (suc count) first = reads_back first && row_reads_back count (first + 1)

table-reads_back : row_reads_back 64 0 ≡ true
unfolding row_reads_back b64_value b64_char
table-reads_back = refl

in_row :
    (count first v : ℕ)
    → row_reads_back count first ≡ true
    → first ≤ v
    → v < first + count
    → reads_back v ≡ true
unfolding row_reads_back
in_row zero first v row low high = absurd (omega arith)
in_row (suc count) first v row low high = elim (Bool-cases (first == v)) [
  | inl same ↦
      let here : reads_back first ≡ true = ground arith in
      subst (λ w. reads_back w ≡ true) (ground arith) here
  | inr other ↦ in_row count (first + 1) v (ground arith) (ground arith) (omega arith)
]

b64_value-b64_char :
    (v : ℕ) → v < 64 → (b64_value (b64_char v) ≡ some v) × ((b64_char v == b'=') ≡ false)
b64_value-b64_char v h = ground (arith, in_row 64 0 v table-reads_back (omega arith) h)

-- One character of the code: the first of a group writes nothing, the others one byte each.
decode_first :
    (v : ℕ) (cs : Bytes) (val j max : ℕ)
    → v < 64
    → decode_from (b64_char v ∷ cs) val 0 j max ≡ decode_from cs ((val * 64 + v) % 2 ^ 32) 6 j max
unfolding decode_from
decode_first v cs val j max h = ground (arith, b64_value-b64_char v h)

module _ (v : ℕ) (cs : Bytes) (val j max : ℕ) (h : v < 64) (room : j < max) where
  abbrev next_val : ℕ
  next_val = (val * 64 + v) % 2 ^ 32

  decode_second :
      decode_from (b64_char v ∷ cs) val 6 j max
      ≡ (decode_from cs next_val 4 (j + 1) max >>= λ out. some (next_val / 16 % 256 ∷ out))
  unfolding decode_from
  decode_second = ground (arith, b64_value-b64_char v h)

  decode_third :
      decode_from (b64_char v ∷ cs) val 4 j max
      ≡ (decode_from cs next_val 2 (j + 1) max >>= λ out. some (next_val / 4 % 256 ∷ out))
  unfolding decode_from
  decode_third = ground (arith, b64_value-b64_char v h)

  decode_fourth :
      decode_from (b64_char v ∷ cs) val 2 j max
      ≡ (decode_from cs next_val 0 (j + 1) max >>= λ out. some (next_val % 256 ∷ out))
  unfolding decode_from
  decode_fourth = ground (arith, b64_value-b64_char v h)

decode_padding :
    (cs : Bytes) (val held j max : ℕ) → decode_from (b'=' ∷ cs) val held j max ≡ some []
unfolding decode_from
decode_padding cs val held j max = refl

-- The code without a buffer.
abbrev first : ℕ → ℕ
first t = t / 2 ^ 18 % 64

abbrev second : ℕ → ℕ
second t = t / 2 ^ 12 % 64

abbrev third : ℕ → ℕ
third t = t / 2 ^ 6 % 64

abbrev chars : Bytes → Bytes
chars [] = []
chars (a ∷ []) =
    b64_char (first (triple a 0 0)) ∷ b64_char (second (triple a 0 0)) ∷ b'=' ∷ b'=' ∷ []
chars (a ∷ b ∷ []) =
    b64_char (first (triple a b 0))
    ∷ b64_char (second (triple a b 0))
    ∷ b64_char (third (triple a b 0))
    ∷ b'='
    ∷ []
chars (a ∷ b ∷ c ∷ input) =
    b64_char (first (triple a b c))
    ∷ b64_char (second (triple a b c))
    ∷ b64_char (third (triple a b c))
    ∷ b64_char (triple a b c % 64)
    ∷ chars input

encode_from-chars :
    (input : Bytes) (j max : ℕ)
    → j + 4 * ((length input + 2) / 3) < max
    → encode_from input j max ≡ some (chars input)
unfolding encode_from
encode_from-chars [] j max h = refl
encode_from-chars (a ∷ []) j max h = ground arith
encode_from-chars (a ∷ b ∷ []) j max h = ground arith
encode_from-chars (a ∷ b ∷ c ∷ input) j max h =
    rw (encode_from-chars input (j + 4) max (omega arith), lt→leb_false max (j + 4) (omega arith))

abbrev pub AllBytes : Bytes → Type 0
AllBytes [] = Unit
AllBytes (b ∷ bs) = (b < 256) × AllBytes bs

-- The bits of a group come out as its three bytes, whatever `val` held before.
module _ (a b c val : ℕ) (ha : a < 256) (hb : b < 256) (hc : c < 256) where
  abbrev val_one : ℕ
  val_one = (val * 64 + first (triple a b c)) % 2 ^ 32

  abbrev val_two : ℕ
  val_two = (val_one * 64 + second (triple a b c)) % 2 ^ 32

  abbrev val_three : ℕ
  val_three = (val_two * 64 + third (triple a b c)) % 2 ^ 32

  abbrev val_four : ℕ
  val_four = (val_three * 64 + triple a b c % 64) % 2 ^ 32

  first_byte : val_two / 16 % 256 ≡ a
  first_byte = omega arith

  second_byte : val_three / 4 % 256 ≡ b
  second_byte = omega arith

  third_byte : val_four % 256 ≡ c
  third_byte = omega arith

decode_from-chars :
    (input : Bytes) (val j max : ℕ)
    → AllBytes input
    → j + length input ≤ max
    → decode_from (chars input) val 0 j max ≡ some input
decode_from-chars [] val j max h room = unfold decode_from in refl
decode_from-chars (a ∷ []) val j max h room =
    rw
      (
        decode_first (first (triple a 0 0)) _ val j max (omega arith),
        decode_second (second (triple a 0 0)) _ _ j max (omega arith) (omega arith),
        decode_padding,
      )
      (ap (λ (x : ℕ). some (x ∷ [])) (first_byte a 0 0 val h.0 (omega arith) (omega arith)))
decode_from-chars (a ∷ b ∷ []) val j max h room =
    rw
      (
        decode_first (first (triple a b 0)) _ val j max (omega arith),
        decode_second (second (triple a b 0)) _ _ j max (omega arith) (omega arith),
        decode_third (third (triple a b 0)) _ _ (j + 1) max (omega arith) (omega arith),
        decode_padding,
      )
      (ap₂ (λ (x y : ℕ). some (x ∷ y ∷ [])) (first_byte a b 0 val h.0 h.1.0 (omega arith))
        (second_byte a b 0 val h.0 h.1.0 (omega arith)))
decode_from-chars (a ∷ b ∷ c ∷ input) val j max h room = rw (
  decode_first (first (triple a b c)) _ val j max (omega arith),
  decode_second (second (triple a b c)) _ _ j max (omega arith) (omega arith),
  decode_third (third (triple a b c)) _ _ (j + 1) max (omega arith) (omega arith),
  decode_fourth (triple a b c % 64) _ _ (j + 1 + 1) max (omega arith) (omega arith),
  decode_from-chars input (val_four a b c val h.0 h.1.0 h.1.1.0) (j + 1 + 1 + 1) max h.1.1.1
      (omega arith),
  first_byte a b c val h.0 h.1.0 h.1.1.0,
  second_byte a b c val h.0 h.1.0 h.1.1.0,
  third_byte a b c val h.0 h.1.0 h.1.1.0,
)

-- Whatever bytes are encoded into a buffer with room for the text and its NUL, decoding into a
-- buffer with room for the bytes gives them back.
pub base64_round_trip :
    (input : Bytes) (out_size in_size : ℕ)
    → AllBytes input
    → 4 * ((length input + 2) / 3) < out_size
    → length input ≤ in_size
    → (do text ← base64_encode input out_size; base64_decode text in_size) ≡ some input
unfolding base64_encode base64_decode
base64_round_trip input out_size in_size h room space =
    rw (encode_from-chars input 0 out_size (omega arith))
      (decode_from-chars input 0 0 in_size h (omega arith))
