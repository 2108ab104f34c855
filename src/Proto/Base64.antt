-- ===== src/Proto/Base64.antt =====
-- The base64 codec of the CEPOS packet (src/ts/proximity/ts3_cepos.c).
pub mod Decode
use conan_exiles_teamspeak.Prelude.{
  ℕ, ◌+◌, ◌-◌, ◌*◌, ◌/◌, ◌%◌, ◌^◌, true, false, ◌&&◌, Option, none, some, [], ◌∷◌, leb, ◌==◌,
  if◌then◌else◌, get_or, ◌>>=◌,
}
use conan_exiles_teamspeak.CText.{Bytes, codes}

-- `b64_table`
abbrev pub table : Bytes
table = codes "ABCDEFGHIJKLMNOPQRSTUVWXYZabcdefghijklmnopqrstuvwxyz0123456789+/"

unfoldable pub b64_char : ℕ → ℕ
b64_char i = get_or table i 0

-- `b64_value`; `none` is -1.
unfoldable pub b64_value : ℕ → Option ℕ
b64_value c =
    if leb b'A' c && leb c b'Z'
    then some (c - b'A')
    else if leb b'a' c && leb c b'z'
    then some (c - b'a' + 26)
    else if leb b'0' c && leb c b'9'
    then some (c - b'0' + 52)
    else if c == b'+'
    then some 62
    else if c == b'/'
    then some 63
    else none

-- `(a << 16) | (b << 8) | c` of bytes, whose bits do not overlap.
abbrev pub triple : ℕ → ℕ → ℕ → ℕ
triple a b c = a * 2 ^ 16 + b * 2 ^ 8 + c

-- `base64_encode` from the output position `j` on; `none` is the result 0 for a buffer that is
-- too small. The test stands in every round, before the four characters are written.
unfoldable pub encode_from : Bytes → ℕ → ℕ → Option Bytes
encode_from [] j max = some []
encode_from (a ∷ []) j max =
    let t = triple a 0 0 in
    if leb max (j + 4)
    then none
    else some (b64_char (t / 2 ^ 18 % 64) ∷ b64_char (t / 2 ^ 12 % 64) ∷ b'=' ∷ b'=' ∷ [])
encode_from (a ∷ b ∷ []) j max =
    let t = triple a b 0 in
    if leb max (j + 4)
    then none
    else some (
        b64_char (t / 2 ^ 18 % 64)
        ∷ b64_char (t / 2 ^ 12 % 64)
        ∷ b64_char (t / 2 ^ 6 % 64)
        ∷ b'='
        ∷ [])
encode_from (a ∷ b ∷ c ∷ input) j max =
    let t = triple a b c in
    let later = encode_from input (j + 4) max in
    if leb max (j + 4)
    then none
    else later >>= λ out. some (
        b64_char (t / 2 ^ 18 % 64)
        ∷ b64_char (t / 2 ^ 12 % 64)
        ∷ b64_char (t / 2 ^ 6 % 64)
        ∷ b64_char (t % 64)
        ∷ out)

unfoldable pub base64_encode : Bytes → ℕ → Option Bytes
unfolding encode_from
base64_encode input max = encode_from input 0 max

-- The loop of `base64_decode`: `val` is a uint32, `held` is `valb + 8`, the number of its low
-- bits that have not been written. `j` bytes were written before.
unfoldable pub decode_from : Bytes → ℕ → ℕ → ℕ → ℕ → Option Bytes
decode_from [] val held j max = some []
decode_from (c ∷ cs) val held j max = elim (c == b'=') [
  | true ↦ some []
  | false ↦ elim (b64_value c) [
    | none ↦ decode_from cs val held j max
    | some v ↦
        let val' = (val * 64 + v) % 2 ^ 32 in
        let emitted = decode_from cs val' (held + 6 - 8) (j + 1) max in
        let kept = decode_from cs val' (held + 6) j max in
        if leb 8 (held + 6)
        then (if leb max j
            then none
            else emitted >>= λ out. some (val' / 2 ^ (held + 6 - 8) % 256 ∷ out))
        else kept
  ]
]

-- `base64_decode`; `none` is the result 0 for a buffer that is too small.
unfoldable pub base64_decode : Bytes → ℕ → Option Bytes
unfolding decode_from b64_value
base64_decode input max = decode_from input 0 0 0 max
