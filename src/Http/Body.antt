-- ===== src/Http/Body.antt =====
-- Content-Length and the body (src/core/http/http_request.h).
pub mod Length
use conan_exiles_teamspeak.Prelude.{
  ℕ, ◌-◌, Bool, true, false, not, ◌&&◌, ◌||◌, Option, none, some, [], ◌∷◌, ltb, leb, ◌==◌,
  if◌then◌else◌, length,
}
use conan_exiles_teamspeak.CText.{
  Bytes, codes, is_digit, scan_number, until_nul, str_same, long_max,
}
use conan_exiles_teamspeak.Http.Headers.{header_get, copied}

-- `HTTP_CL_INVALID`, `HTTP_CL_ABSENT`, `HTTP_CL_OK`, `HTTP_CL_TOO_BIG` with `*outLen`
pub data ContentLength : Type 0 where
  invalid absent : ContentLength
  ok too_big : ℕ → ContentLength

unfoldable pub all_digits : Bytes → Bool
unfolding is_digit
all_digits [] = true
all_digits (c ∷ cs) = is_digit c && all_digits cs

-- The buffers `v` and `v2`.
abbrev pub number_size : ℕ
number_size = 32

abbrev pub buffer : Bytes → Bytes
buffer value = until_nul (copied number_size value)

-- A second header that says something else.
unfoldable pub conflicts : Bytes → Option Bytes → Bool
unfolding str_same
conflicts value none = false
conflicts value (some other) =
    not (length value == length other) || not (str_same (buffer value) (buffer other))

-- What the value of the header says.
unfoldable pub value_length : Bytes → ℕ → ContentLength
unfolding all_digits scan_number
value_length value max_body =
    if length value == 0 || leb number_size (length value) || not (all_digits value)
    then invalid
    else elim (scan_number value) [
      | none ↦ invalid
      | some n ↦
          if ltb long_max n.magnitude || not (length n.rest == 0)
          then invalid
          else if ltb max_body n.magnitude
          then too_big n.magnitude
          else ok n.magnitude
    ]

-- `http_content_length`; a value of digits only has no sign.
unfoldable pub content_length : Bytes → ℕ → ContentLength
unfolding header_get conflicts value_length
content_length head max_body = elim (header_get head (codes "Content-Length") 0) [
  | none ↦ absent
  | some value ↦
      if conflicts value (header_get head (codes "Content-Length") 1)
      then invalid
      else value_length value max_body
]

-- `http_body_len` of a length that is not negative
unfoldable pub body_len : Bool → ℕ → ℕ → ℕ
body_len have_length announced available =
    let n = if have_length then announced else available in if ltb available n then available else n

-- `http_body_incomplete`
unfoldable pub body_incomplete : Bool → ℕ → ℕ → Bool
body_incomplete have_length announced available = have_length && ltb available announced
