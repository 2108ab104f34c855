-- ===== src/Http/Headers.antt =====
-- Reading a header block (src/core/http/http_request.h).
pub mod Values
use conan_exiles_teamspeak.Prelude.{
  ℕ, ◌+◌, ◌-◌, Bool, true, false, ◌&&◌, ◌||◌, Option, none, some, List, [], ◌∷◌, leb, ◌==◌,
  if◌then◌else◌, take,
}
use conan_exiles_teamspeak.CText.{Bytes, strip_end}

-- `http_lower`
abbrev pub http_lower : ℕ → ℕ
http_lower c = if leb b'A' c && leb c b'Z' then c + 32 else c

-- `http_ieq`
unfoldable pub http_ieq : Bytes → Bytes → Bool
http_ieq [] [] = true
http_ieq [] (b ∷ bs) = false
http_ieq (a ∷ as') [] = false
http_ieq (a ∷ as') (b ∷ bs) = http_lower a == http_lower b && http_ieq as' bs

-- `http_find_header_end`, from the i-th byte on
unfoldable pub find_header_end : ℕ → Bytes → Option ℕ
find_header_end i (a ∷ (b ∷ (c ∷ (d ∷ cs)))) =
    let later = find_header_end (i + 1) (b ∷ (c ∷ (d ∷ cs))) in
    if a == 13 && b == 10 && c == 13 && d == 10 then some (i + 4) else later
find_header_end i _ = none

-- The text behind the first line.
unfoldable pub skip_line : Bytes → Bytes
skip_line [] = []
skip_line (c ∷ cs) = if c == 10 then cs else skip_line cs

abbrev pub onto_line : ℕ → List Bytes → List Bytes
onto_line c [] = (c ∷ []) ∷ []
onto_line c (l ∷ ls) = (c ∷ l) ∷ ls

-- The lines that the loop of `http_header_get` visits, without their newline.
unfoldable pub lines : Bytes → List Bytes
lines [] = []
lines (c ∷ cs) = if c == 10 then [] ∷ lines cs else onto_line c (lines cs)

abbrev pub is_blank : ℕ → Bool
is_blank c = c == b' ' || c == 9

unfoldable pub skip_blanks : Bytes → Bytes
skip_blanks [] = []
skip_blanks (c ∷ cs) = if is_blank c then skip_blanks cs else c ∷ cs

-- A line without the carriage return at its end.
unfoldable pub drop_cr : Bytes → Bytes
drop_cr [] = []
drop_cr (c ∷ []) = if c == 13 then [] else c ∷ []
drop_cr (c ∷ (d ∷ cs)) = c ∷ drop_cr (d ∷ cs)

-- The text in front of the first colon and behind it.
unfoldable pub split_colon : Bytes → Option (Bytes × Bytes)
split_colon [] = none
split_colon (c ∷ cs) =
    let later = split_colon cs in
    if c == b':'
    then some ([], cs)
    else elim later [ none ↦ none | some found ↦ some (c ∷ found.0, found.1) ]

abbrev pub blank_start : Bytes → Bool
blank_start [] = true
blank_start (c ∷ cs) = is_blank c

-- One line as the header `name`: its trimmed value. Blank and folded lines are none.
unfoldable pub header_line : Bytes → Bytes → Option Bytes
unfolding http_ieq drop_cr split_colon strip_end skip_blanks
header_line name line =
    let text = drop_cr line in
    if blank_start text then none else elim (split_colon text) [
      | none ↦ none
      | some found ↦
          if http_ieq (strip_end is_blank found.0) name
          then some (strip_end is_blank (skip_blanks found.1))
          else none
    ]

-- The loop of `http_header_get` over the lines.
unfoldable pub nth_header : Bytes → ℕ → List Bytes → Option Bytes
unfolding header_line
nth_header name nth [] = none
nth_header name nth (line ∷ more) = elim (header_line name line) [
  | none ↦ nth_header name nth more
  | some value ↦
      let later = nth_header name (nth - 1) more in if nth == 0 then some value else later
]

-- `http_header_get`: the whole trimmed value; its length is `*outFullLen`.
unfoldable pub header_get : Bytes → Bytes → ℕ → Option Bytes
unfolding nth_header skip_line lines
header_get head name nth = nth_header name nth (lines (skip_line head))

-- What a caller with a buffer of `out_size` bytes gets of a value.
abbrev pub copied : ℕ → Bytes → Bytes
copied out_size value = take (out_size - 1) value
