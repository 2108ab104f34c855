-- ===== src/Http/Headers/Values.antt =====
-- Which values a header has (src/core/http/http_request.h).
use conan_exiles_teamspeak.Prelude.{
  ℕ, zero, suc, ◌≡◌, refl, ap₂, true, none, some, List, [], ◌∷◌, arith, map, get_elem?,
}
use conan_exiles_teamspeak.CText.{Bytes}
use conan_exiles_teamspeak.Http.Headers.{
  http_ieq, http_lower, skip_line, lines, header_line, nth_header, header_get,
}

-- All values of a header, in the order of the lines.
pub values : Bytes → List Bytes → List Bytes
values name [] = []
values name (line ∷ more) = elim (header_line name line) [
  | none ↦ values name more
  | some v ↦ v ∷ values name more
]

abbrev pub header_values : Bytes → Bytes → List Bytes
header_values head name = values name (lines (skip_line head))

nth_header-values :
    (name : Bytes) (nth : ℕ) (ls : List Bytes)
    → nth_header name nth ls ≡ get_elem? (values name ls) nth
unfolding nth_header values
nth_header-values name nth [] = refl
nth_header-values name zero (line ∷ more) = ground (arith, nth_header-values name zero more)
nth_header-values name (suc nth) (line ∷ more) =
    ground (arith, nth_header-values name (suc nth) more, nth_header-values name nth more)

pub header_get-values :
    (head name : Bytes) (nth : ℕ)
    → header_get head name nth ≡ get_elem? (header_values head name) nth
unfolding header_get
header_get-values head name nth = nth_header-values name nth (lines (skip_line head))

-- The comparison without case is equality of the texts in lower case.
pub http_ieq_sound : (a b : Bytes) → http_ieq a b ≡ true → map http_lower a ≡ map http_lower b
unfolding http_ieq
http_ieq_sound [] [] h = refl
http_ieq_sound [] (b ∷ bs) h = cc
http_ieq_sound (a ∷ as') [] h = cc
http_ieq_sound (a ∷ as') (b ∷ bs) h =
    ap₂ (◌∷◌) (ground arith) (http_ieq_sound as' bs (ground arith))

pub http_ieq_complete : (a b : Bytes) → map http_lower a ≡ map http_lower b → http_ieq a b ≡ true
unfolding http_ieq
http_ieq_complete [] [] h = refl
http_ieq_complete [] (b ∷ bs) h = cc
http_ieq_complete (a ∷ as') [] h = cc
http_ieq_complete (a ∷ as') (b ∷ bs) h =
    let first : http_lower a ≡ http_lower b = cc in
    let rest : map http_lower as' ≡ map http_lower bs = cc in
    let same = http_ieq_complete as' bs rest in ground arith
