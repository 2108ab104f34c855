-- ===== src/Http/Body/Length.antt =====
-- Which lengths are accepted (src/core/http/http_request.h).
use conan_exiles_teamspeak.Prelude.{
  ℕ, ◌≤◌, ◌≡◌, ◌∙◌, sym, true, false, not, ◌||◌, some, ltb, leb, ◌==◌, if◌then◌else◌, arith,
  Bool-cases, inl, inr, length, Option-cases, get_elem?,
}
use conan_exiles_teamspeak.CText.{Bytes, Number, codes, scan_number, long_max}
use conan_exiles_teamspeak.Http.Headers.{header_get}
use conan_exiles_teamspeak.Http.Headers.Values.{header_values, header_get-values}
use conan_exiles_teamspeak.Http.Body.{
  invalid, absent, ok, too_big, number_size, all_digits, conflicts, value_length, content_length,
  body_len, body_incomplete,
}

-- What an accepted value says: decimal digits and nothing else, for a number within the limit.
pub record Accepted (value : Bytes) (max_body announced : ℕ) : Type 0 where
  pub digits : all_digits value ≡ true
  pub number : Number
  pub read : scan_number value ≡ some number
  pub whole : (number.magnitude ≡ announced) × (length number.rest ≡ 0)
  pub limit : (announced ≤ max_body) × (announced ≤ long_max)

from_number :
    (max_body announced : ℕ) (n : Number)
    → (if ltb long_max n.magnitude || not (length n.rest == 0)
        then invalid
        else if ltb max_body n.magnitude
        then too_big n.magnitude
        else ok n.magnitude)
      ≡ ok announced
    → (n.magnitude ≡ announced)
      × (length n.rest ≡ 0)
      × (announced ≤ max_body)
      × (announced ≤ long_max)
from_number max_body announced n h = ground arith

value_length-Accepted :
    (value : Bytes) (max_body announced : ℕ)
    → value_length value max_body ≡ ok announced
    → Accepted value max_body announced
unfolding value_length
value_length-Accepted value max_body announced h =
    elim (Bool-cases
      (length value == 0 || leb number_size (length value) || not (all_digits value))) [
        | inl bad ↦ let no : invalid ≡ ok announced = rw (bad, value_length) at h in cc
        | inr good ↦ elim (Option-cases (scan_number value)) [
          | inl e ↦ let no : invalid ≡ ok announced = rw (good, e, value_length) at h in cc
          | inr (n, e) ↦
              let (same, rest, max, range) =
                from_number max_body announced n (rw (good, e, value_length) at h) in
              record {
                digits = ground arith;
                number = n;
                read = e;
                whole = (same, rest);
                limit = (max, range);
              }
        ]
      ]

-- A length is accepted only from a first Content-Length header of digits alone, for the number
-- they write, within the caller's limit; the handler then reads no byte that has not arrived,
-- never more than the limit, and exactly the announced bytes once the body is complete.
pub content_length_sound :
    (head : Bytes) (max_body announced available : ℕ)
    → content_length head max_body ≡ ok announced
    → ((value : Bytes) × (get_elem? (header_values head (codes "Content-Length")) 0 ≡ some value)
        × Accepted value max_body announced)
      × (body_len true announced available ≤ available)
      × (body_len true announced available ≤ max_body)
      × (body_incomplete true announced available ≡ false
          → body_len true announced available ≡ announced)
unfolding body_len body_incomplete content_length
content_length_sound head max_body announced available h =
    elim (Option-cases (header_get head (codes "Content-Length") 0)) [
      | inl e ↦ let no : absent ≡ ok announced = rw (e, content_length) at h in cc
      | inr (v, e) ↦ elim (Bool-cases (conflicts v (header_get head (codes "Content-Length") 1))) [
        | inl c ↦ let no : invalid ≡ ok announced = rw (e, c, content_length) at h in cc
        | inr c ↦
            let good =
              value_length-Accepted v max_body announced (rw (e, c, content_length) at h) in
            (
              (v, sym (header_get-values head (codes "Content-Length") 0) ∙ e, good),
              ground arith,
              ground (arith, good.limit),
              λ w. ground arith,
            )
      ]
    ]
