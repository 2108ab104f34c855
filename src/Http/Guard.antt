-- ===== src/Http/Guard.antt =====
-- The guard against browsers (src/core/http/http_request.h).
pub mod Allowed
pub mod Decides
pub mod Hosts
pub mod Rules
use conan_exiles_teamspeak.Prelude.{
  ℕ, zero, suc, ◌+◌, ◌-◌, ◌/◌, Bool, true, false, not, ◌&&◌, ◌||◌, Option, none, some, [], ◌∷◌,
  ◌++◌, leb, ◌==◌, if◌then◌else◌, length, take,
}
use conan_exiles_teamspeak.CText.{Bytes, codes, peek, print, until_nul, is_digit}
use conan_exiles_teamspeak.Http.Headers.{http_ieq, header_get, copied}

-- `HTTP_GUARD_OK` and the reasons to reject, with the value for the log.
pub data HttpGuard : Type 0 where
  ok : HttpGuard
  origin fetch_site host : Bytes → HttpGuard

-- `strchr`: the text in front of a byte and behind it.
unfoldable pub split_at : ℕ → Bytes → Option (Bytes × Bytes)
split_at byte [] = none
split_at byte (c ∷ cs) =
    let later = split_at byte cs in
    if c == byte
    then some ([], cs)
    else elim later [ none ↦ none | some found ↦ some (c ∷ found.0, found.1) ]

-- The name part of a `Host` value, with its brackets, and what follows it.
unfoldable pub host_name : Bytes → Option (Bytes × Bytes)
unfolding split_at
host_name value =
    if peek value == b'['
    then elim (split_at b']' value) [
      | none ↦ none
      | some found ↦ some (found.0 ++ (b']' ∷ []), found.1)
    ]
    else elim (split_at b':' value) [
      | none ↦ some (value, [])
      | some found ↦ some (found.0, b':' ∷ found.1)
    ]

-- The number of leading digits and the text behind them.
unfoldable pub count_digits : Bytes → ℕ × Bytes
unfolding is_digit
count_digits [] = (0, [])
count_digits (c ∷ cs) =
    let (n, rest) = count_digits cs in if is_digit c then (n + 1, rest) else (0, c ∷ cs)

-- The port behind a host name: nothing, or a colon and up to five digits.
unfoldable pub port_ok : Bytes → Bool
unfolding count_digits
port_ok [] = true
port_ok (c ∷ cs) =
    let (digits, rest) = count_digits cs in c == b':' && length rest == 0 && leb digits 5

-- `http_host_is_local`
unfoldable pub host_is_local : Bytes → Bool
unfolding host_name port_ok
host_is_local value = elim (host_name value) [
  | none ↦ false
  | some found ↦
      (http_ieq found.0 (codes "127.0.0.1")
        || http_ieq found.0 (codes "localhost")
        || http_ieq found.0 (codes "[::1]"))
      && port_ok found.1
]

-- `http_origin_is_own`
unfoldable pub origin_is_own : Bytes → ℕ → Bool
origin_is_own value port =
    http_ieq value (codes "http://127.0.0.1:" ++ print port [])
    || http_ieq value (codes "http://localhost:" ++ print port [])

-- The buffer `v` of the guard.
abbrev pub value_size : ℕ
value_size = 128

abbrev pub seen : Bytes → Bytes
seen value = until_nul (copied value_size value)

-- The three tests of one header value: whether the request is rejected for it.
unfoldable pub bad_origin : ℕ → Bytes → Bool
unfolding origin_is_own
bad_origin port value = leb value_size (length value) || not (origin_is_own (seen value) port)

unfoldable pub bad_site : Bytes → Bool
bad_site value =
    (length value == 10 && http_ieq (take 10 value) (codes "cross-site"))
    || (length value == 9 && http_ieq (take 9 value) (codes "same-site"))

unfoldable pub bad_host : Bytes → Bool
unfolding host_is_local
bad_host value = leb value_size (length value) || not (host_is_local (seen value))

-- The loop over up to `left` headers of one name, from the i-th on: the first rejected value.
unfoldable pub first_bad : (Bytes → Bool) → Bytes → Bytes → ℕ → ℕ → Option Bytes
unfolding header_get
first_bad bad head name i zero = none
first_bad bad head name i (suc left) = elim (header_get head name i) [
  | none ↦ none
  | some value ↦
      let later = first_bad bad head name (suc i) left in if bad value then some value else later
]

-- The number of headers of one name that are looked at.
abbrev pub most_headers : ℕ
most_headers = 8

-- The first loop that rejects a value ends the guard.
abbrev pub verdict : Option Bytes → Option Bytes → Option Bytes → HttpGuard
verdict (some value) _ _ = origin (seen value)
verdict none (some value) _ = fetch_site (seen value)
verdict none none (some value) = host (seen value)
verdict none none none = ok

-- `http_request_guard`
unfoldable pub request_guard : Bytes → ℕ → HttpGuard
unfolding first_bad bad_origin bad_site bad_host
request_guard head port =
    verdict (first_bad (bad_origin port) head (codes "Origin") 0 most_headers)
      (first_bad bad_site head (codes "Sec-Fetch-Site") 0 most_headers)
      (first_bad bad_host head (codes "Host") 0 most_headers)
