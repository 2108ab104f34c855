-- ===== src/Http/Guard/Allowed.antt =====
-- Which requests the guard lets through (src/core/http/http_request.h).
use conan_exiles_teamspeak.Prelude.{
  ℕ, zero, suc, ◌≡◌, refl, ◌∙◌, Bool, false, Option, none, some, List, [], ◌∷◌, arith, inl, inr,
  ◌↔◌, Option-cases, get_elem?, take, drop,
}
use conan_exiles_teamspeak.CText.{Bytes, codes}
use conan_exiles_teamspeak.Http.Headers.{header_get}
use conan_exiles_teamspeak.Http.Headers.Values.{header_values, header_get-values}
use conan_exiles_teamspeak.Http.Guard.Rules.{OwnOrigin, NotForeign, LocalHost}
use conan_exiles_teamspeak.Http.Guard.Decides.{bad_origin_iff, bad_site_iff, bad_host_iff}
use conan_exiles_teamspeak.Http.Guard.{
  ok, bad_origin, bad_site, bad_host, first_bad, most_headers, request_guard, verdict,
}

-- No value is rejected.
abbrev pub NoneBad : (Bytes → Bool) → List Bytes → Type 0
NoneBad bad [] = Unit
NoneBad bad (v ∷ vs) = (bad v ≡ false) × NoneBad bad vs

drop-get_elem? :
    (vs : List Bytes) (i : ℕ) (v : Bytes)
    → get_elem? vs i ≡ some v
    → drop i vs ≡ v ∷ drop (suc i) vs
drop-get_elem? [] i v h = cc
drop-get_elem? (x ∷ xs) zero v h = cc
drop-get_elem? (x ∷ xs) (suc i) v h = drop-get_elem? xs i v h

drop-end : (vs : List Bytes) (i : ℕ) → get_elem? vs i ≡ none → drop i vs ≡ []
drop-end [] zero h = refl
drop-end [] (suc i) h = refl
drop-end (x ∷ xs) zero h = cc
drop-end (x ∷ xs) (suc i) h = drop-end xs i h

first_bad-end :
    (bad : Bytes → Bool) (head name : Bytes) (i left : ℕ)
    → header_get head name i ≡ none
    → first_bad bad head name i (suc left) ≡ none
unfolding first_bad
first_bad-end bad head name i left e = ground arith

first_bad-cons :
    (bad : Bytes → Bool) (head name : Bytes) (i left : ℕ) (v : Bytes)
    → header_get head name i ≡ some v
    → (first_bad bad head name i (suc left) ≡ none)
      ↔ ((bad v ≡ false) × (first_bad bad head name (suc i) left ≡ none))
unfolding first_bad
first_bad-cons bad head name i left v e = (λ h. ground arith, λ h. ground arith)

first_bad_iff :
    (bad : Bytes → Bool) (head name : Bytes) (i left : ℕ)
    → (first_bad bad head name i left ≡ none)
      ↔ NoneBad bad (take left (drop i (header_values head name)))
unfolding first_bad
first_bad_iff bad head name i zero = (λ h. tt, λ h. refl)
first_bad_iff bad head name i (suc left) =
    elim (Option-cases (get_elem? (header_values head name) i)) [
      | inl e ↦
          let gone = header_get-values head name i ∙ e in
          rw (drop-end (header_values head name) i e)
            (λ h. tt, λ h. first_bad-end bad head name i left gone)
      | inr (v, e) ↦
          let found = header_get-values head name i ∙ e in
          let step = first_bad-cons bad head name i left v found in
          let later = first_bad_iff bad head name (suc i) left in
          rw (drop-get_elem? (header_values head name) i v e)
            (λ h. ((step.0 h).0, later.0 (step.0 h).1), λ h. step.1 (h.0, later.1 h.1))
    ]

-- The rule of a test, for every value.
abbrev pub Every : (Bytes → Type 0) → List Bytes → Type 0
Every Rule [] = Unit
Every Rule (v ∷ vs) = Rule v × Every Rule vs

NoneBad-iff :
    (bad : Bytes → Bool) (Rule : Bytes → Type 0) (vs : List Bytes)
    → ((v : Bytes) → (bad v ≡ false) ↔ Rule v)
    → NoneBad bad vs ↔ Every Rule vs
NoneBad-iff bad Rule [] decides = (λ h. tt, λ h. tt)
NoneBad-iff bad Rule (v ∷ vs) decides =
    let more = NoneBad-iff bad Rule vs decides in
    (λ (h, t). ((decides v).0 h, more.0 t), λ (h, t). ((decides v).1 h, more.1 t))

first_bad-rule :
    (bad : Bytes → Bool) (Rule : Bytes → Type 0) (head name : Bytes)
    → ((v : Bytes) → (bad v ≡ false) ↔ Rule v)
    → (first_bad bad head name 0 most_headers ≡ none)
      ↔ Every Rule (take most_headers (header_values head name))
first_bad-rule bad Rule head name decides =
    let loop = first_bad_iff bad head name 0 most_headers in
    let rule = NoneBad-iff bad Rule (take most_headers (header_values head name)) decides in
    (λ h. rule.0 (loop.0 h), λ h. loop.1 (rule.1 h))

verdict-none : (o f h : Option Bytes) → verdict o f h ≡ ok → (o ≡ none) × (f ≡ none) × (h ≡ none)
verdict-none none none none e = (refl, refl, refl)
verdict-none (some v) f h e = cc
verdict-none none (some v) h e = cc
verdict-none none none (some v) e = cc

verdict-ok : (o f h : Option Bytes) → o ≡ none → f ≡ none → h ≡ none → verdict o f h ≡ ok
verdict-ok none none none e e' e'' = refl
verdict-ok (some v) f h e e' e'' = cc
verdict-ok none (some v) h e e' e'' = cc
verdict-ok none none (some v) e e' e'' = cc

-- A request passes exactly when, letter case aside, among the first eight headers of each name
-- every Origin is shorter than 128 bytes and http://127.0.0.1 or http://localhost with the
-- plugin's port, no Sec-Fetch-Site is cross-site or same-site, and every Host is shorter than 128
-- bytes and 127.0.0.1, localhost or [::1], with nothing behind it or a colon and at most five
-- digits. Of an Origin and a Host the text in front of the first NUL counts.
pub request_guard_ok_iff :
    (head : Bytes) (port : ℕ)
    → (request_guard head port ≡ ok) ↔ (
        Every (OwnOrigin port) (take 8 (header_values head (codes "Origin")))
        × Every NotForeign (take 8 (header_values head (codes "Sec-Fetch-Site")))
        × Every LocalHost (take 8 (header_values head (codes "Host"))))
unfolding request_guard
request_guard_ok_iff head port =
    let origins =
      first_bad-rule (bad_origin port) (OwnOrigin port) head (codes "Origin")
        (bad_origin_iff port) in
    let sites = first_bad-rule bad_site NotForeign head (codes "Sec-Fetch-Site") bad_site_iff in
    let hosts = first_bad-rule bad_host LocalHost head (codes "Host") bad_host_iff in
    let o = first_bad (bad_origin port) head (codes "Origin") 0 most_headers in
    let f = first_bad bad_site head (codes "Sec-Fetch-Site") 0 most_headers in
    let h = first_bad bad_host head (codes "Host") 0 most_headers in
    (
      λ e.
          let (no_o, no_f, no_h) = verdict-none o f h e in
          (origins.0 no_o, sites.0 no_f, hosts.0 no_h),
      λ (a, b, c). verdict-ok o f h (origins.1 a) (sites.1 b) (hosts.1 c),
    )
