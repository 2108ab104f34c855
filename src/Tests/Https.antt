-- ===== src/Tests/Https.antt =====
-- The local server at concrete inputs.
use conan_exiles_teamspeak.Prelude.{ℕ, ◌≡◌, [], ◌∷◌, ◌++◌, ◌⊎◌, ◌↔◌, take}
use conan_exiles_teamspeak.CText.{Bytes, codes}
use conan_exiles_teamspeak.Http.Headers.Values.{header_values}
use conan_exiles_teamspeak.Http.Guard.{request_guard, ok}
use conan_exiles_teamspeak.Http.Guard.Allowed.{Every, request_guard_ok_iff}
use conan_exiles_teamspeak.Hub.ModPassword.{ModPassword, take_from_body}
use conan_exiles_teamspeak.Hub.ModPassword.Secret.{Clean, Untouched, CutOff, body_is_Clean}
use conan_exiles_teamspeak.Http.Guard.Rules.{OwnOrigin, NotForeign, LocalHost}

abbrev head : Bytes
head =
    codes "GET / HTTP/1.1" ++ (13 ∷ 10 ∷ codes "Host: localhost:52734" ++ (13 ∷ 10 ∷ 13 ∷ 10 ∷ []))

abbrev none_stored : ModPassword
none_stored = record { pw = []; seen_ms = 0 }

request_guard_ok_iff_example :
    let head : Bytes = head in
    let port : ℕ = 52734 in
    (request_guard head port ≡ ok) ↔ (
      Every (OwnOrigin port) (take 8 (header_values head (codes "Origin")))
      × Every NotForeign (take 8 (header_values head (codes "Sec-Fetch-Site")))
      × Every LocalHost (take 8 (header_values head (codes "Host"))))
request_guard_ok_iff_example = request_guard_ok_iff head 52734

body_is_Clean_example :
    let s : ModPassword = none_stored in
    let body : Bytes = codes "X=1 TSPW=secret" in
    let now : ℕ = 50 in
    let r = take_from_body s body now in Clean body r × (Untouched s body r ⊎ CutOff s body now r)
body_is_Clean_example = body_is_Clean none_stored (codes "X=1 TSPW=secret") 50
