-- ===== src/Tests/Lengths.antt =====
-- Content-Length at a concrete request.
use conan_exiles_teamspeak.Prelude.{ℕ, ◌≤◌, ◌≡◌, refl, true, false, some, [], ◌∷◌, ◌++◌, get_elem?}
use conan_exiles_teamspeak.CText.{Bytes, codes}
use conan_exiles_teamspeak.Http.Headers.Values.{header_values}
use conan_exiles_teamspeak.Http.Body.{content_length, body_len, body_incomplete}
use conan_exiles_teamspeak.Http.Body.Length.{Accepted, content_length_sound}

abbrev head : Bytes
head = codes "POST / HTTP/1.1" ++ (13 ∷ 10 ∷ codes "Content-Length: 12" ++ (13 ∷ 10 ∷ 13 ∷ 10 ∷ []))

content_length_sound_example :
    let head : Bytes = head in
    let max_body : ℕ = 4096 in
    let announced : ℕ = 12 in
    let available : ℕ = 5 in
    ((value : Bytes) × (get_elem? (header_values head (codes "Content-Length")) 0 ≡ some value)
      × Accepted value max_body announced)
    × (body_len true announced available ≤ available)
    × (body_len true announced available ≤ max_body)
    × (body_incomplete true announced available ≡ false
        → body_len true announced available ≡ announced)
unfolding content_length
content_length_sound_example = content_length_sound head 4096 12 5 refl
