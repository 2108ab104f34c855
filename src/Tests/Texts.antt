-- ===== src/Tests/Texts.antt =====
-- Base64 and names at concrete inputs.
use conan_exiles_teamspeak.Prelude.{ℕ, ◌≡◌, some, [], ◌∷◌, ◌>>=◌, arith}
use conan_exiles_teamspeak.CText.{Bytes}
use conan_exiles_teamspeak.Proto.Base64.{base64_encode, base64_decode}
use conan_exiles_teamspeak.Proto.Base64.Decode.{base64_round_trip}
use conan_exiles_teamspeak.Proto.Name.{text}

base64_round_trip_example :
    let input : Bytes = 1 ∷ 200 ∷ 3 ∷ 77 ∷ [] in
    let out_size : ℕ = 9 in
    let in_size : ℕ = 4 in
    (do text ← base64_encode input out_size; base64_decode text in_size) ≡ some input
base64_round_trip_example =
    base64_round_trip (1 ∷ 200 ∷ 3 ∷ 77 ∷ []) 9 4
      (omega arith, (omega arith, (omega arith, (omega arith, tt)))) (omega arith) (omega arith)
