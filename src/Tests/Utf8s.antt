-- ===== src/Tests/Utf8s.antt =====
-- The UTF-8 test at a concrete input.
use conan_exiles_teamspeak.Prelude.{ℕ, ◌≡◌, true, List, [], ◌∷◌, ◌↔◌}
use conan_exiles_teamspeak.Config.Utf8.{utf8_is_valid}
use conan_exiles_teamspeak.Config.Utf8.Encoded.{encode_all, AreScalars}
use conan_exiles_teamspeak.Config.Utf8.Decoded.{utf8_is_valid_iff}

utf8_is_valid_iff_example :
    (utf8_is_valid (83 ∷ (195 ∷ (164 ∷ []))) ≡ true)
    ↔ ((cps : List ℕ) × AreScalars cps × (83 ∷ (195 ∷ (164 ∷ [])) ≡ encode_all cps))
utf8_is_valid_iff_example = utf8_is_valid_iff (83 ∷ (195 ∷ (164 ∷ [])))
