-- ===== src/Config/Utf8/Encoded.antt =====
-- The encodings of texts and the test (src/core/config/config_text.h).
use conan_exiles_teamspeak.Prelude.{
  ℕ, zero, suc, ◌+◌, ◌*◌, ◌/◌, ◌%◌, ◌≤◌, ◌<◌, ◌≡◌, refl, ◌∙◌, ap, true, false, none, some, List, [],
  ◌∷◌, ltb, if◌then◌else◌, arith, inl, inr, ◌⊎◌, length, lt→ltb, ltb→lt, if_either,
}
use conan_exiles_teamspeak.CText.{Bytes}
use conan_exiles_teamspeak.Config.Utf8.{lead, follow, code_point_ok, next_char, valid_rounds}

-- A Unicode scalar value.
abbrev pub IsScalar : ℕ → Type 0
IsScalar cp = (cp < 55296) ⊎ ((57344 ≤ cp) × (cp < 1114112))

-- The UTF-8 form of a scalar value, in front of what follows.
abbrev pub encode : ℕ → Bytes → Bytes
encode cp out =
    if ltb cp 128
    then cp ∷ out
    else if ltb cp 2048
    then (192 + cp / 64) ∷ ((128 + cp % 64) ∷ out)
    else if ltb cp 65536
    then (224 + cp / 4096) ∷ ((128 + cp / 64 % 64) ∷ ((128 + cp % 64) ∷ out))
    else (240 + cp / 262144)
      ∷ ((128 + cp / 4096 % 64) ∷ ((128 + cp / 64 % 64) ∷ ((128 + cp % 64) ∷ out)))

abbrev pub encode_all : List ℕ → Bytes
encode_all [] = []
encode_all (cp ∷ cps) = encode cp (encode_all cps)

abbrev pub AreScalars : List ℕ → Type 0
AreScalars [] = Unit
AreScalars (cp ∷ cps) = IsScalar cp × AreScalars cps

-- The bytes that follow, one by one.
follow_one :
    (k cp x : ℕ) (out : Bytes)
    → x < 64
    → follow (suc k) cp ((128 + x) ∷ out) ≡ follow k (cp * 64 + x) out
unfolding follow
follow_one k cp x out h =
    let class : (128 + x) / 64 ≡ 2 = omega arith in
    let bits : (128 + x) % 64 ≡ x = omega arith in rw (class, bits) refl

lead_two : (c : ℕ) → 194 ≤ c → c ≤ 223 → lead c ≡ some (1, c % 32)
unfolding lead
lead_two c a b = ground arith

lead_three : (c : ℕ) → 224 ≤ c → c ≤ 239 → lead c ≡ some (2, c % 16)
unfolding lead
lead_three c a b = ground arith

lead_four : (c : ℕ) → 240 ≤ c → c ≤ 244 → lead c ≡ some (3, c % 8)
unfolding lead
lead_four c a b = ground arith

next_char_lem :
    (c : ℕ) (cs : Bytes) (extra high cp : ℕ) (rest : Bytes)
    → 128 ≤ c
    → lead c ≡ some (extra, high)
    → follow extra high cs ≡ some (cp, rest)
    → code_point_ok extra cp ≡ true
    → next_char c cs ≡ some rest
unfolding next_char
next_char_lem c cs extra high cp rest h a b ok =
    let beyond : ltb c 128 ≡ false = ground arith in rw (beyond, a, b, ok) refl

ok_two : (cp : ℕ) → cp < 2048 → code_point_ok 1 cp ≡ true
unfolding code_point_ok
ok_two cp h = ground arith

ok_three : (cp : ℕ) → 2048 ≤ cp → cp < 65536 → IsScalar cp → code_point_ok 2 cp ≡ true
unfolding code_point_ok
ok_three cp a b (inl h) = ground arith
ok_three cp a b (inr (h, k)) = ground arith

ok_four : (cp : ℕ) → 65536 ≤ cp → cp < 1114112 → code_point_ok 3 cp ≡ true
unfolding code_point_ok
ok_four cp a b = ground arith

follow_end : (cp v : ℕ) (out : Bytes) → cp ≡ v → follow 0 cp out ≡ some (v, out)
unfolding follow
follow_end cp v out h = ap (λ x. some (x, out)) h

ascii_lem : (cp : ℕ) (out : Bytes) → cp < 128 → next_char cp out ≡ some out
unfolding next_char
ascii_lem cp out h = rw (lt→ltb cp 128 h) refl

two_bytes :
    (cp : ℕ) (out : Bytes)
    → 128 ≤ cp
    → cp < 2048
    → next_char (192 + cp / 64) ((128 + cp % 64) ∷ out) ≡ some out
two_bytes cp out low high =
    let c = 192 + cp / 64 in
    next_char_lem c ((128 + cp % 64) ∷ out) 1 (c % 32) cp out (omega arith)
      (lead_two c (omega arith) (omega arith))
      (follow_one 0 (c % 32) (cp % 64) out (omega arith)
        ∙ follow_end (c % 32 * 64 + cp % 64) cp out (omega arith))
      (ok_two cp high)

three_bytes :
    (cp : ℕ) (out : Bytes)
    → 2048 ≤ cp
    → cp < 65536
    → IsScalar cp
    → next_char (224 + cp / 4096) ((128 + cp / 64 % 64) ∷ ((128 + cp % 64) ∷ out)) ≡ some out
three_bytes cp out low high scalar =
    let c = 224 + cp / 4096 in
    let one = c % 16 * 64 + cp / 64 % 64 in
    next_char_lem c ((128 + cp / 64 % 64) ∷ ((128 + cp % 64) ∷ out)) 2 (c % 16) cp out (omega arith)
      (lead_three c (omega arith) (omega arith))
      (follow_one 1 (c % 16) (cp / 64 % 64) ((128 + cp % 64) ∷ out) (omega arith)
        ∙ follow_one 0 one (cp % 64) out (omega arith)
        ∙ follow_end (one * 64 + cp % 64) cp out (omega arith))
      (ok_three cp low high scalar)

four_bytes :
    (cp : ℕ) (out : Bytes)
    → 65536 ≤ cp
    → cp < 1114112
    → next_char
        (240 + cp / 262144)
        ((128 + cp / 4096 % 64) ∷ ((128 + cp / 64 % 64) ∷ ((128 + cp % 64) ∷ out)))
      ≡ some out
four_bytes cp out low high =
    let c = 240 + cp / 262144 in
    let one = c % 8 * 64 + cp / 4096 % 64 in
    let two = one * 64 + cp / 64 % 64 in
    let last = (128 + cp % 64) ∷ out in
    next_char_lem c ((128 + cp / 4096 % 64) ∷ ((128 + cp / 64 % 64) ∷ last)) 3 (c % 8) cp out
      (omega arith) (lead_four c (omega arith) (omega arith))
      (follow_one 2 (c % 8) (cp / 4096 % 64) ((128 + cp / 64 % 64) ∷ last) (omega arith)
        ∙ follow_one 1 one (cp / 64 % 64) last (omega arith)
        ∙ follow_one 0 two (cp % 64) out (omega arith)
        ∙ follow_end (two * 64 + cp % 64) cp out (omega arith))
      (ok_four cp low high)

valid_next :
    (rounds c : ℕ) (cs rest : Bytes)
    → next_char c cs ≡ some rest
    → valid_rounds (suc rounds) (c ∷ cs) ≡ valid_rounds rounds rest
unfolding valid_rounds
valid_next rounds c cs rest h =
    ap (λ o. elim o [ none ↦ false | some later ↦ valid_rounds rounds later ]) h

-- One round passes over one encoded scalar value.
valid_step :
    (rounds cp : ℕ) (out : Bytes)
    → IsScalar cp
    → valid_rounds (suc rounds) (encode cp out) ≡ valid_rounds rounds out
valid_step rounds cp out scalar =
    if_either (λ s. valid_rounds (suc rounds) s ≡ valid_rounds rounds out) (ltb cp 128)
      (λ ascii. valid_next rounds _ _ out (ascii_lem cp out (ltb→lt cp 128 ascii)))
      (λ more.
        if_either (λ s. valid_rounds (suc rounds) s ≡ valid_rounds rounds out) (ltb cp 2048)
          (λ two. valid_next rounds _ _ out (two_bytes cp out (ground arith) (ground arith)))
          (λ more'.
            if_either (λ s. valid_rounds (suc rounds) s ≡ valid_rounds rounds out) (ltb cp 65536)
              (λ three.
                valid_next rounds _ _ out (three_bytes cp out (ground arith) (ground arith) scalar))
              (λ four.
                valid_next rounds _ _ out (four_bytes cp out (ground arith) (ground arith)))))

pub encoded-valid :
    (rounds : ℕ) (cps : List ℕ)
    → AreScalars cps
    → length cps ≤ rounds
    → valid_rounds rounds (encode_all cps) ≡ true
unfolding valid_rounds
encoded-valid rounds [] h enough = refl
encoded-valid zero (cp ∷ cps) h enough = absurd (omega arith)
encoded-valid (suc rounds) (cp ∷ cps) (h, hs) enough =
    valid_step rounds cp (encode_all cps) h ∙ encoded-valid rounds cps hs (omega arith)
