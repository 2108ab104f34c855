-- ===== src/Config/Utf8/Decoded.antt =====
-- Valid bytes, read back to code points (src/core/config/config_text.h).
use conan_exiles_teamspeak.Prelude.{
  ℕ, zero, suc, ◌+◌, ◌*◌, ◌/◌, ◌%◌, ◌≤◌, ◌<◌, ◌≡◌, refl, ◌∙◌, ap, sym, ap₂, true, false, Option,
  none, some, List, [], ◌∷◌, ltb, ◌==◌, if◌then◌else◌, arith, Bool-cases, inl, inr, ◌⊎◌, ◌↔◌,
  length, Option-cases,
}
use mathlib.Core.Path.{subst}
use conan_exiles_teamspeak.CText.{Bytes}
use conan_exiles_teamspeak.Config.Utf8.{
  lead, follow, code_point_ok, next_char, valid_rounds, utf8_is_valid,
}
use conan_exiles_teamspeak.Config.Utf8.Encoded.{
  IsScalar, encode, encode_all, AreScalars, encoded-valid,
}
use conan_exiles_teamspeak.Config.Utf8.Shortest.{
  code_point_ok-IsScalar, encode_two, encode_three, encode_four,
}

-- A byte that follows has six bits of its own.
follow_back :
    (k cp v : ℕ) (s rest : Bytes)
    → follow (suc k) cp s ≡ some (v, rest)
    → (x : ℕ) × (out : Bytes) × (x < 64)
      × (s ≡ (128 + x) ∷ out)
      × (follow k (cp * 64 + x) out ≡ some (v, rest))
unfolding follow
follow_back k cp v [] rest h = absurd (ground arith)
follow_back k cp v (b ∷ bs) rest h = elim (Bool-cases (b / 64 == 2)) [
  | inl class ↦ (
    b % 64,
    bs,
    omega arith,
    ap (λ y. y ∷ bs) (high_bits b class),
    sym (taken b class (follow k (cp * 64 + b % 64) bs)) ∙ h,
  )
  | inr other ↦ absurd (omega (arith, refused b other (follow k (cp * 64 + b % 64) bs) (v, rest) h))
]
  where
    high_bits : (y : ℕ) → (y / 64 == 2) ≡ true → y ≡ 128 + y % 64
    high_bits y e = ground arith

    taken :
        (y : ℕ)
        → (y / 64 == 2) ≡ true
        → (o : Option (ℕ × Bytes)) → (if y / 64 == 2 then o else none) ≡ o
    taken y e o = rw e refl

    refused :
        (y : ℕ)
        → (y / 64 == 2) ≡ false
        → (o : Option (ℕ × Bytes)) (r : ℕ × Bytes) → (if y / 64 == 2 then o else none) ≡ some r
        → y ≡ suc y
    refused y e o r k' = ground arith

abbrev ByLead : ℕ → ℕ → ℕ → Type 0
ByLead c extra high =
    ((extra ≡ 1) × (high ≡ c % 32) × (194 ≤ c) × (c ≤ 223))
    ⊎ ((extra ≡ 2) × (high ≡ c % 16) × (224 ≤ c) × (c ≤ 239))
    ⊎ ((extra ≡ 3) × (high ≡ c % 8) × (240 ≤ c) × (c ≤ 244))

lead_back : (c extra high : ℕ) → lead c ≡ some (extra, high) → ByLead c extra high
unfolding lead
lead_back c extra high h = ground arith

-- What one round has passed over.
abbrev Passed : Bytes → Bytes → Type 0
Passed s rest = (cp : ℕ) × IsScalar cp × (s ≡ encode cp rest)

follow_none : (cp v : ℕ) (s rest : Bytes) → follow 0 cp s ≡ some (v, rest) → (cp ≡ v) × (s ≡ rest)
unfolding follow
follow_none cp v s rest h = (cc, cc)

two_back :
    (c cp : ℕ) (cs rest : Bytes)
    → 194 ≤ c
    → c ≤ 223
    → follow 1 (c % 32) cs ≡ some (cp, rest)
    → code_point_ok 1 cp ≡ true
    → Passed (c ∷ cs) rest
two_back c cp cs rest a b f ok =
    let (x, out, hx, e, f1) = follow_back 0 (c % 32) cp cs rest f in
    let (v, ends) = follow_none (c % 32 * 64 + x) cp out rest f1 in
    (
      cp,
      (code_point_ok-IsScalar 1 cp ok).0,
      ap (◌∷◌ c) e ∙ encode_two c x out a b hx ∙ ap₂ encode v ends,
    )

three_back :
    (c cp : ℕ) (cs rest : Bytes)
    → 224 ≤ c
    → c ≤ 239
    → follow 2 (c % 16) cs ≡ some (cp, rest)
    → code_point_ok 2 cp ≡ true
    → Passed (c ∷ cs) rest
three_back c cp cs rest a b f ok =
    let (x, out, hx, e, f1) = follow_back 1 (c % 16) cp cs rest f in
    let (y, out', hy, e', f2) = follow_back 0 (c % 16 * 64 + x) cp out rest f1 in
    let (v, ends) = follow_none ((c % 16 * 64 + x) * 64 + y) cp out' rest f2 in
    let (scalar, low, more) = code_point_ok-IsScalar 2 cp ok in
    let least = low refl in
    (
      cp,
      scalar,
      ap (◌∷◌ c) (e ∙ ap (◌∷◌ (128 + x)) e')
          ∙ encode_three c x y out' a b hx hy (omega arith)
          ∙ ap₂ encode v ends,
    )

four_back :
    (c cp : ℕ) (cs rest : Bytes)
    → 240 ≤ c
    → c ≤ 244
    → follow 3 (c % 8) cs ≡ some (cp, rest)
    → code_point_ok 3 cp ≡ true
    → Passed (c ∷ cs) rest
four_back c cp cs rest a b f ok =
    let (x, out, hx, e, f1) = follow_back 2 (c % 8) cp cs rest f in
    let (y, out', hy, e', f2) = follow_back 1 (c % 8 * 64 + x) cp out rest f1 in
    let (z, out'', hz, e'', f3) = follow_back 0 ((c % 8 * 64 + x) * 64 + y) cp out' rest f2 in
    let (v, ends) = follow_none (((c % 8 * 64 + x) * 64 + y) * 64 + z) cp out'' rest f3 in
    let (scalar, low, more) = code_point_ok-IsScalar 3 cp ok in
    let least = more refl in
    (
      cp,
      scalar,
      ap (◌∷◌ c) (e ∙ ap (◌∷◌ (128 + x)) (e' ∙ ap (◌∷◌ (128 + y)) e''))
          ∙ encode_four c x y z out'' a b hx hy hz (omega arith)
          ∙ ap₂ encode v ends,
    )

sequence_back :
    (c extra high cp : ℕ) (cs rest : Bytes)
    → ByLead c extra high
    → follow extra high cs ≡ some (cp, rest)
    → code_point_ok extra cp ≡ true
    → Passed (c ∷ cs) rest
sequence_back c extra high cp cs rest (inl (e, h, a, b)) f ok =
    two_back c cp cs rest a b (sym (ap₂ (λ u v. follow u v cs) e h) ∙ f)
      (subst (λ k. code_point_ok k cp ≡ true) e ok)
sequence_back c extra high cp cs rest (inr (inl (e, h, a, b))) f ok =
    three_back c cp cs rest a b (sym (ap₂ (λ u v. follow u v cs) e h) ∙ f)
      (subst (λ k. code_point_ok k cp ≡ true) e ok)
sequence_back c extra high cp cs rest (inr (inr (e, h, a, b))) f ok =
    four_back c cp cs rest a b (sym (ap₂ (λ u v. follow u v cs) e h) ∙ f)
      (subst (λ k. code_point_ok k cp ≡ true) e ok)

next_char_back : (c : ℕ) (cs rest : Bytes) → next_char c cs ≡ some rest → Passed (c ∷ cs) rest
unfolding next_char
next_char_back c cs rest h = elim (Bool-cases (ltb c 128)) [
  | inl ascii ↦ (c, inl (ground arith), ascii_back ascii)
  | inr high ↦ elim (Option-cases (lead c)) [
    | inl missing ↦ absurd (ground arith)
    | inr ((extra, bits), e) ↦ elim (Option-cases (follow extra bits cs)) [
      | inl broken ↦ absurd (ground arith)
      | inr ((cp, out), f) ↦ elim (Bool-cases (code_point_ok extra cp)) [
        | inl ok ↦
            sequence_back c extra bits cp cs rest (lead_back c extra bits e)
              (f ∙ ap (λ r. some (cp, r)) (ground arith)) ok
        | inr bad ↦ absurd (ground arith)
      ]
    ]
  ]
]
  where
    ascii_back : ltb c 128 ≡ true → c ∷ cs ≡ encode c rest
    ascii_back ascii = ground arith

valid_back :
    (rounds : ℕ) (s : Bytes)
    → valid_rounds rounds s ≡ true
    → (cps : List ℕ) × AreScalars cps × (s ≡ encode_all cps)
unfolding valid_rounds
valid_back rounds [] h = ([], tt, refl)
valid_back zero (c ∷ cs) h = absurd (ground arith)
valid_back (suc rounds) (c ∷ cs) h = elim (Option-cases (next_char c cs)) [
  | inl broken ↦ absurd (ground arith)
  | inr (rest, e) ↦
      let (cps, scalars, same) = valid_back rounds rest (ground arith) in
      let (cp, scalar, first) = next_char_back c cs rest e in
      (cp ∷ cps, (scalar, scalars), first ∙ ap (encode cp) same)
]

length-encode_all : (cps : List ℕ) → length cps ≤ length (encode_all cps)
length-encode_all [] = omega arith
length-encode_all (cp ∷ cps) = ground (arith, length-encode_all cps)

-- `cfg_utf8_is_valid` holds of exactly the bytes that are the UTF-8 form of some text: of a
-- sequence of Unicode scalar values, each in its shortest form. Overlong forms, surrogates,
-- code points beyond 0x10FFFF, stray and missing bytes are all refused, and no text is.
pub utf8_is_valid_iff :
    (s : Bytes)
    → (utf8_is_valid s ≡ true) ↔ ((cps : List ℕ) × AreScalars cps × (s ≡ encode_all cps))
unfolding utf8_is_valid
utf8_is_valid_iff s = (
  valid_back (length s) s,
  λ (cps, scalars, same).
      ap (λ t. valid_rounds (length t) t) same
      ∙ encoded-valid (length (encode_all cps)) cps scalars (length-encode_all cps),
)
