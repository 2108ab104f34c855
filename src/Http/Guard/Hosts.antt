-- ===== src/Http/Guard/Hosts.antt =====
-- The test of a Host value decides its rule (src/core/http/http_request.h).
use conan_exiles_teamspeak.Prelude.{
  ◌+◌, ◌≡◌, refl, ◌∙◌, ap, ap₂, sym, Bool, true, false, ◌&&◌, ◌||◌, none, some, [], ◌∷◌, ◌++◌, ◌==◌,
  arith, inl, inr, ◌⊎◌, Bool-cases, Option-cases, ◌↔◌, length, append-nil, append_assoc,
}
use conan_exiles_teamspeak.CText.{Bytes, codes, peek}
use conan_exiles_teamspeak.Http.Headers.{http_ieq}
use conan_exiles_teamspeak.Http.Guard.{split_at, host_name, count_digits, port_ok, host_is_local}
use conan_exiles_teamspeak.Http.Guard.Rules.{
  SameText, IsPort, LocalName, http_ieq_iff, SameText-has, SameText-plain, has, split_at-none,
  split_at-found, split_at_sound, Digits-iff,
}

count_digits-length : (cs : Bytes) → (count_digits cs).0 + length (count_digits cs).1 ≡ length cs
unfolding count_digits
count_digits-length [] = refl
count_digits-length (c ∷ cs) = ground (arith, count_digits-length cs)

port_ok_iff : (port : Bytes) → (port_ok port ≡ true) ↔ IsPort port
unfolding port_ok
port_ok_iff [] = (λ h. tt, λ h. refl)
port_ok_iff (c ∷ cs) =
    let digits = Digits-iff cs in
    let size = count_digits-length cs in
    (
      λ h. (ground arith, digits.0 (ground arith), ground arith),
      λ (colon, d, few). (let all = digits.1 d in ground arith),
    )

-- A host name without brackets, and one with them.
peek-plain :
    (name port : Bytes)
    → has b'[' name ≡ false
    → IsPort port
    → (peek (name ++ port) == b'[') ≡ false
peek-plain [] [] h p = refl
peek-plain [] (c ∷ cs) h (colon, d, few) = ground arith
peek-plain (c ∷ name) port h p = ground arith

host_name-plain :
    (name port : Bytes)
    → has b'[' name ≡ false
    → has b':' name ≡ false
    → IsPort port
    → host_name (name ++ port) ≡ some (name, port)
unfolding host_name
host_name-plain name [] bracket colon p =
    let start : (peek name == b'[') ≡ false =
      ap (λ t. peek t == b'[') (sym (append-nil name)) ∙ peek-plain name [] bracket p in
    let nothing = split_at-none b':' name colon in
    ap host_name (append-nil name) ∙ rw (start, nothing, host_name) refl
host_name-plain name (c ∷ cs) bracket colon (is_colon, d, few) =
    let start = peek-plain name (c ∷ cs) bracket (is_colon, d, few) in
    let found = split_at-found b':' name cs colon in
    let same : split_at b':' (name ++ (c ∷ cs)) ≡ some (name, cs) =
      ap (λ x. split_at b':' (name ++ (x ∷ cs))) is_colon ∙ found in
    let back : some (name, b':' ∷ cs) ≡ some (name, c ∷ cs) =
      ap (λ x. some (name, x ∷ cs)) (sym is_colon) in
    rw (start, same) back

host_name-bracket : (port : Bytes) → host_name (codes "[::1]" ++ port) ≡ some (codes "[::1]", port)
unfolding host_name split_at
host_name-bracket port = refl

host_name_sound : (v name port : Bytes) → host_name v ≡ some (name, port) → v ≡ name ++ port
unfolding host_name
host_name_sound v name port h = elim (Bool-cases (peek v == b'[')) [
  | inl bracket ↦ elim (Option-cases (split_at b']' v)) [
    | inl nothing ↦ absurd (ground arith)
    | inr ((f, b), found) ↦
        let split = split_at_sound b']' v f b found in
        let n : name ≡ f ++ (b']' ∷ []) = ground arith in
        let p : port ≡ b = ground arith in
        split ∙ sym (append_assoc f (b']' ∷ []) b) ∙ ap₂ ◌++◌ (sym n) (sym p)
  ]
  | inr other ↦ elim (Option-cases (split_at b':' v)) [
    | inl nothing ↦
        let n : name ≡ v = ground arith in
        let p : port ≡ [] = ground arith in sym (append-nil v) ∙ ap₂ ◌++◌ (sym n) (sym p)
    | inr ((f, b), found) ↦
        let split = split_at_sound b':' v f b found in
        let n : name ≡ f = ground arith in
        let p : port ≡ b':' ∷ b = ground arith in split ∙ ap₂ ◌++◌ (sym n) (sym p)
  ]
]

-- The names of this computer.
abbrev IsLocal : Bytes → Type 0
IsLocal name =
    SameText name (codes "127.0.0.1")
    ⊎ (SameText name (codes "localhost") ⊎ SameText name (codes "[::1]"))

abbrev local_name : Bytes → Bool
local_name name =
    http_ieq name (codes "127.0.0.1")
    || http_ieq name (codes "localhost")
    || http_ieq name (codes "[::1]")

local_name_iff : (name : Bytes) → (local_name name ≡ true) ↔ IsLocal name
local_name_iff name =
    let a = http_ieq_iff name (codes "127.0.0.1") in
    let b = http_ieq_iff name (codes "localhost") in
    let c = http_ieq_iff name (codes "[::1]") in
    either_of (http_ieq name (codes "127.0.0.1")) (http_ieq name (codes "localhost"))
      (http_ieq name (codes "[::1]")) a b c
  where
    either_of :
        (x y z : Bool) {A B C : Type 0}
        → (x ≡ true) ↔ A
        → (y ≡ true) ↔ B
        → (z ≡ true) ↔ C
        → (x || y || z ≡ true) ↔ (A ⊎ (B ⊎ C))
    either_of true y z a b c = (λ h. inl (a.0 refl), λ h. refl)
    either_of false true z a b c = (λ h. inr (inl (b.0 refl)), λ h. refl)
    either_of false false true a b c = (λ h. inr (inr (c.0 refl)), λ h. refl)
    either_of false false false {A} {B} {C} a b c =
        (λ h. absurd (ground arith), λ h. absurd (nobody h))
      where
        nobody : A ⊎ (B ⊎ C) → ⊥
        nobody (inl h) = absurd (ground (arith, a.1 h))
        nobody (inr (inl h)) = absurd (ground (arith, b.1 h))
        nobody (inr (inr h)) = absurd (ground (arith, c.1 h))

-- The code splits a local name where its port begins.
IsLocal-split :
    (name port : Bytes) → IsLocal name → IsPort port → host_name (name ++ port) ≡ some (name, port)
IsLocal-split name port (inl same) p =
    host_name-plain name port (SameText-has b'[' name (codes "127.0.0.1") refl same refl)
      (SameText-has b':' name (codes "127.0.0.1") refl same refl) p
IsLocal-split name port (inr (inl same)) p =
    host_name-plain name port (SameText-has b'[' name (codes "localhost") refl same refl)
      (SameText-has b':' name (codes "localhost") refl same refl) p
IsLocal-split name port (inr (inr same)) p =
    rw (SameText-plain name (codes "[::1]") refl same) (host_name-bracket port)

host_is_local-some :
    (v name port : Bytes)
    → host_name v ≡ some (name, port)
    → host_is_local v ≡ (local_name name && port_ok port)
unfolding host_is_local
host_is_local-some v name port e = rw (e, host_is_local) refl

host_is_local-none : (v : Bytes) → host_name v ≡ none → host_is_local v ≡ false
unfolding host_is_local
host_is_local-none v e = rw (e, host_is_local) refl

both_true : (a b : Bool) → (a && b ≡ true) ↔ ((a ≡ true) × (b ≡ true))
both_true a b = (λ h. (ground arith, ground arith), λ h. ground arith)

pub host_is_local_iff : (v : Bytes) → (host_is_local v ≡ true) ↔ LocalName v
host_is_local_iff v = (sound, complete)
  where
    sound : host_is_local v ≡ true → LocalName v
    sound h = elim (Option-cases (host_name v)) [
      | inl nothing ↦ absurd (ground (arith, host_is_local-none v nothing))
      | inr ((name, port), found) ↦
          let (a, b) =
            (both_true (local_name name) (port_ok port)).0
              (sym (host_is_local-some v name port found) ∙ h) in
          (
            name,
            port,
            host_name_sound v name port found,
            (local_name_iff name).0 a,
            (port_ok_iff port).0 b,
          )
    ]

    complete : LocalName v → host_is_local v ≡ true
    complete (name, port, split, here, p) =
        host_is_local-some v name port (ap host_name split ∙ IsLocal-split name port here p)
        ∙ (both_true (local_name name) (port_ok port)).1
            ((local_name_iff name).1 here, (port_ok_iff port).1 p)
