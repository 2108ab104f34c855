-- ===== src/Nick/Privacy.antt =====
-- Which names are ever set (src/ts/nick/nick_anonymize.c).
use conan_exiles_teamspeak.Prelude.{
  ℕ, zero, suc, ◌+◌, ◌-◌, ◌*◌, ◌%◌, ◌≤◌, ◌≡◌, refl, Bool, true, false, not, ◌&&◌, ◌||◌, Option,
  none, some, List, [], ◌∷◌, leb, ◌==◌, arith, Bool-cases, inl, inr, ◌⊎◌, length, Option-cases,
  take,
}
use conan_exiles_teamspeak.CText.{Bytes}
use conan_exiles_teamspeak.CText.Equality.{take-all}
use conan_exiles_teamspeak.Nick.{
  taken_in_channel, Nick, NickEnv, save_real_name, saved_name_usable, looks_anonymized, buf_len,
  max_attempts, try_names, candidate, min_digits, max_digits, rename, anonymize_before_ingame,
  reset, restore_in_hub, on_connected,
}
use conan_exiles_teamspeak.Prelude.{length-take}
use conan_exiles_teamspeak.Nick.Digits.{make_random_lem}

-- The calls of the module, in the order in which the callback thread makes them.
pub data NickCall : Type 0 where
  connected : NickEnv → NickCall
  anonymize : NickEnv → ℕ → NickCall
  restore : NickEnv → NickCall
  forget : NickCall

-- A name that a call has set, before the ingame channel or in the hub.
pub data Shown : Type 0 where
  hidden shown : Bytes → Shown

onto : (Bytes → Shown) → Option Bytes → List Shown → List Shown
onto kind none more = more
onto kind (some name) more = kind name ∷ more

pub run : Nick → List NickCall → List Shown
unfolding onto
run s [] = []
run s (connected env ∷ more) = run (on_connected env s) more
run s (anonymize env channel ∷ more) =
    let (s', name) = anonymize_before_ingame env channel s in onto hidden name (run s' more)
run s (restore env ∷ more) = let (s', name) = restore_in_hub env s in onto shown name (run s' more)
run s (forget ∷ more) = run (reset s) more

-- A hidden name is a random one, and a name shown in the hub is not.
abbrev pub IsRight : List Shown → Type 0
IsRight [] = Unit
IsRight (hidden name ∷ more) = (looks_anonymized name ≡ true) × IsRight more
IsRight (shown name ∷ more) = (looks_anonymized name ≡ false) × IsRight more

pub record IsClean (s : Nick) : Type 0 where
  pub reused : (length s.reuse ≡ 0) ⊎ (looks_anonymized s.reuse ≡ true)
  pub saved : (length s.saved ≡ 0) ⊎ (looks_anonymized s.saved ≡ false)

looks_anonymized-le : (name : Bytes) → looks_anonymized name ≡ true → length name ≤ 10
unfolding looks_anonymized
looks_anonymized-le name h = ground arith

-- A long name does not look random, also when it is cut.
take-plain :
    (name : Bytes)
    → looks_anonymized name ≡ false
    → looks_anonymized (take (buf_len - 1) name) ≡ false
take-plain name h = elim (Bool-cases (leb (length name) (buf_len - 1))) [
  | inl short ↦ rw (take-all (buf_len - 1) name (ground arith)) h
  | inr long ↦ elim (Bool-cases (looks_anonymized (take (buf_len - 1) name))) [
    | inr plain ↦ plain
    | inl random ↦
        let size = looks_anonymized-le (take (buf_len - 1) name) random in
        let cut = length-take (buf_len - 1) name in absurd (ground arith)
  ]
]

candidate_random : (env : NickEnv) (k : ℕ) → looks_anonymized (candidate env k) ≡ true
unfolding candidate
candidate_random env k =
    (make_random_lem 16 (min_digits + env.random (2 * k) % (max_digits - min_digits + 1))
      (env.random (2 * k + 1)) (omega arith)).0

try_names_random :
    (env : NickEnv) (attempt left : ℕ) (name : Bytes)
    → try_names env attempt left ≡ some name
    → looks_anonymized name ≡ true
unfolding try_names
try_names_random env attempt zero name h = cc
try_names_random env attempt (suc left) name h =
    ground (arith, try_names_random env (attempt + 1) left name, candidate_random env attempt)

save-IsClean :
    (env : NickEnv) (s : Nick) (name : Bytes)
    → IsClean s
    → looks_anonymized name ≡ false
    → IsClean (save_real_name env s name)
unfolding save_real_name
save-IsClean env s name v h = record { reused = v.reused; saved = inr (take-plain name h) }

usable-IsClean : (env : NickEnv) (s : Nick) → IsClean s → IsClean (saved_name_usable env s).1
unfolding saved_name_usable
usable-IsClean env s v = ground arith

on_connected-IsClean : (env : NickEnv) (s : Nick) → IsClean s → IsClean (on_connected env s)
unfolding on_connected
on_connected-IsClean env s v = elim (Bool-cases env.on_callback) [
  | inr off ↦ rw off v
  | inl on ↦ elim (Option-cases env.own) [
    | inl e ↦ rw (on, e) v
    | inr (current, e) ↦ elim (Bool-cases (looks_anonymized current)) [
      | inl random ↦
          rw (on, e, random)
            (usable-IsClean env (record s { anonymized = true })
              (record { reused = v.reused; saved = v.saved }))
      | inr plain ↦
          let kept = save-IsClean env s current v plain in
          rw (on, e, plain) (record { reused = inl refl; saved = kept.saved })
    ]
  ]
]

-- The name that a call has set, if any, is a random one, or is none.
abbrev Named : Bool → Option Bytes → Type 0
Named random none = Unit
Named random (some name) = looks_anonymized name ≡ random

-- A rename sets a random name.
rename_random :
    (env : NickEnv) (s : Nick) → IsClean s → IsClean (rename env s).0 × Named true (rename env s).1
unfolding rename
rename_random env s v =
    elim (Bool-cases (
      not (length s.reuse == 0)
      && not (taken_in_channel env.others s.reuse)
      && env.accepts s.reuse)) [
        | inl again ↦ rw again (record { reused = v.reused; saved = v.saved }, ground arith)
        | inr fresh ↦ elim (Option-cases (try_names env 0 max_attempts)) [
          | inl e ↦ rw (fresh, e) (record { reused = v.reused; saved = inl refl }, tt)
          | inr (name, e) ↦
              let random = try_names_random env 0 max_attempts name e in
              let kept = take-all 15 name (omega (arith, looks_anonymized-le name random)) in
              rw (fresh, e) (record { reused = inr (rw kept random); saved = v.saved }, random)
        ]
      ]

anonymize_random :
    (env : NickEnv) (channel : ℕ) (s : Nick)
    → IsClean s
    → IsClean (anonymize_before_ingame env channel s).0
      × Named true (anonymize_before_ingame env channel s).1
unfolding anonymize_before_ingame
anonymize_random env channel s v =
    elim (Bool-cases
      (not env.on_callback || not env.connected || channel == 0 || not env.randomizer)) [
        | inl off ↦ rw off (v, tt)
        | inr on ↦ elim (Option-cases env.own) [
          | inl e ↦ rw (on, e) (v, tt)
          | inr (current, e) ↦ elim (Bool-cases (looks_anonymized current)) [
            | inl random ↦
                let kept = usable-IsClean env s v in
                rw (on, e, random) (record { reused = kept.reused; saved = kept.saved }, tt)
            | inr plain ↦
                rw (on, e, plain)
                  (rename_random env (save_real_name env (record s { anonymized = false }) current)
                    (save-IsClean env (record s { anonymized = false }) current
                      (record { reused = v.reused; saved = v.saved }) plain))
          ]
        ]
      ]

restore_plain :
    (env : NickEnv) (s : Nick)
    → IsClean s
    → IsClean (restore_in_hub env s).0 × Named false (restore_in_hub env s).1
unfolding restore_in_hub saved_name_usable reset
restore_plain env s v = ground arith

onto-hidden :
    (name : Option Bytes) (more : List Shown)
    → Named true name
    → IsRight more
    → IsRight (onto hidden name more)
unfolding onto
onto-hidden none more n h = h
onto-hidden (some name) more n h = (n, h)

onto-shown :
    (name : Option Bytes) (more : List Shown)
    → Named false name
    → IsRight more
    → IsRight (onto shown name more)
unfolding onto
onto-shown none more n h = h
onto-shown (some name) more n h = (n, h)

-- Whatever calls are made in whatever order, from a state in which the saved name does not look
-- random and the name to reuse does: every name set before the ingame channel looks random, and
-- every name set in the hub does not.
pub run-IsRight : (calls : List NickCall) (s : Nick) → IsClean s → IsRight (run s calls)
unfolding run reset
run-IsRight [] s v = tt
run-IsRight (connected env ∷ more) s v =
    run-IsRight more (on_connected env s) (on_connected-IsClean env s v)
run-IsRight (anonymize env channel ∷ more) s v =
    let (kept, named) = anonymize_random env channel s v in
    let (after, name) = anonymize_before_ingame env channel s in
    onto-hidden name (run after more) named (run-IsRight more after kept)
run-IsRight (restore env ∷ more) s v =
    let (kept, named) = restore_plain env s v in
    let (after, name) = restore_in_hub env s in
    onto-shown name (run after more) named (run-IsRight more after kept)
run-IsRight (forget ∷ more) s v =
    run-IsRight more (reset s) (record { reused = v.reused; saved = inl refl })
