-- ===== src/Nick.antt =====
-- The nickname anonymizer (src/ts/nick/nick_anonymize.c), on the callback thread only.
pub mod Digits
pub mod Restore
pub mod Privacy
use conan_exiles_teamspeak.Prelude.{
  ℕ, zero, suc, ◌+◌, ◌-◌, ◌*◌, ◌%◌, ◌^◌, Bool, true, false, not, ◌&&◌, ◌||◌, Option, none, some,
  List, [], ◌∷◌, ltb, leb, ◌==◌, if◌then◌else◌, length, take,
}
use conan_exiles_teamspeak.CText.{Bytes, str_same, is_digit}

-- `NICK_MIN_DIGITS`, `NICK_MAX_DIGITS`, `NICK_MAX_ATTEMPTS`, `NICK_BUF_LEN`
abbrev pub min_digits : ℕ
min_digits = 8

abbrev pub max_digits : ℕ
max_digits = 10

abbrev pub max_attempts : ℕ
max_attempts = 32

abbrev pub buf_len : ℕ
buf_len = 4 * 64 + 1

-- `NickBinding`
pub record NickBinding : Type 0 where
  pub handler : ℕ
  pub server_uid : Bytes

abbrev pub no_binding : NickBinding
no_binding = record { handler = 0; server_uid = [] }

-- `g_savedNickname`, `g_savedBinding`, `g_reuseAnonNickname`, `g_anonymized`
pub record Nick : Type 0 where
  pub saved : Bytes
  pub binding : NickBinding
  pub reuse : Bytes
  pub anonymized : Bool

-- What one call is told: by the adapter the thread, the connection, the own nickname (none if
-- the SDK fails), the active handler and the server's UID, the names of the clients in the
-- channel asked about (none where a name cannot be read), and whether the server takes a name;
-- by the profile whether names are randomized; and the numbers that `nick_rand` yields.
pub record NickEnv : Type 0 where
  pub on_callback : Bool
  pub connected : Bool
  pub own : Option Bytes
  pub handler : ℕ
  pub server_uid : Option Bytes
  pub others : List (Option Bytes)
  pub accepts : Bytes → Bool
  pub randomizer : Bool
  pub random : ℕ → ℕ

-- `nick_binding_current`
unfoldable pub binding_current : NickEnv → NickBinding
binding_current env = record {
  handler = env.handler;
  server_uid = elim env.server_uid [ none ↦ [] | some uid ↦ uid ];
}

-- `nick_binding_matches`
unfoldable pub binding_matches : NickBinding → NickBinding → Bool
unfolding str_same
binding_matches saved now =
    saved.handler == now.handler
    && not (
        not (length saved.server_uid == 0)
        && not (length now.server_uid == 0)
        && not (str_same saved.server_uid now.server_uid))

-- `nick_save_real_name`
unfoldable pub save_real_name : NickEnv → Nick → Bytes → Nick
unfolding binding_current
save_real_name env s real_name = record s {
  saved = take (buf_len - 1) real_name;
  binding = binding_current env;
}

-- `nick_saved_name_usable`
unfoldable pub saved_name_usable : NickEnv → Nick → Bool × Nick
unfolding binding_current
saved_name_usable env s =
    if length s.saved == 0
    then (false, s)
    else if binding_matches s.binding (binding_current env)
    then (true, s)
    else (false, record s { saved = []; binding = no_binding })

-- The loop of `nick_make_random`: `left` more digits from the i-th on.
unfoldable pub more_digits : ℕ → ℕ → ℕ → Bytes
more_digits zero i r = []
more_digits (suc left) i r =
    let next = (r * 1103515245 + 12345 + i) % 2 ^ 32 in
    (b'0' + next % 10) ∷ more_digits left (i + 1) next

-- The number of digits, clamped.
unfoldable pub clamp_digits : ℕ → ℕ
clamp_digits digit_count =
    if ltb digit_count min_digits
    then min_digits
    else if ltb max_digits digit_count
    then max_digits
    else digit_count

-- `nick_make_random` with the number `r` of `nick_rand`
unfoldable pub make_random : ℕ → ℕ → ℕ → Bytes
unfolding more_digits clamp_digits
make_random out_size digit_count r =
    let count = clamp_digits digit_count in
    if ltb out_size (count + 1) then [] else (b'1' + r % 9) ∷ more_digits (count - 1) 1 r

unfoldable pub only_digits : Bytes → Bool
unfolding is_digit
only_digits [] = true
only_digits (c ∷ cs) = is_digit c && only_digits cs

-- `nick_looks_anonymized`
unfoldable pub looks_anonymized : Bytes → Bool
unfolding only_digits
looks_anonymized nick =
    not (length nick == 0)
    && leb min_digits (length nick)
    && leb (length nick) max_digits
    && only_digits nick

-- `nick_taken_in_channel`
unfoldable pub taken_in_channel : List (Option Bytes) → Bytes → Bool
unfolding str_same
taken_in_channel [] candidate = false
taken_in_channel (none ∷ more) candidate = taken_in_channel more candidate
taken_in_channel (some name ∷ more) candidate =
    str_same name candidate || taken_in_channel more candidate

-- `nick_on_connected`
unfoldable pub on_connected : NickEnv → Nick → Nick
unfolding save_real_name saved_name_usable
on_connected env s = if not env.on_callback then s else elim env.own [
  | none ↦ s
  | some current ↦
      if not (looks_anonymized current)
      then record (save_real_name env s current) { anonymized = false; reuse = [] }
      else (saved_name_usable env (record s { anonymized = true })).1
]

-- The candidate of an attempt, written into 16 bytes.
unfoldable pub candidate : NickEnv → ℕ → Bytes
unfolding make_random
candidate env attempt =
    make_random 16 (min_digits + env.random (2 * attempt) % (max_digits - min_digits + 1))
      (env.random (2 * attempt + 1))

-- The loop of attempts: the first candidate that is free and taken by the server.
unfoldable pub try_names : NickEnv → ℕ → ℕ → Option Bytes
unfolding taken_in_channel
try_names env attempt zero = none
try_names env attempt (suc left) =
    let later = try_names env (attempt + 1) left in
    if taken_in_channel env.others (candidate env attempt)
    then later
    else if env.accepts (candidate env attempt)
    then some (candidate env attempt)
    else later

-- From the saving of the real name on: the state, and the name that was set.
unfoldable pub rename : NickEnv → Nick → Nick × Option Bytes
unfolding taken_in_channel
rename env s =
    if not (length s.reuse == 0) && not (taken_in_channel env.others s.reuse) && env.accepts s.reuse
    then (record s { anonymized = true }, some s.reuse)
    else elim (try_names env 0 max_attempts) [
      | some name ↦ (record s { anonymized = true; reuse = take 15 name }, some name)
      | none ↦ (record s { saved = []; binding = no_binding }, none)
    ]

-- `nick_anonymize_before_ingame`
unfoldable pub anonymize_before_ingame : NickEnv → ℕ → Nick → Nick × Option Bytes
unfolding saved_name_usable save_real_name
anonymize_before_ingame env channel s =
    if not env.on_callback || not env.connected || channel == 0 || not env.randomizer
    then (s, none)
    else elim env.own [
      | none ↦ (s, none)
      | some current ↦
          if looks_anonymized current
          then (record (saved_name_usable env s).1 { anonymized = true }, none)
          else rename env (save_real_name env (record s { anonymized = false }) current)
    ]

-- `nick_reset`
unfoldable pub reset : Nick → Nick
reset s = record s { saved = []; binding = no_binding; anonymized = false }

-- `nick_restore_in_hub`
unfoldable pub restore_in_hub : NickEnv → Nick → Nick × Option Bytes
unfolding saved_name_usable reset
restore_in_hub env s =
    if not env.on_callback || not s.anonymized
    then (s, none)
    else if not env.connected
    then (reset s, none)
    else let (usable, kept) = saved_name_usable env s in
      if not usable
      then (reset kept, none)
      else if env.accepts kept.saved
      then (reset kept, some kept.saved)
      else (kept, none)
