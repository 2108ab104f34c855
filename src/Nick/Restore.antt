-- ===== src/Nick/Restore.antt =====
-- Which names come back in the hub (src/ts/nick/nick_anonymize.c).
use conan_exiles_teamspeak.Prelude.{
  ℕ, ◌-◌, ◌<◌, ◌≡◌, refl, ◌∙◌, ap, sym, true, false, not, ◌&&◌, Option, some, [], ◌∷◌, ◌==◌, arith,
  inl, inr, ◌⊎◌, length, set,
}
use conan_exiles_teamspeak.CText.{Bytes, str_same}
use conan_exiles_teamspeak.CText.Equality.{str_same_refl, str_same_sound, take-all}
use conan_exiles_teamspeak.Nick.{
  NickBinding, Nick, NickEnv, binding_current, binding_matches, save_real_name, saved_name_usable,
  looks_anonymized, buf_len, rename, anonymize_before_ingame, reset, restore_in_hub,
}

binding_matches_refl : (b : NickBinding) → binding_matches b b ≡ true
unfolding binding_matches
binding_matches_refl b = ground (arith, str_same_refl b.server_uid)

-- A rename that sets a name keeps what was saved.
rename-keeps :
    (env : NickEnv) (s : Nick) (name : Bytes)
    → (rename env s).1 ≡ some name
    → ((rename env s).0.saved ≡ s.saved)
      × ((rename env s).0.binding ≡ s.binding)
      × ((rename env s).0.anonymized ≡ true)
unfolding rename
rename-keeps env s name h = ground arith

anonymize-rename :
    (env : NickEnv) (channel : ℕ) (real : Bytes) (s : Nick) (name : Bytes)
    → env.own ≡ some real
    → looks_anonymized real ≡ false
    → (anonymize_before_ingame env channel s).1 ≡ some name
    → anonymize_before_ingame env channel s
      ≡ rename env (save_real_name env (record s { anonymized = false }) real)
unfolding anonymize_before_ingame
anonymize-rename env channel real s name own plain h = ground arith

restore-saved :
    (env : NickEnv) (s : Nick)
    → env.on_callback ≡ true
    → env.connected ≡ true
    → s.anonymized ≡ true
    → 0 < length s.saved
    → s.binding ≡ binding_current env
    → env.accepts s.saved ≡ true
    → restore_in_hub env s ≡ (reset s, some s.saved)
unfolding restore_in_hub saved_name_usable
restore-saved env s c k a l b ok =
    let same : binding_matches s.binding (binding_current env) ≡ true =
      rw b (binding_matches_refl (binding_current env)) in
    ground arith

-- The connection of a later call is the one on which the name was saved.
pub record SameConnection (env later : NickEnv) : Type 0 where
  pub handler : later.handler ≡ env.handler
  pub server_uid : later.server_uid ≡ env.server_uid

binding_current-same :
    (env later : NickEnv) → SameConnection env later → binding_current env ≡ binding_current later
unfolding binding_current
binding_current-same env later c = ground (arith, c.handler, c.server_uid)

save_real_name-saved :
    (env : NickEnv) (s : Nick) (real : Bytes)
    → length real < buf_len
    → ((save_real_name env s real).saved ≡ real)
      × ((save_real_name env s real).binding ≡ binding_current env)
unfolding save_real_name
save_real_name-saved env s real h = (take-all (buf_len - 1) real (omega arith), refl)

-- When a call has set an anonymous name, the real name comes back: on the same connection, the
-- next restore sets exactly the name that was shown before, if the server takes it, and forgets
-- it then. A real name is not empty, fits its buffer and does not look like a random one.
pub real_name_returns :
    (env later : NickEnv) (channel : ℕ) (real name : Bytes) (s : Nick)
    → env.own ≡ some real
    → looks_anonymized real ≡ false
    → 0 < length real
    → length real < buf_len
    → (anonymize_before_ingame env channel s).1 ≡ some name
    → later.on_callback ≡ true
    → later.connected ≡ true
    → SameConnection env later
    → later.accepts real ≡ true
    → let hidden = (anonymize_before_ingame env channel s).0 in
      restore_in_hub later hidden ≡ (reset hidden, some real)
real_name_returns env later channel real name s own plain some_name fits set c k same ok =
    let renamed = anonymize-rename env channel real s name own plain set in
    let before = save_real_name env (record s { anonymized = false }) real in
    let (saved, bound) = save_real_name-saved env (record s { anonymized = false }) real fits in
    let (kept, kept_binding, hidden) =
      rename-keeps env before name (sym (ap (λ (r : Nick × Option Bytes). r.1) renamed) ∙ set) in
    let is_real : (rename env before).0.saved ≡ real = kept ∙ saved in
    rw renamed (
      restore-saved later (rename env before).0 c k hidden (omega (arith, ap length is_real))
        (kept_binding ∙ bound ∙ binding_current-same env later same) (rw is_real ok)
      ∙ ap (λ (n : Bytes). (reset (rename env before).0, some n)) is_real)

-- The server of a saved name and the current one are not known to differ.
pub MayBeSameServer : Bytes → Bytes → Type 0
MayBeSameServer saved now = (saved ≡ []) ⊎ (now ≡ []) ⊎ (saved ≡ now)

binding_matches_sound :
    (a b : NickBinding)
    → binding_matches a b ≡ true
    → (a.handler ≡ b.handler) × MayBeSameServer a.server_uid b.server_uid
unfolding binding_matches MayBeSameServer
binding_matches_sound a b h = (ground arith, uids a.server_uid b.server_uid (ground arith))
  where
    uids :
        (x y : Bytes)
        → not (not (length x == 0) && not (length y == 0) && not (str_same x y)) ≡ true
        → (x ≡ []) ⊎ (y ≡ []) ⊎ (x ≡ y)
    uids [] y e = inl refl
    uids (x ∷ xs) [] e = inr (inl refl)
    uids (x ∷ xs) (y ∷ ys) e = inr (inr (str_same_sound (x ∷ xs) (y ∷ ys) (ground arith)))

-- A restore sets a name only while a name is hidden, and only the saved one, on the handler it was
-- saved on, of a server that is not known to be another; the name is forgotten then.
pub restore_own_name :
    (env : NickEnv) (s : Nick) (name : Bytes)
    → (restore_in_hub env s).1 ≡ some name
    → (s.anonymized ≡ true)
      × (name ≡ s.saved)
      × (s.binding.handler ≡ env.handler)
      × MayBeSameServer s.binding.server_uid (binding_current env).server_uid
      × ((restore_in_hub env s).0 ≡ reset s)
unfolding restore_in_hub saved_name_usable
restore_own_name env s name h =
    let found : binding_matches s.binding (binding_current env) ≡ true = ground arith in
    let (handler, server) = binding_matches_sound s.binding (binding_current env) found in
    (ground arith, ground arith, ground arith, server, ground arith)
