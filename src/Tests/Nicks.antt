-- ===== src/Tests/Nicks.antt =====
-- The nickname anonymizer at concrete inputs.
use conan_exiles_teamspeak.Prelude.{◌≡◌, refl, true, false, some, [], ◌∷◌, arith, inl}
use conan_exiles_teamspeak.CText.{Bytes, codes}
use conan_exiles_teamspeak.Nick.{
  Nick, NickEnv, no_binding, anonymize_before_ingame, restore_in_hub, reset, save_real_name,
  looks_anonymized, only_digits, rename, try_names, candidate, make_random, clamp_digits,
  more_digits, taken_in_channel,
}
use conan_exiles_teamspeak.Nick.Restore.{real_name_returns}
use conan_exiles_teamspeak.Nick.Privacy.{anonymize, restore, IsRight, run, run-IsRight}

abbrev online : Bytes → NickEnv
online own = record {
  on_callback = true;
  connected = true;
  own = some own;
  handler = 1;
  server_uid = some (codes "uid");
  others = [];
  accepts = λ name. true;
  randomizer = true;
  random = λ n. 0;
}

abbrev fresh : Nick
fresh = record { saved = []; binding = no_binding; reuse = []; anonymized = false }

abbrev hidden : Nick
hidden = record {
  saved = codes "Conan";
  binding = record { handler = 1; server_uid = codes "uid" };
  reuse = codes "16550095";
  anonymized = true;
}

run-IsRight_example :
    IsRight
      (run fresh (anonymize (online (codes "Conan")) 2 ∷ restore (online (codes "16550095")) ∷ []))
run-IsRight_example =
    run-IsRight (anonymize (online (codes "Conan")) 2 ∷ restore (online (codes "16550095")) ∷ [])
      fresh (record { reused = inl refl; saved = inl refl })

real_name_returns_example :
    let env = online (codes "Conan") in
    let hidden = (anonymize_before_ingame env 2 fresh).0 in
    restore_in_hub env hidden ≡ (reset hidden, some (codes "Conan"))
unfolding anonymize_before_ingame save_real_name looks_anonymized only_digits rename try_names
    candidate make_random clamp_digits more_digits taken_in_channel
real_name_returns_example =
    real_name_returns (online (codes "Conan")) (online (codes "Conan")) 2 (codes "Conan")
      (codes "16550095") fresh refl refl (omega arith) (omega arith) refl refl refl
      (record { handler = refl; server_uid = refl }) refl
