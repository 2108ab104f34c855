-- ===== src/Tests/Talkers.antt =====
-- The talkers at concrete inputs.
use conan_exiles_teamspeak.Prelude.{
  ℕ, ◌+◌, ◌-◌, ◌*◌, ◌/◌, ◌≡◌, true, false, not, List, [], ◌∷◌, ltb, leb, ◌==◌, arith, take,
}
use conan_exiles_teamspeak.CText.{codes}
use conan_exiles_teamspeak.Floats.{Floats}
use conan_exiles_teamspeak.Players.Table.{PlayerEntry}
use conan_exiles_teamspeak.Players.Talk.{TalkState, pick_loop, max_talkers}
use conan_exiles_teamspeak.Players.Talk.Nearest.{IsOrdered, candidates, sort_onto, pick_loop_lem}

abbrev numbers : Floats ℕ
numbers = record {
  less = ltb;
  at_most = leb;
  equal = λ a b. a == b;
  add = λ a b. a + b;
  subtract = λ a b. a - b;
  multiply = λ a b. a * b;
  divide = λ a b. a / b;
  fabsf = λ a. a;
  sqrtf = λ a. a;
  zero_f = 0;
  one = 1;
  hundred = 100;
  hundredth = 1;
  tiny = 0;
  fifty = 50;
}

numbers-IsOrdered : IsOrdered numbers
numbers-IsOrdered = record {
  less_trans = λ a b c ha hb hc h k. ground arith;
  less_asym = λ a b ha hb h. ground arith;
}

abbrev player : ℕ → ℕ → PlayerEntry ℕ
player client far = record {
  client_id = client;
  name = codes "p";
  x = far;
  y = 0;
  z = 0;
  voice_distance = 15;
  last_update = 0;
  valid = true;
}

abbrev talk : TalkState
talk = record { talk = λ c. not (c == 4); local_talk = false }

abbrev players : List (PlayerEntry ℕ)
players = player 3 6 ∷ player 4 1 ∷ player 5 2 ∷ []

pick_loop_lem_example :
    pick_loop numbers talk (0, 0, 0) [] players
    ≡ take max_talkers (sort_onto numbers [] (candidates numbers talk (0, 0, 0) players))
pick_loop_lem_example = pick_loop_lem numbers numbers-IsOrdered talk (0, 0, 0) players
