-- ===== src/Queue/ReturnCode/Answers.antt =====
-- Return codes: one answer for each remembered code.
use conan_exiles_teamspeak.Prelude.{
  ℕ, zero, suc, ◌+◌, ◌-◌, ◌%◌, ◌≤◌, ◌<◌, ◌≡◌, ◌≢◌, refl, ◌∙◌, true, false, Option, none, some, List,
  [], ◌∷◌, if◌then◌else◌, arith, ◌⊎◌, length, get_elem?, get_elem?-set_ne, get_elem?-set_self,
  length-set,
}
use conan_exiles_teamspeak.CText.{Bytes, str_same}
use conan_exiles_teamspeak.CText.Equality.{str_same_refl}
use conan_exiles_teamspeak.Queue.ReturnCode.{
  Ts3RcTracker, track_slots, rc_max, track_add, track_take, take_first,
}

-- How many slots hold a code.
abbrev pub holds : Bytes → List Bytes → ℕ
holds code [] = 0
holds code (c ∷ cs) = (if str_same c code then 1 else 0) + holds code cs

-- A code that can be remembered.
abbrev pub Usable : Bytes → Type 0
Usable code = (0 < length code) × (length code < rc_max)

-- What a search of the slots yields: nothing is held, or one slot less holds the code.
abbrev Taken : Bytes → List Bytes → Option (List Bytes) → Type 0
Taken code codes none = holds code codes ≡ 0
Taken code codes (some rest) =
    (holds code codes ≡ suc (holds code rest)) × (length rest ≡ length codes)

str_same-nil : (code : Bytes) → 0 < length code → str_same [] code ≡ false
unfolding str_same
str_same-nil [] h = elim h [ ]
str_same-nil (x ∷ xs) h = refl

take_first-Taken :
    (codes : List Bytes) (code : Bytes) → 0 < length code → Taken code codes (take_first codes code)
unfolding take_first
take_first-Taken [] code h = refl
take_first-Taken ([] ∷ cs) code h = ground (arith, take_first-Taken cs code h, str_same-nil code h)
take_first-Taken ((x ∷ xs) ∷ cs) code h =
    ground (arith, take_first-Taken cs code h, str_same-nil code h)

-- Every remembered code gives one answer: a take succeeds exactly when some slot holds the code,
-- and then one slot less holds it; otherwise nothing changes.
pub track_take_lem :
    (t : Ts3RcTracker) (code : Bytes)
    → 0 < length code
    → let (hit, t') = track_take t code in
      ((hit ≡ true) × (holds code t.codes ≡ suc (holds code t'.codes)))
      ⊎ ((hit ≡ false) × (holds code t.codes ≡ 0) × (t' ≡ t))
unfolding track_take
track_take_lem t code h = ground (arith, take_first-Taken t.codes code h)

-- What happens to the tracker: a move is sent with a code, or an answer comes to one.
pub data Traffic : Type 0 where
  sent answered : Bytes → Traffic

pub run_all : Ts3RcTracker → List Traffic → Ts3RcTracker
run_all t [] = t
run_all t (sent c ∷ more) = run_all (track_add t c).1 more
run_all t (answered c ∷ more) = run_all (track_take t c).1 more

abbrev pub moves_sent : List Traffic → ℕ
moves_sent [] = 0
moves_sent (sent c ∷ more) = 1 + moves_sent more
moves_sent (answered c ∷ more) = moves_sent more

-- All answers are to other codes.
abbrev pub Unanswered : Bytes → List Traffic → Type 0
Unanswered code [] = Unit
Unanswered code (sent c ∷ more) = Unanswered code more
Unanswered code (answered c ∷ more) = (str_same code c ≡ false) × Unanswered code more

pub record IsValid (t : Ts3RcTracker) : Type 0 where
  pub eight : length t.codes ≡ track_slots
  pub next_in : t.next < track_slots

pub track_add-IsValid : (t : Ts3RcTracker) (code : Bytes) → IsValid t → IsValid (track_add t code).1
unfolding track_add
track_add-IsValid t code v = ground (arith, length-set t.codes t.next code)

track_add-next :
    (t : Ts3RcTracker) (c : Bytes)
    → ((track_add t c).1.next ≡ t.next) ⊎ ((track_add t c).1.next ≡ (t.next + 1) % track_slots)
unfolding track_add
track_add-next t c = ground arith

track_add-other :
    (t : Ts3RcTracker) (c : Bytes) (slot : ℕ)
    → t.next ≢ slot
    → get_elem? (track_add t c).1.codes slot ≡ get_elem? t.codes slot
unfolding track_add
track_add-other t c slot h = ground (arith, get_elem?-set_ne t.codes {i = t.next} {j = slot} c h)

track_take-IsValid :
    (t : Ts3RcTracker) (c : Bytes)
    → IsValid t
    → IsValid (track_take t c).1 × ((track_take t c).1.next ≡ t.next)
unfolding track_take
track_take-IsValid t [] v = (v, refl)
track_take-IsValid t (x ∷ xs) v = ground (arith, take_first-Taken t.codes (x ∷ xs) (omega arith))

-- Taking a code leaves the slots of the others alone.
abbrev Keeps : Bytes → ℕ → Option (List Bytes) → Type 0
Keeps code slot none = Unit
Keeps code slot (some rest) = get_elem? rest slot ≡ some code

take_first-other :
    (codes : List Bytes) (c code : Bytes) (slot : ℕ)
    → str_same code c ≡ false
    → get_elem? codes slot ≡ some code
    → Keeps code slot (take_first codes c)
unfolding take_first
take_first-other [] c code slot differs h = cc
take_first-other (x ∷ xs) c code zero differs h = ground arith
take_first-other (x ∷ xs) c code (suc slot) differs h =
    ground (arith, take_first-other xs c code slot differs h)

track_take-other :
    (t : Ts3RcTracker) (c code : Bytes) (slot : ℕ)
    → str_same code c ≡ false
    → get_elem? t.codes slot ≡ some code
    → get_elem? (track_take t c).1.codes slot ≡ some code
unfolding track_take
track_take-other t c code slot differs h =
    ground (arith, take_first-other t.codes c code slot differs h)

-- A slot keeps its code until the additions come round to it.
kept :
    (traffic : List Traffic) (t : Ts3RcTracker) (code : Bytes) (slot : ℕ)
    → IsValid t
    → slot < track_slots
    → Unanswered code traffic
    → moves_sent traffic ≤ (slot + track_slots - t.next) % track_slots
    → get_elem? t.codes slot ≡ some code
    → get_elem? (run_all t traffic).codes slot ≡ some code
unfolding run_all
kept [] t code slot v s u d h = h
kept (answered c ∷ more) t code slot v s (differs, u) d h =
    let (v', same) = track_take-IsValid t c v in
    kept more (track_take t c).1 code slot v' s u (omega (arith, same))
      (track_take-other t c code slot differs h)
kept (sent c ∷ more) t code slot v s u d h =
    kept more (track_add t c).1 code slot (track_add-IsValid t c v) s u
      (omega (arith, track_add-next t c, (track_add-IsValid t c v).next_in))
      (track_add-other t c slot (omega arith) ∙ h)

get_elem?-holds :
    (codes : List Bytes) (code : Bytes) (slot : ℕ)
    → get_elem? codes slot ≡ some code
    → 0 < holds code codes
get_elem?-holds [] code slot h = cc
get_elem?-holds (c ∷ cs) code zero h = ground (arith, str_same_refl code)
get_elem?-holds (c ∷ cs) code (suc slot) h = omega (arith, get_elem?-holds cs code slot h)

track_add-stores :
    (t : Ts3RcTracker) (code : Bytes)
    → IsValid t
    → Usable code
    → (get_elem? (track_add t code).1.codes t.next ≡ some code)
      × ((track_add t code).1.next ≡ (t.next + 1) % track_slots)
unfolding track_add
track_add-stores t code v u = ground (arith, get_elem?-set_self t.codes t.next code)

-- The answer to a move is recognised as long as fewer than eight moves have been sent after it,
-- whatever answers to other codes came in between. Those do not make room: a slot that an answer
-- has freed is not used again before its turn.
pub track_keeps_eight :
    (t : Ts3RcTracker) (code : Bytes) (traffic : List Traffic)
    → IsValid t
    → Usable code
    → Unanswered code traffic
    → moves_sent traffic < 8
    → (track_take (run_all (track_add t code).1 traffic) code).0 ≡ true
track_keeps_eight t code traffic v u others h =
    let (fresh, next) = track_add-stores t code v u in
    let late =
      kept traffic (track_add t code).1 code t.next (track_add-IsValid t code v) v.next_in others
        (omega (arith, next)) fresh in
    ground (
      arith,
      track_take_lem (run_all (track_add t code).1 traffic) code u.0,
      get_elem?-holds (run_all (track_add t code).1 traffic).codes code t.next late,
    )
