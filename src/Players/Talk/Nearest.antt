-- ===== src/Players/Talk/Nearest.antt =====
-- The picked talkers against the sorted list of all (src/core/proximity/talk_state.c).
use conan_exiles_teamspeak.Prelude.{
  ℕ, zero, suc, ◌-◌, ◌≤◌, ◌≡◌, refl, ◌∙◌, ap, sym, Bool, true, false, ◌&&◌, Option, none, some,
  List, [], ◌∷◌, ◌++◌, ltb, leb, ◌==◌, if◌then◌else◌, arith, Bool-cases, inl, inr, length,
  get_elem?, take, drop, length-take, if_either,
}
use conan_exiles_teamspeak.Floats.{Floats}
use conan_exiles_teamspeak.Players.Table.{PlayerEntry}
use conan_exiles_teamspeak.Players.Talk.{
  TalkState, is_talking, prox_distance, Picks, slot_back, pick_at, pick_loop, max_talkers,
}
use conan_exiles_teamspeak.Players.Talk.Cuts.{
  cut_lem, take_whole, take_front, take_twice, place_left, all_full, ends_there,
}

module _ {F : Type 0} (fl : Floats F) where
  -- A pick put before the first one that is farther away.
  abbrev pub insert_sorted : PlayerEntry F × F → Picks fl → Picks fl
  insert_sorted x [] = x ∷ []
  insert_sorted x (y ∷ ys) = if fl.less x.1 y.1 then x ∷ (y ∷ ys) else y ∷ insert_sorted x ys

  -- The players that count, with their distances.
  abbrev pub candidates : TalkState → F × F × F → List (PlayerEntry F) → Picks fl
  candidates t local [] = []
  candidates t local (e ∷ es) =
      let d = prox_distance fl local (e.x, e.y, e.z) in
      let rest = candidates t local es in
      if is_talking t e.client_id && fl.at_most d fl.fifty then (e, d) ∷ rest else rest

  -- Sorted by distance, equal ones in their order.
  abbrev pub sort_onto : Picks fl → Picks fl → Picks fl
  sort_onto sorted [] = sorted
  sort_onto sorted (x ∷ xs) = sort_onto (insert_sorted x sorted) xs

  -- The distances do not fall, and all of them are in range.
  abbrev pub NotNearer : F → Picks fl → Type 0
  NotNearer d [] = Unit
  NotNearer d (y ∷ ys) = (fl.less y.1 d ≡ false) × NotNearer d ys

  abbrev pub IsSorted : Picks fl → Type 0
  IsSorted [] = Unit
  IsSorted (x ∷ xs) = NotNearer x.1 xs × IsSorted xs

  abbrev pub InRange : Picks fl → Type 0
  InRange [] = Unit
  InRange (x ∷ xs) = (fl.at_most x.1 fl.fifty ≡ true) × InRange xs

  -- What a comparison of numbers does, among those in range, of which none is a NaN.
  pub record IsOrdered : Type 0 where
    pub less_trans :
        (a b c : F)
        → fl.at_most a fl.fifty ≡ true
        → fl.at_most b fl.fifty ≡ true
        → fl.at_most c fl.fifty ≡ true
        → fl.less a b ≡ true
        → fl.less c b ≡ false
        → fl.less a c ≡ true
    pub less_asym :
        (a b : F)
        → fl.at_most a fl.fifty ≡ true
        → fl.at_most b fl.fifty ≡ true
        → fl.less a b ≡ true
        → fl.less b a ≡ false

  -- The search from the last pick down, on a list with one more in front.
  slot_back_cons :
      (y : PlayerEntry F × F) (ys : Picks fl) (d : F) (k : ℕ)
      → slot_back fl (y ∷ ys) d (suc k) ≡ (
          if slot_back fl ys d k == 0
          then if fl.less d y.1 then 0 else 1
          else suc (slot_back fl ys d k))
  unfolding slot_back
  slot_back_cons y ys d zero = refl
  slot_back_cons y ys d (suc k) =
      go (get_elem? ys k) (slot_back fl (y ∷ ys) d (suc k)) (slot_back fl ys d k)
        (slot_back_cons y ys d k)
    where
      lifted : ℕ → ℕ
      lifted n = if n == 0 then if fl.less d y.1 then 0 else 1 else suc n

      go :
          (o : Option (PlayerEntry F × F)) (low high : ℕ)
          → low ≡ lifted high
          → elim o [ none ↦ suc (suc k) | some x ↦ if fl.less d x.1 then low else suc (suc k) ]
            ≡ lifted (elim o [ none ↦ suc k | some x ↦ if fl.less d x.1 then high else suc k ])
      go none low high e = ground arith
      go (some x) low high e = elim (Bool-cases (fl.less d x.1)) [
        | inl nearer ↦ rw nearer e
        | inr farther ↦ rw farther (ground arith)
      ]

  slot_zero :
      (ordered : IsOrdered) (d c : F) (ys : Picks fl)
      → fl.at_most d fl.fifty ≡ true
      → fl.at_most c fl.fifty ≡ true
      → fl.less d c ≡ true
      → NotNearer c ys
      → InRange ys
      → slot_back fl ys d (length ys) ≡ 0
  unfolding slot_back
  slot_zero ordered d c [] hd hc h n r = refl
  slot_zero ordered d c (y ∷ ys) hd hc h (n, ns) (r, rs) =
      let nearer = ordered.less_trans d c y.1 hd hc r h n in
      let rest = slot_zero ordered d c ys hd hc h ns rs in
      slot_back_cons y ys d (length ys) ∙ rw (rest, nearer) refl

  at_slot :
      (ordered : IsOrdered) (x : PlayerEntry F × F) (ys : Picks fl)
      → fl.at_most x.1 fl.fifty ≡ true
      → IsSorted ys
      → InRange ys
      → let s = slot_back fl ys x.1 (length ys) in
        (s ≤ length ys) × (take s ys ++ (x ∷ drop s ys) ≡ insert_sorted x ys)
  unfolding slot_back
  at_slot ordered x [] hx sorted r = (omega arith, refl)
  at_slot ordered x (y ∷ ys) hx (first, sorted) (r, rs) =
      let n = slot_back fl ys x.1 (length ys) in
      let (bound, rest) = at_slot ordered x ys hx sorted rs in
      let whole = slot_back_cons y ys x.1 (length ys) in
      elim (Bool-cases (fl.less x.1 y.1)) [
        | inl nearer ↦
            let none_there = slot_zero ordered x.1 y.1 ys hx r nearer first rs in
            let at_front : slot_back fl (y ∷ ys) x.1 (length (y ∷ ys)) ≡ 0 =
              whole ∙ rw (none_there, nearer) refl in
            rw (at_front, nearer) (omega arith, refl)
        | inr farther ↦
            let behind : slot_back fl (y ∷ ys) x.1 (length (y ∷ ys)) ≡ suc n =
              whole ∙ rw farther (ground arith) in
            rw (behind, farther) (omega arith, ap (◌∷◌ y) rest)
      ]

  -- One pick is an insertion into the sorted picks, cut to the places there are.
  pick_at_lem :
      (ordered : IsOrdered) (picks : Picks fl) (e : PlayerEntry F) (d : F)
      → fl.at_most d fl.fifty ≡ true
      → IsSorted picks
      → InRange picks
      → length picks ≤ max_talkers
      → pick_at fl picks e d ≡ take max_talkers (insert_sorted (e, d) picks)
  unfolding pick_at
  pick_at_lem ordered picks e d hd sorted r full =
      let s = slot_back fl picks d (length picks) in
      let (bound, inserted) = at_slot ordered (e, d) picks hd sorted r in
      let last = if ltb (length picks) max_talkers then length picks else max_talkers - 1 in
      let Goal : Picks fl → Type 0 = λ p. p ≡ take max_talkers (insert_sorted (e, d) picks) in
      let last_cut : take last picks ≡ take 15 picks =
        if_either (λ n. take n picks ≡ take 15 picks) (ltb (length picks) max_talkers)
          (λ room.
            take_whole (length picks) picks (omega arith)
            ∙ sym (take_whole 15 picks (ground arith)))
          (λ none_left. refl) in
      if_either Goal (leb max_talkers s)
        (λ beyond.
          sym (take_front max_talkers picks ((e, d) ∷ drop s picks) (all_full beyond bound full))
          ∙ ap (λ p. take max_talkers (p ++ ((e, d) ∷ drop s picks)))
              (sym (take_whole s picks (ends_there beyond bound full)))
          ∙ ap (take max_talkers) inserted)
        (λ inside.
          ap (λ p. take s picks ++ ((e, d) ∷ drop s p)) last_cut
          ∙ sym (cut_lem s 15 (e, d) picks (place_left inside) bound)
          ∙ ap (take max_talkers) inserted)

  insert_cut :
      (k : ℕ) (x : PlayerEntry F × F) (ys : Picks fl)
      → take k (insert_sorted x (take k ys)) ≡ take k (insert_sorted x ys)
  insert_cut zero x ys = refl
  insert_cut (suc k) x [] = refl
  insert_cut (suc k) x (y ∷ ys) = elim (Bool-cases (fl.less x.1 y.1)) [
    | inl nearer ↦ rw nearer (ap (◌∷◌ x) (take_cons k))
    | inr farther ↦ rw farther (ap (◌∷◌ y) (insert_cut k x ys))
  ]
    where
      take_cons : (j : ℕ) → take j (y ∷ take j ys) ≡ take j (y ∷ ys)
      take_cons zero = refl
      take_cons (suc j) = ap (◌∷◌ y) (take_twice j (suc j) ys (omega arith))

  insert-NotNearer :
      (c : F) (x : PlayerEntry F × F) (ys : Picks fl)
      → fl.less x.1 c ≡ false
      → NotNearer c ys
      → NotNearer c (insert_sorted x ys)
  insert-NotNearer c x [] h n = (h, n)
  insert-NotNearer c x (y ∷ ys) h (n, ns) =
      if_either (NotNearer c) (fl.less x.1 y.1) (λ nearer. (h, (n, ns)))
        (λ farther. (n, insert-NotNearer c x ys h ns))

  all-NotNearer :
      (ordered : IsOrdered) (d c : F) (ys : Picks fl)
      → fl.at_most d fl.fifty ≡ true
      → fl.at_most c fl.fifty ≡ true
      → fl.less d c ≡ true
      → NotNearer c ys
      → InRange ys
      → NotNearer d ys
  all-NotNearer ordered d c [] hd hc h n r = tt
  all-NotNearer ordered d c (y ∷ ys) hd hc h (n, ns) (r, rs) = (
    ordered.less_asym d y.1 hd r (ordered.less_trans d c y.1 hd hc r h n),
    all-NotNearer ordered d c ys hd hc h ns rs,
  )

  insert-IsSorted :
      (ordered : IsOrdered) (x : PlayerEntry F × F) (ys : Picks fl)
      → fl.at_most x.1 fl.fifty ≡ true
      → IsSorted ys
      → InRange ys
      → IsSorted (insert_sorted x ys) × InRange (insert_sorted x ys)
  insert-IsSorted ordered x [] hx s r = ((tt, tt), (hx, tt))
  insert-IsSorted ordered x (y ∷ ys) hx (n, s) (r, rs) =
      let (s', r') = insert-IsSorted ordered x ys hx s rs in
      if_either (λ p. IsSorted p × InRange p) (fl.less x.1 y.1)
        (λ nearer. (
          (
            (
              ordered.less_asym x.1 y.1 hx r nearer,
              all-NotNearer ordered x.1 y.1 ys hx r nearer n rs,
            ),
            (n, s),
          ),
          (hx, (r, rs)),
        ))
        (λ farther. ((insert-NotNearer y.1 x ys farther n, s'), (r, r')))

  take-NotNearer : (k : ℕ) (d : F) (ys : Picks fl) → NotNearer d ys → NotNearer d (take k ys)
  take-NotNearer zero d ys n = tt
  take-NotNearer (suc k) d [] n = tt
  take-NotNearer (suc k) d (y ∷ ys) (n, ns) = (n, take-NotNearer k d ys ns)

  take-IsSorted :
      (k : ℕ) (ys : Picks fl)
      → IsSorted ys
      → InRange ys
      → IsSorted (take k ys) × InRange (take k ys)
  take-IsSorted zero ys s r = (tt, tt)
  take-IsSorted (suc k) [] s r = (tt, tt)
  take-IsSorted (suc k) (y ∷ ys) (n, s) (r, rs) =
      let (s', r') = take-IsSorted k ys s rs in ((take-NotNearer k y.1 ys n, s'), (r, r'))

  pick_loop_from :
      (ordered : IsOrdered) (t : TalkState) (local : F × F × F) (es : List (PlayerEntry F))
      (sorted : Picks fl)
      → IsSorted sorted
      → InRange sorted
      → pick_loop fl t local (take max_talkers sorted) es
        ≡ take max_talkers (sort_onto sorted (candidates t local es))
  unfolding pick_loop
  pick_loop_from ordered t local [] sorted s r = refl
  pick_loop_from ordered t local (e ∷ es) sorted s r =
      let d = prox_distance fl local (e.x, e.y, e.z) in
      let picks = take max_talkers sorted in
      let (s', r') = take-IsSorted max_talkers sorted s r in
      elim (Bool-cases (is_talking t e.client_id && fl.at_most d fl.fifty)) [
        | inr skipped ↦ rw skipped (pick_loop_from ordered t local es sorted s r)
        | inl counts ↦
            let near = both_true (is_talking t e.client_id) (fl.at_most d fl.fifty) counts in
            let (s'', r'') = insert-IsSorted ordered (e, d) sorted near s r in
            let one =
              pick_at_lem ordered picks e d near s' r' (cut_length sorted)
              ∙ insert_cut max_talkers (e, d) sorted in
            rw counts (
              ap (λ p. pick_loop fl t local p es) one
              ∙ pick_loop_from ordered t local es (insert_sorted (e, d) sorted) s'' r'')
      ]
    where
      both_true : (a b : Bool) → (a && b) ≡ true → b ≡ true
      both_true a b h = ground arith

      cut_length : (p : Picks fl) → length (take max_talkers p) ≤ max_talkers
      cut_length p = omega (arith, length-take max_talkers p)

  -- The talkers that `talk_state_append_json` hands to the game mod are the first sixteen of all
  -- the talking players within 50 meters, sorted by their distance, equal ones in the order of
  -- the table: the loop with its sixteen places loses no nearer player. Of the comparison it is
  -- used that it orders the distances in range, none of which is a NaN.
  pub pick_loop_lem :
      (ordered : IsOrdered) (t : TalkState) (local : F × F × F) (es : List (PlayerEntry F))
      → pick_loop fl t local [] es ≡ take max_talkers (sort_onto [] (candidates t local es))
  pick_loop_lem ordered t local es = pick_loop_from ordered t local es [] tt tt
