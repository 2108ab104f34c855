-- ===== src/Channel/Names/Keywords.antt =====
-- Which channel names hold an ignore keyword.
use conan_exiles_teamspeak.Prelude.{
  ℕ, ◌≡◌, ◌≢◌, refl, ap, Bool, true, false, not, ◌&&◌, ◌||◌, none, some, [], ◌∷◌, ◌++◌, ◌==◌, arith,
  Bool-cases, inl, inr, ◌⊎◌, ◌↔◌, Option-cases,
}
use conan_exiles_teamspeak.CText.{Bytes, codes, peek}
use conan_exiles_teamspeak.Channel.Names.{
  is_alpha, lower, strip_word, keyword_here, has_keyword, has_ignore_keyword,
}

-- Two texts that differ in case only.
abbrev pub SameWord : Bytes → Bytes → Type 0
SameWord [] [] = Unit
SameWord (a ∷ as') (b ∷ bs) = (lower a ≡ lower b) × SameWord as' bs
SameWord _ _ = ⊥

-- The byte in front of the rest, where `last` is that before the text.
abbrev pub last_of : ℕ → Bytes → ℕ
last_of before [] = before
last_of before (c ∷ cs) = last_of c cs

-- The name holds the word, in any case; as a whole word, no letter stands beside it.
pub record Holds (word : Bytes) (whole : Bool) (before : ℕ) (name : Bytes) : Type 0 where
  pub front : Bytes
  pub found : Bytes
  pub rest : Bytes
  pub splits : name ≡ front ++ (found ++ rest)
  pub same : SameWord word found
  pub alone :
      whole ≡ true → (is_alpha (last_of before front) ≡ false) × (is_alpha (peek rest) ≡ false)

strip_word_sound :
    (word text rest : Bytes)
    → strip_word word text ≡ some rest
    → (found : Bytes) × (text ≡ found ++ rest) × SameWord word found
unfolding strip_word
strip_word_sound [] text rest h = ([], cc, tt)
strip_word_sound (w ∷ ws) [] rest h = cc
strip_word_sound (w ∷ ws) (c ∷ cs) rest h = elim (Bool-cases (lower w == lower c)) [
  | inl e ↦
      let (found, split, same) = strip_word_sound ws cs rest (rw e at h) in
      (c ∷ found, ap (◌∷◌ c) split, (ground arith, same))
  | inr e ↦ let h' : none ≡ some rest = rw e at h in cc
]

strip_word_complete :
    (word found rest : Bytes) → SameWord word found → strip_word word (found ++ rest) ≡ some rest
unfolding strip_word
strip_word_complete [] [] rest h = refl
strip_word_complete (w ∷ ws) (c ∷ cs) rest h = ground (arith, strip_word_complete ws cs rest)
strip_word_complete [] (c ∷ cs) rest h = absurd h
strip_word_complete (w ∷ ws) [] rest h = absurd h

keyword_here_sound :
    (word : Bytes) (whole : Bool) (before : ℕ) (text : Bytes)
    → keyword_here word whole before text ≡ true
    → Holds word whole before text
unfolding keyword_here
keyword_here_sound word whole before text h = elim (Option-cases (strip_word word text)) [
  | inl e ↦ let h' : false ≡ true = rw (e, keyword_here) at h in cc
  | inr (rest, e) ↦
      let (found, split, same) = strip_word_sound word text rest e in
      let tests : not whole || (not (is_alpha before) && not (is_alpha (peek rest))) ≡ true =
        rw (e, keyword_here) at h in
      record {
        front = [];
        found = found;
        rest = rest;
        splits = split;
        same = same;
        alone = λ w. ground arith;
      }
]

has_keyword_sound :
    (word : Bytes) (whole : Bool) (before : ℕ) (name : Bytes)
    → has_keyword word whole before name ≡ true
    → Holds word whole before name
unfolding has_keyword
has_keyword_sound word whole before [] h = cc
has_keyword_sound word whole before (c ∷ cs) h =
    elim (Bool-cases (keyword_here word whole before (c ∷ cs))) [
      | inl e ↦ keyword_here_sound word whole before (c ∷ cs) e
      | inr e ↦
          let later = has_keyword_sound word whole c cs (rw e at h) in
          record {
            front = c ∷ later.front;
            found = later.found;
            rest = later.rest;
            splits = ap (◌∷◌ c) later.splits;
            same = later.same;
            alone = later.alone;
          }
    ]

keyword_here_complete :
    (word found rest : Bytes) (whole : Bool) (before : ℕ)
    → SameWord word found
    → (whole ≡ true → (is_alpha before ≡ false) × (is_alpha (peek rest) ≡ false))
    → keyword_here word whole before (found ++ rest) ≡ true
unfolding keyword_here
keyword_here_complete word found rest true before h a =
    rw (strip_word_complete word found rest h, keyword_here) (rw ((a refl).0, (a refl).1))
keyword_here_complete word found rest false before h a =
    rw (strip_word_complete word found rest h, keyword_here)

has_keyword_complete :
    (word : Bytes) (whole : Bool) (before : ℕ) (front found rest : Bytes)
    → word ≢ []
    → SameWord word found
    → (whole ≡ true → (is_alpha (last_of before front) ≡ false) × (is_alpha (peek rest) ≡ false))
    → has_keyword word whole before (front ++ (found ++ rest)) ≡ true
unfolding has_keyword
has_keyword_complete [] whole before [] [] rest n h a = absurd (n refl)
has_keyword_complete (w ∷ ws) whole before [] [] rest n h a = absurd h
has_keyword_complete [] whole before [] (c ∷ cs) rest n h a = absurd h
has_keyword_complete (w ∷ ws) whole before [] (c ∷ cs) rest n h a =
    rw (keyword_here_complete (w ∷ ws) (c ∷ cs) rest whole before h a)
has_keyword_complete word whole before (f ∷ fs) found rest n h a =
    ground (arith, has_keyword_complete word whole f fs found rest n h a)

has_keyword_iff :
    (word : Bytes) (whole : Bool) (name : Bytes)
    → word ≢ []
    → (has_keyword word whole 0 name ≡ true) ↔ Holds word whole 0 name
has_keyword_iff word whole name n = (
  has_keyword_sound word whole 0 name,
  λ h. rw (h.splits) (has_keyword_complete word whole 0 h.front h.found h.rest n h.same h.alone),
)

-- A channel is ignored exactly when its name holds "event" or "support" anywhere, or "plot" with
-- no letter beside it, whatever the case of the letters.
pub has_ignore_keyword_iff :
    (name : Bytes)
    → (has_ignore_keyword name ≡ true) ↔ (
        Holds (codes "event") false 0 name
        ⊎ Holds (codes "support") false 0 name
        ⊎ Holds (codes "plot") true 0 name)
unfolding has_ignore_keyword
has_ignore_keyword_iff name =
    let event_iff = has_keyword_iff (codes "event") false name (λ e. cc) in
    let support_iff = has_keyword_iff (codes "support") false name (λ e. cc) in
    let plot_iff = has_keyword_iff (codes "plot") true name (λ e. cc) in
    (ground arith, ground arith)
