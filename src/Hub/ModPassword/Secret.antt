-- ===== src/Hub/ModPassword/Secret.antt =====
-- What becomes of the password in a body (src/core/hub/mod_password.c).
use conan_exiles_teamspeak.Prelude.{
  ℕ, zero, suc, ◌+◌, ◌-◌, ◌≤◌, ◌<◌, ◌≡◌, refl, ◌∙◌, ap, sym, true, none, some, [], ◌++◌, arith, inl,
  inr, ◌⊎◌, ◌↔◌, length, Option-cases, append_assoc, get_elem?, take, drop, length-append,
}
use conan_exiles_teamspeak.Prelude.{replicate, length-replicate}
use conan_exiles_teamspeak.CText.{Bytes, until_nul, strip_end}
use conan_exiles_teamspeak.Hub.ModPassword.{
  ModPassword, password_max, ttl_ms, printable, store, is_blank, is_newline, find_field, Taken,
  take_from_body, get,
}
use conan_exiles_teamspeak.Hub.ModPassword.Ends.{IsWithout, strip_end-IsWithout}
use conan_exiles_teamspeak.Hub.ModPassword.Fields.{
  Blank, Newline, IsFieldOf, NoField, find_field-IsFieldOf, find_field-NoField,
}
use conan_exiles_teamspeak.Hub.ModPassword.Body.{
  Cut, found-Cut, get_elem?-zeros, take-append, until_nul-cut, until_nul-drop,
}

-- A body without the password: no field is left in it, its length is unchanged, the text kept is
-- unchanged, and zeros stand from there to the end of the old text.
abbrev pub Clean : Bytes → Taken → Type 0
Clean body r =
    NoField (until_nul r.body)
    × (length r.body ≡ length body)
    × (take r.body_len r.body ≡ take r.body_len body)
    × ((i : ℕ) → r.body_len ≤ i → i < length (until_nul body) → get_elem? r.body i ≡ some 0)

zeros-Cut :
    (body kept after : Bytes) (n : ℕ)
    → Cut body kept
    → 0 < n
    → until_nul (kept ++ (replicate n 0 ++ after)) ≡ kept
zeros-Cut body kept after zero c h = absurd (omega arith)
zeros-Cut body kept after (suc n) c h =
    until_nul-cut kept c.back [] (replicate n 0 ++ after) body c.split

Cut-Clean :
    (body kept : Bytes) (s : ModPassword)
    → Cut body kept
    → Clean body (record {
      body_len = length kept;
      body =
          kept
          ++ (replicate (length (until_nul body) - length kept) 0
              ++ drop (length (until_nul body)) body);
      store = s;
    })
Cut-Clean body kept s c =
    let n = length (until_nul body) - length kept in
    let after = drop (length (until_nul body)) body in
    let size = ap length c.split ∙ length-append kept c.back in
    let whole = ap length (until_nul-drop body) ∙ length-append (until_nul body) after in
    let text : body ≡ kept ++ (c.back ++ after) =
      until_nul-drop body ∙ ap (λ t. t ++ after) c.split ∙ append_assoc kept c.back after in
    (
      find_field-NoField (until_nul (kept ++ (replicate n 0 ++ after))) (
          ap (find_field true) (zeros-Cut body kept after n c (omega (arith, size, c.more)))
          ∙ c.clean),
      omega (
        arith,
        length-append kept (replicate n 0 ++ after),
        length-append (replicate n 0) after,
        length-replicate {A = ℕ} n 0,
        whole,
        size,
      ),
      take-append kept (replicate n 0 ++ after)
          ∙ sym (ap (take (length kept)) text ∙ take-append kept (c.back ++ after)),
      λ i h h'. get_elem?-zeros kept after n i h (omega (arith, size)),
    )

unchanged-Clean :
    (body : Bytes) (s : ModPassword)
    → find_field true (until_nul body) ≡ none
    → Clean body (record { body_len = length body; body = body; store = s })
unchanged-Clean body s h = (
  find_field-NoField (until_nul body) h,
  refl,
  refl,
  λ i long short. absurd (
      omega (
        arith,
        ap length (until_nul-drop body)
            ∙ length-append (until_nul body) (drop (length (until_nul body)) body),
      )),
)

-- A text without the field: nothing is touched.
abbrev pub Untouched : ModPassword → Bytes → Taken → Type 0
Untouched s body r =
    NoField (until_nul body) × (r.body_len ≡ length body) × (r.body ≡ body) × (r.store ≡ s)

-- A text with the field: what stands in front of it is kept, less the blanks at its end, and the
-- value is stored, less the newlines at its end.
abbrev pub CutOff : ModPassword → Bytes → ℕ → Taken → Type 0
CutOff s body now r =
    (front : Bytes) × (value : Bytes) × (kept : Bytes) × (secret : Bytes) × IsFieldOf
      (until_nul body) front value
    × IsWithout Blank front kept
    × IsWithout Newline value secret
    × (until_nul r.body ≡ kept)
    × (r.body_len ≡ length kept)
    × (r.store ≡ (store s secret now).0)

is_blank_iff : (c : ℕ) → (is_blank c ≡ true) ↔ Blank c
is_blank_iff c = (λ h. ground arith, λ h. ground arith)

is_newline_iff : (c : ℕ) → (is_newline c ≡ true) ↔ Newline c
is_newline_iff c = (λ h. ground arith, λ h. ground arith)

Cut-text :
    (body kept : Bytes)
    → Cut body kept
    → until_nul (
        kept
        ++ (replicate (length (until_nul body) - length kept) 0
            ++ drop (length (until_nul body)) body))
      ≡ kept
Cut-text body kept c =
    let n = length (until_nul body) - length kept in
    let size = ap length c.split ∙ length-append kept c.back in
    zeros-Cut body kept (drop (length (until_nul body)) body) n c (omega (arith, size, c.more))

-- Whatever the body, the call leaves no password in it: the text that remains holds no field
-- TSPW= at its start or behind a blank, and every byte from the returned length to the end of the
-- old text is zero. A body without the field is untouched, and so is the store. Of a body with it,
-- the text in front of the field remains, less the blanks at its end, its length is returned, and
-- the value, less the newlines at its end, goes to the store.
pub body_is_Clean :
    (s : ModPassword) (body : Bytes) (now : ℕ)
    → let r = take_from_body s body now in Clean body r × (Untouched s body r ⊎ CutOff s body now r)
unfolding take_from_body
body_is_Clean s body now = elim (Option-cases (find_field true (until_nul body))) [
  | inl e ↦
      rw (e, take_from_body)
        (unchanged-Clean body s e, inl (find_field-NoField (until_nul body) e, refl, refl, refl))
  | inr ((front, value), e) ↦
      let cut = found-Cut body front value e in
      let kept = strip_end is_blank front in
      let secret = strip_end is_newline value in
      rw (e, take_from_body)
        (
          Cut-Clean body kept (store s secret now).0 cut,
          inr (
            front,
            value,
            kept,
            secret,
            find_field-IsFieldOf (until_nul body) front value e,
            strip_end-IsWithout is_blank Blank is_blank_iff front,
            strip_end-IsWithout is_newline Newline is_newline_iff value,
            Cut-text body kept cut,
            refl,
            refl,
          ),
        )
]

-- A usable password is handed out, whatever was stored before, until ten seconds have passed
-- since it was last seen; a later read finds none and wipes it.
pub password_lifetime :
    (s : ModPassword) (value : Bytes) (now later out_len : ℕ)
    → printable value ≡ true
    → 0 < length value
    → length value < password_max
    → length value < out_len
    → now ≤ later
    → let stored = (store s value now).0 in
      (later ≤ now + ttl_ms → get stored out_len later ≡ (some value, stored))
      × (now + ttl_ms < later → get stored out_len later ≡ (none, record { pw = []; seen_ms = 0 }))
unfolding store get
password_lifetime s value now later out_len p some_text short room after =
    (λ soon. ground arith, λ late. ground arith)
