-- ===== src/Http/Guard/Decides.antt =====
-- The three tests of a header value decide the rules (src/core/http/http_request.h).
use conan_exiles_teamspeak.Prelude.{
  ℕ, ◌<◌, ◌≡◌, refl, ◌∙◌, ap, sym, Bool, true, false, not, ◌&&◌, ◌||◌, [], ◌++◌, leb, ◌==◌, arith,
  inl, inr, ◌⊎◌, Bool-cases, ◌↔◌, length, take,
}
use conan_exiles_teamspeak.CText.{Bytes, codes, print, until_nul}
use conan_exiles_teamspeak.CText.Equality.{take-all}
use conan_exiles_teamspeak.Http.Headers.{http_ieq}
use conan_exiles_teamspeak.Http.Guard.{
  host_is_local, origin_is_own, value_size, seen, bad_origin, bad_site, bad_host,
}
use conan_exiles_teamspeak.Http.Guard.Rules.{
  SameText, OwnOrigin, NotForeign, LocalHost, http_ieq_iff, SameText-length,
}
use conan_exiles_teamspeak.Http.Guard.Hosts.{host_is_local_iff}

-- A value that fits the buffer is seen up to its first NUL.
seen-short : (v : Bytes) → length v < 128 → seen v ≡ until_nul v
seen-short v h = ap until_nul (take-all 127 v (omega arith))

short_and : (n : ℕ) (x : Bool) → (leb value_size n || not x ≡ false) ↔ ((n < 128) × (x ≡ true))
short_and n x = (λ h. (ground arith, ground arith), λ h. ground arith)

pub bad_host_iff : (v : Bytes) → (bad_host v ≡ false) ↔ LocalHost v
unfolding bad_host
bad_host_iff v = (
  λ h.
      let (short, here) = (short_and (length v) (host_is_local (seen v))).0 h in
      (
        short,
        (host_is_local_iff (until_nul v)).0 (ap host_is_local (sym (seen-short v short)) ∙ here),
      ),
  λ (short, named).
      let here : host_is_local (seen v) ≡ true =
        ap host_is_local (seen-short v short) ∙ (host_is_local_iff (until_nul v)).1 named in
      (short_and (length v) (host_is_local (seen v))).1 (short, here),
)

origin_is_own_iff :
    (v : Bytes) (port : ℕ)
    → (origin_is_own v port ≡ true) ↔ (
        SameText v (codes "http://127.0.0.1:" ++ print port [])
        ⊎ SameText v (codes "http://localhost:" ++ print port []))
unfolding origin_is_own
origin_is_own_iff v port =
    let a = http_ieq_iff v (codes "http://127.0.0.1:" ++ print port []) in
    let b = http_ieq_iff v (codes "http://localhost:" ++ print port []) in
    either_of (http_ieq v (codes "http://127.0.0.1:" ++ print port []))
      (http_ieq v (codes "http://localhost:" ++ print port [])) a b
  where
    either_of :
        (x y : Bool) {A B : Type 0} → (x ≡ true) ↔ A → (y ≡ true) ↔ B → (x || y ≡ true) ↔ (A ⊎ B)
    either_of true y a b = (λ h. inl (a.0 refl), λ h. refl)
    either_of false true a b = (λ h. inr (b.0 refl), λ h. refl)
    either_of false false a b = (
      λ h. absurd (ground arith),
      λ h. elim h [
        | inl x ↦ absurd (ground (arith, a.1 x))
        | inr y ↦ absurd (ground (arith, b.1 y))
      ],
    )

pub bad_origin_iff : (port : ℕ) (v : Bytes) → (bad_origin port v ≡ false) ↔ OwnOrigin port v
unfolding bad_origin
bad_origin_iff port v = (
  λ h.
      let (short, own) = (short_and (length v) (origin_is_own (seen v) port)).0 h in
      (
        short,
        (origin_is_own_iff (until_nul v) port).0
            (ap (λ t. origin_is_own t port) (sym (seen-short v short)) ∙ own),
      ),
  λ (short, named).
      let own : origin_is_own (seen v) port ≡ true =
        ap (λ t. origin_is_own t port) (seen-short v short)
        ∙ (origin_is_own_iff (until_nul v) port).1 named in
      (short_and (length v) (origin_is_own (seen v) port)).1 (short, own),
)

-- One word of the Sec-Fetch-Site rule, at its length.
same_word :
    (v word : Bytes) (n : ℕ)
    → length word ≡ n
    → (length v == n && http_ieq (take n v) word ≡ false) ↔ (¬ SameText v word)
same_word v word n size = (
  λ h same.
      let long : length v ≡ n = SameText-length v word same ∙ size in
      let cut : take n v ≡ v = take-all n v (omega (arith, long)) in
      let equal : http_ieq (take n v) word ≡ true =
        ap (λ t. http_ieq t word) cut ∙ (http_ieq_iff v word).1 same in
      absurd (ground arith),
  λ differs. elim (Bool-cases (length v == n && http_ieq (take n v) word)) [
    | inr unlike ↦ unlike
    | inl yes_same ↦
        let long : length v ≡ n = ground arith in
        let cut : take n v ≡ v = take-all n v (omega (arith, long)) in
        let equal : http_ieq (take n v) word ≡ true = ground arith in
        absurd (differs ((http_ieq_iff v word).0 (ap (λ t. http_ieq t word) (sym cut) ∙ equal)))
  ],
)

neither : (a b : Bool) → (a || b ≡ false) ↔ ((a ≡ false) × (b ≡ false))
neither a b = (λ h. (ground arith, ground arith), λ h. ground arith)

pub bad_site_iff : (v : Bytes) → (bad_site v ≡ false) ↔ NotForeign v
unfolding bad_site
bad_site_iff v =
    let cross = same_word v (codes "cross-site") 10 refl in
    let same = same_word v (codes "same-site") 9 refl in
    let none_of =
      neither (length v == 10 && http_ieq (take 10 v) (codes "cross-site"))
        (length v == 9 && http_ieq (take 9 v) (codes "same-site")) in
    (
      λ h. (cross.0 (none_of.0 h).0, same.0 (none_of.0 h).1),
      λ (c, s). none_of.1 (cross.1 c, same.1 s),
    )
