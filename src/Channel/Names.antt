-- ===== src/Channel/Names.antt =====
-- The channel names that suspend automatic moves (src/ts/channel/channel_manage.c).
pub mod Keywords
use conan_exiles_teamspeak.Prelude.{
  ℕ, ◌+◌, Bool, true, false, not, ◌&&◌, ◌||◌, Option, none, some, [], ◌∷◌, leb, ◌==◌, if◌then◌else◌,
}
use conan_exiles_teamspeak.CText.{Bytes, codes, peek}

-- `isalpha` in the C locale, and `tolower` for the comparisons without case.
unfoldable pub is_alpha : ℕ → Bool
is_alpha c = (leb b'a' c && leb c b'z') || (leb b'A' c && leb c b'Z')

abbrev pub lower : ℕ → ℕ
lower c = if leb b'A' c && leb c b'Z' then c + 32 else c

-- `_strnicmp(text, word, strlen(word)) == 0`: the text behind the word.
unfoldable pub strip_word : Bytes → Bytes → Option Bytes
strip_word [] text = some text
strip_word (w ∷ ws) [] = none
strip_word (w ∷ ws) (c ∷ cs) = if lower w == lower c then strip_word ws cs else none

-- One keyword at one place of the name; `before` is the byte in front, 0 at the start.
unfoldable pub keyword_here : Bytes → Bool → ℕ → Bytes → Bool
unfolding strip_word is_alpha
keyword_here word whole before text = elim (strip_word word text) [
  | none ↦ false
  | some rest ↦ not whole || (not (is_alpha before) && not (is_alpha (peek rest)))
]

-- The scan of one keyword over the name.
unfoldable pub has_keyword : Bytes → Bool → ℕ → Bytes → Bool
unfolding keyword_here
has_keyword word whole before [] = false
has_keyword word whole before (c ∷ cs) =
    keyword_here word whole before (c ∷ cs) || has_keyword word whole c cs

-- `chan_name_has_ignore_keyword`
unfoldable pub has_ignore_keyword : Bytes → Bool
unfolding has_keyword
has_ignore_keyword name =
    has_keyword (codes "event") false 0 name
    || has_keyword (codes "support") false 0 name
    || has_keyword (codes "plot") true 0 name
