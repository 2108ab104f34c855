-- ===== src/Proto/Name.antt =====
-- The names in CEPOS packets: control bytes of an untrusted name are replaced before it is stored
-- or logged (src/ts/proximity/ts3_cepos_wire.h).
use conan_exiles_teamspeak.Prelude.{
  ℕ, zero, suc, ◌≤◌, ◌≡◌, ◌≢◌, refl, true, false, ◌||◌, [], ◌∷◌, ltb, ◌==◌, if◌then◌else◌, arith,
  length,
}
use conan_exiles_teamspeak.CText.{Bytes}

-- `cepos_wire_sanitize_name`: `size` bounds the scan, and the name ends at its first NUL; the
-- bytes behind it stay.
unfoldable pub sanitize_name : Bytes → ℕ → Bytes
sanitize_name [] size = []
sanitize_name (c ∷ cs) zero = c ∷ cs
sanitize_name (c ∷ cs) (suc size) =
    if c == 0 then c ∷ cs else (if ltb c 0x20 || c == 0x7F then b'?' else c) ∷ sanitize_name cs size

-- The text of the buffer: its bytes before the first NUL, within the size.
abbrev pub text : Bytes → ℕ → Bytes
text [] size = []
text (c ∷ cs) zero = []
text (c ∷ cs) (suc size) = elim (c == 0) [ true ↦ [] | false ↦ c ∷ text cs size ]

-- A byte that can stand in a log line.
abbrev pub Printable : ℕ → Type 0
Printable c = (0x20 ≤ c) × (c ≢ 0x7F)

abbrev pub AllPrintable : Bytes → Type 0
AllPrintable [] = Unit
AllPrintable (c ∷ cs) = Printable c × AllPrintable cs

abbrev pub cleaned : Bytes → Bytes
cleaned [] = []
cleaned (c ∷ cs) = (if ltb c 0x20 || c == 0x7F then b'?' else c) ∷ cleaned cs

-- Of any bytes a peer sends as a name, the text that is stored holds no control byte, has the
-- same length, and differs only where a control byte stood; the buffer keeps its length.
pub sanitize_name_lem :
    (name : Bytes) (size : ℕ)
    → AllPrintable (text (sanitize_name name size) size)
      × (text (sanitize_name name size) size ≡ cleaned (text name size))
      × (length (sanitize_name name size) ≡ length name)
unfolding sanitize_name
sanitize_name_lem [] size = (tt, refl, refl)
sanitize_name_lem (c ∷ cs) zero = (tt, refl, refl)
sanitize_name_lem (c ∷ cs) (suc size) = ground (arith, sanitize_name_lem cs size)
