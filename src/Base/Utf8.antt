-- ===== src/Base/Utf8.antt =====
-- `str.encode` and `bytes.decode` with `errors="replace"`, as far as the program uses them: the
-- width of an encoded text, and what the decoding of the first bytes of an encoded text gives back.
use Prim.Native.Nat.{ℕ, ◌+◌, ◌-◌}
use mathlib.Core.Bool.{Bool, ◌&&◌, ◌||◌}
use mathlib.Core.List.{[], ◌∷◌}
use cyber_tracker_ai.Base.Tests.{ltb, leb, nat_beq, if◌then◌else◌}
use cyber_tracker_ai.Base.Text.{Text}

-- The bytes of one code point.
unfoldable pub width : ℕ → ℕ
width c = if ltb c 0x80 then 1 else if ltb c 0x800 then 2 else if ltb c 0x10000 then 3 else 4

-- `len(text.encode())`, of a text without surrogates.
unfoldable pub byte_length : Text → ℕ
byte_length [] = 0
byte_length (c ∷ cs) = width c + byte_length cs

-- A text that holds a surrogate has no encoding.
unfoldable pub has_surrogate : Text → Bool
has_surrogate [] = Bool.false
has_surrogate (c ∷ cs) = leb 0xd800 c && leb c 0xdfff || has_surrogate cs

abbrev pub replacement : ℕ
replacement = 0xfffd

-- `text.encode()[:n].decode(errors="replace")`: the characters that fit, and one replacement
-- character for the bytes of the next one that are left.
unfoldable pub decode_prefix : ℕ → Text → Text
decode_prefix n [] = []
decode_prefix n (c ∷ cs) =
    let rest = decode_prefix (n - width c) cs in
    if leb (width c) n then c ∷ rest else if nat_beq n 0 then [] else replacement ∷ []
