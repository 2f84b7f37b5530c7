-- ===== src/Prelude/Text.antt =====
-- What the program asks of Python's strings: blankness, order by code points, sha256 digests.
use Prim.Native.Nat.{ℕ, zero, suc}
use Prim.Native.Char.{code}
use Prim.Native.String.{String}
use mathlib.Core.Bool.{Bool, true, false, ◌&&◌, ◌||◌}
use ai_coding_workflow.Prelude.Tests.{leb, ltb, ◌==◌}

-- `str.isspace` of one code point.
unfoldable pub is_space : ℕ → Bool
is_space c =
    (leb 9 c && leb c 13)
    || (leb 28 c && leb c 32)
    || c == 0x85
    || c == 0xa0
    || c == 0x1680
    || (leb 0x2000 c && leb c 0x200a)
    || c == 0x2028
    || c == 0x2029
    || c == 0x202f
    || c == 0x205f
    || c == 0x3000

-- `not s.strip()`.
unfoldable pub is_blank : String → Bool
unfolding is_space
is_blank String.[] = true
is_blank (String.◌∷◌ c s) = is_space (code c) && is_blank s

-- `not s`.
abbrev pub is_empty_text : String → Bool
is_empty_text String.[] = true
is_empty_text (String.◌∷◌ c s) = false

-- `s <= t`, by code points.
unfoldable pub str_leb : String → String → Bool
str_leb String.[] t = true
str_leb (String.◌∷◌ c s) String.[] = false
str_leb (String.◌∷◌ c s) (String.◌∷◌ d t) =
    ltb (code c) (code d) || (code c == code d && str_leb s t)

abbrev pub is_hex_digit : ℕ → Bool
is_hex_digit c = (leb b'0' c && leb c b'9') || (leb b'a' c && leb c b'f')

-- `[0-9a-f]{n}` to the end of the text.
unfoldable pub is_hex : ℕ → String → Bool
is_hex zero String.[] = true
is_hex zero (String.◌∷◌ c s) = false
is_hex (suc n) String.[] = false
is_hex (suc n) (String.◌∷◌ c s) = is_hex_digit (code c) && is_hex n s

-- What follows a prefix, tested by `test`.
unfoldable pub after_prefix : String → (String → Bool) → String → Bool
after_prefix String.[] test s = test s
after_prefix (String.◌∷◌ p ps) test String.[] = false
after_prefix (String.◌∷◌ p ps) test (String.◌∷◌ c s) = code p == code c && after_prefix ps test s

-- `^sha256:[0-9a-f]{64}$`, matched in full (STATE_ID_RE, HASH_RE).
unfoldable pub is_digest : String → Bool
unfolding after_prefix is_hex
is_digest s = after_prefix "sha256:" (is_hex 64) s
