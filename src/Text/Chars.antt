-- ===== src/Text/Chars.antt =====
-- The methods of `str` that look at all characters of a text, and comparison.
use Prim.Native.Char.{Char, code}
use spark_dashboard.Prelude.{
  ℕ, suc, String, Bool, true, false, ◌&&◌, ◌||◌, ltb, leb, ◌==◌, nat_eq, if◌then◌else◌,
}

unfoldable pub text_length : String → ℕ
text_length String.[] = 0
text_length (String.◌∷◌ c text) = suc (text_length text)

-- `chars().all`
unfoldable pub all_chars : (Char → Bool) → String → Bool
all_chars p String.[] = true
all_chars p (String.◌∷◌ c text) = p c && all_chars p text

-- `is_ascii_hexdigit`
abbrev pub is_hexdigit : Char → Bool
is_hexdigit c =
    let k = code c in leb 48 k && leb k 57 || leb 65 k && leb k 70 || leb 97 k && leb k 102

-- `a <= b`, by characters, whose order is that of their UTF-8 bytes
unfoldable pub text_le : String → String → Bool
text_le String.[] b = true
text_le (String.◌∷◌ c a) String.[] = false
text_le (String.◌∷◌ c a) (String.◌∷◌ d b) =
    let rest = text_le a b in
    if ltb (code c) (code d) then true else if code c == code d then rest else false
