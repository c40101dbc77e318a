-- ===== src/Text.antt =====
-- What the program uses of Go's package strings, on the bytes of a string.
pub mod Extract
pub mod Decimal
use go_research.Prelude.{
  ℕ, zero, suc, Bool, true, false, Option, none, some, List, [], ◌∷◌, ◌++◌, map, reverse, Str,
  codes, length, leb, take, ◌==◌, if◌then◌else◌, ◌+◌, ◌%◌, ◌/◌,
}

-- What is left of a string behind a prefix.
unfoldable pub strip_prefix : Str → Str → Option Str
strip_prefix [] s = some s
strip_prefix (p ∷ ps) [] = none
strip_prefix (p ∷ ps) (c ∷ s) = let rest = strip_prefix ps s in if p == c then rest else none

abbrev is_some : Option Str → Bool
is_some none = false
is_some (some _) = true

-- strings.HasPrefix(s, p)
unfoldable pub has_prefix : Str → Str → Bool
unfolding strip_prefix
has_prefix s p = is_some (strip_prefix p s)

-- strings.HasSuffix(s, p)
unfoldable pub has_suffix : Str → Str → Bool
unfolding has_prefix
has_suffix s p = has_prefix (reverse s) (reverse p)

-- strings.TrimPrefix(s, p)
unfoldable pub trim_prefix : Str → Str → Str
unfolding strip_prefix
trim_prefix s p = elim (strip_prefix p s) [ none ↦ s | some rest ↦ rest ]

-- strings.TrimSuffix(s, p)
unfoldable pub trim_suffix : Str → Str → Str
unfolding trim_prefix
trim_suffix s p = reverse (trim_prefix (reverse s) (reverse p))

-- The UTF-8 encodings of the runes that unicode.IsSpace accepts.
abbrev spaces : List Str
spaces =
    (0x09 ∷ [])
    ∷ (0x0a ∷ [])
    ∷ (0x0b ∷ [])
    ∷ (0x0c ∷ [])
    ∷ (0x0d ∷ [])
    ∷ (0x20 ∷ [])
    ∷ (0xc2 ∷ 0x85 ∷ [])
    ∷ (0xc2 ∷ 0xa0 ∷ [])
    ∷ (0xe1 ∷ 0x9a ∷ 0x80 ∷ [])
    ∷ (0xe2 ∷ 0x80 ∷ 0x80 ∷ [])
    ∷ (0xe2 ∷ 0x80 ∷ 0x81 ∷ [])
    ∷ (0xe2 ∷ 0x80 ∷ 0x82 ∷ [])
    ∷ (0xe2 ∷ 0x80 ∷ 0x83 ∷ [])
    ∷ (0xe2 ∷ 0x80 ∷ 0x84 ∷ [])
    ∷ (0xe2 ∷ 0x80 ∷ 0x85 ∷ [])
    ∷ (0xe2 ∷ 0x80 ∷ 0x86 ∷ [])
    ∷ (0xe2 ∷ 0x80 ∷ 0x87 ∷ [])
    ∷ (0xe2 ∷ 0x80 ∷ 0x88 ∷ [])
    ∷ (0xe2 ∷ 0x80 ∷ 0x89 ∷ [])
    ∷ (0xe2 ∷ 0x80 ∷ 0x8a ∷ [])
    ∷ (0xe2 ∷ 0x80 ∷ 0xa8 ∷ [])
    ∷ (0xe2 ∷ 0x80 ∷ 0xa9 ∷ [])
    ∷ (0xe2 ∷ 0x80 ∷ 0xaf ∷ [])
    ∷ (0xe2 ∷ 0x81 ∷ 0x9f ∷ [])
    ∷ (0xe3 ∷ 0x80 ∷ 0x80 ∷ [])
    ∷ []

-- The rest of a string behind the first of some prefixes that fits.
strip_any : List Str → Str → Option Str
strip_any [] s = none
strip_any (p ∷ ps) s = elim (strip_prefix p s) [ none ↦ strip_any ps s | some rest ↦ some rest ]

-- Each round takes a byte at least, so the length is enough fuel.
trim_start : ℕ → List Str → Str → Str
trim_start zero ps s = s
trim_start (suc fuel) ps s = elim (strip_any ps s) [
  | none ↦ s
  | some rest ↦ trim_start fuel ps rest
]

-- strings.TrimSpace: a run of spaces at the end is one at the start of the reversed string, under
-- the reversed encodings.
unfoldable pub trim_space : Str → Str
unfolding trim_start strip_any strip_prefix
trim_space s =
    let left = trim_start (length s) spaces s in
    reverse (trim_start (length left) (map reverse spaces) (reverse left))

-- `truncate(s, n)` of planner.go and critic.go
unfoldable pub truncate : Str → ℕ → Str
truncate s n = if leb (length s) n then s else take n s ++ codes "..."

-- strings.Fields, with the bytes of the current word in `word`; a byte a round.
words : ℕ → Str → Str → List Str
words zero word s = word ∷ []
words (suc fuel) word [] = word ∷ []
words (suc fuel) word (c ∷ s) = elim (strip_any spaces (c ∷ s)) [
  | some rest ↦ word ∷ words fuel [] rest
  | none ↦ words fuel (word ++ c ∷ []) s
]

-- strings.Join(words, " "), leaving out the empty words
join_words : List Str → Str
join_words [] = []
join_words ([] ∷ ws) = join_words ws
join_words ((c ∷ w) ∷ ws) =
    let rest = join_words ws in elim rest [ [] ↦ c ∷ w | d ∷ ds ↦ (c ∷ w) ++ b' ' ∷ d ∷ ds ]

-- `oneLine` of researcher.go: a newline is a space for strings.Fields, so the call of
-- strings.ReplaceAll before it changes nothing.
unfoldable pub one_line : Str → ℕ → Str
unfolding words join_words strip_any strip_prefix
one_line s max =
    let joined = join_words (words (length s) [] s) in
    if leb (length joined) max then joined else take max joined ++ codes "..."

-- The digits of a number, the last ones in `acc`: what %d prints.
pub digits_before : ℕ → ℕ → Str → Str
digits_before zero n acc = acc
digits_before (suc fuel) n acc =
    let acc' = (b'0' + n % 10) ∷ acc in
    let rest = digits_before fuel (n / 10) acc' in if n / 10 == 0 then acc' else rest

unfoldable pub decimal : ℕ → Str
unfolding digits_before
decimal n = digits_before (suc n) n []
