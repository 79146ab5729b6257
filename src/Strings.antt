-- ===== src/Strings.antt =====
-- What the repository uses of Go's package strings, on strings as bytes. `ToLower` and `TrimSpace`
-- have a path of their own for ASCII; for other strings they go by the tables of package unicode.
pub mod Trim
pub mod Tokens
pub mod Numerals
use cdp_go.Base.{
  Bool, Bytes, List, Option, [], if◌then◌else◌, leb, ltb, map, none, some, true, ℕ, ◌&&◌, ◌+◌, ◌==◌,
  ◌||◌, ◌∷◌,
}

-- A byte that stands for itself in UTF-8.
abbrev pub is_ascii : Bytes → Bool
is_ascii [] = true
is_ascii (c ∷ s) = ltb c 0x80 && is_ascii s

-- The tables of package unicode: `ToLower`, and whether `TrimSpace` leaves nothing, for strings
-- that are not ASCII.
pub record Unicode : Type 0 where
  pub lower : Bytes → Bytes
  pub all_space : Bytes → Bool

abbrev pub lower_byte : ℕ → ℕ
lower_byte c = if leb b'A' c && leb c b'Z' then c + 32 else c

abbrev pub is_space : ℕ → Bool
is_space c = c == b' ' || (leb 9 c && leb c 13)

abbrev pub all_bytes : (ℕ → Bool) → Bytes → Bool
all_bytes test [] = true
all_bytes test (c ∷ s) = test c && all_bytes test s

-- `strings.ToLower`.
unfoldable pub to_lower : Unicode → Bytes → Bytes
to_lower u s = if is_ascii s then map lower_byte s else u.lower s

-- `strings.TrimSpace(s) == ""`.
unfoldable pub is_blank : Unicode → Bytes → Bool
is_blank u s = if is_ascii s then all_bytes is_space s else u.all_space s

-- `strings.Trim(s, cutset)` for a cutset of one byte.
unfoldable pub trim_left : ℕ → Bytes → Bytes
trim_left k [] = []
trim_left k (c ∷ s) = if c == k then trim_left k s else c ∷ s

-- `c` in front of what is left of the bytes behind it.
abbrev pub keep_before : ℕ → ℕ → Bytes → Bytes
keep_before k c [] = if c == k then [] else c ∷ []
keep_before k c (d ∷ s) = c ∷ (d ∷ s)

unfoldable pub trim_right : ℕ → Bytes → Bytes
trim_right k [] = []
trim_right k (c ∷ s) = keep_before k c (trim_right k s)

unfoldable pub trim : ℕ → Bytes → Bytes
trim k s = trim_right k (trim_left k s)

-- `strings.HasPrefix(s, p)` with the answer of `strings.TrimPrefix(s, p)`.
unfoldable pub cut_prefix : Bytes → Bytes → Option Bytes
cut_prefix [] s = some s
cut_prefix (c ∷ p) [] = none
cut_prefix (c ∷ p) (d ∷ s) = if c == d then cut_prefix p s else none

abbrev pub prepend : ℕ → List Bytes → List Bytes
prepend c [] = (c ∷ []) ∷ []
prepend c (part ∷ parts) = (c ∷ part) ∷ parts

-- `strings.Split(s, sep)` for a separator of one byte.
unfoldable pub split : ℕ → Bytes → List Bytes
split k [] = [] ∷ []
split k (c ∷ s) = if c == k then [] ∷ split k s else prepend c (split k s)
