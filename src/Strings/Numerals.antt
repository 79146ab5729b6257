-- ===== src/Strings/Numerals.antt =====
-- What the repository uses of Go's package strconv: `Atoi`, `ParseInt(s, 0, 64)` and `ParseBool`. An
-- error of these is `none`.
use Prim.Native.Nat.{bit_or}
use mathlib.Core.Option.{bind}
use cdp_go.Base.{
  Bool, Bytes, List, Option, [], bytes_eq, codes, false, if◌then◌else◌, leb, ltb, none, some, suc,
  true, zero, ℕ, ◌&&◌, ◌*◌, ◌+◌, ◌-◌, ◌==◌, ◌^◌, ◌||◌, ◌∷◌,
}
use cdp_go.Base.Int.{negsuc, pos, ℤ}

-- The integer of a sign and a magnitude, if it is an int64.
abbrev pub negate : ℕ → ℤ
negate zero = pos 0
negate (suc n) = negsuc n

abbrev pub int64_of : Bool → ℕ → Option ℤ
int64_of true n = if leb n (2 ^ 63) then some (negate n) else none
int64_of false n = if ltb n (2 ^ 63) then some (pos n) else none

-- `c | 0x20`.
abbrev pub lower_case : ℕ → ℕ
lower_case c = bit_or c 32

abbrev pub is_digit : ℕ → Bool
is_digit c = leb b'0' c && leb c b'9'

-- The value of a digit, 36 for what is none.
abbrev pub digit_of : ℕ → ℕ
digit_of c =
    if is_digit c
    then c - b'0'
    else if leb b'a' (lower_case c) && leb (lower_case c) b'z'
    then lower_case c - b'a' + 10
    else 36

-- The sign in front of a numeral: whether it is negative, and the rest.
abbrev pub cut_sign : Bytes → Bool × Bytes
cut_sign [] = (false, [])
cut_sign (c ∷ s) = if c == b'-' then (true, s) else if c == b'+' then (false, s) else (false, c ∷ s)

-- The loop of `ParseUint`, without the bound of 64 bits, which `int64_of` tests with its own.
unfoldable pub read_digits : ℕ → Bool → Bytes → ℕ → Option ℕ
read_digits base underscores [] n = some n
read_digits base underscores (c ∷ s) n =
    if (underscores && c == b'_') || ltb (digit_of c) base
    then read_digits base underscores s (if c == b'_' then n else n * base + digit_of c)
    else none

-- `strconv.Atoi`.
unfoldable pub decimal : Bool → Bytes → Option ℤ
decimal negative [] = none
decimal negative (c ∷ s) = bind (read_digits 10 false (c ∷ s) 0) (int64_of negative)

unfoldable pub atoi : Bytes → Option ℤ
atoi s = let (negative, digits) = cut_sign s in decimal negative digits

-- The base that the prefix of a numeral tells, and the digits.
abbrev pub base_of : Bytes → ℕ × Bytes
base_of (c ∷ d ∷ e ∷ s) =
    if c == b'0'
    then if lower_case d == b'b'
      then (2, e ∷ s)
      else if lower_case d == b'o'
      then (8, e ∷ s)
      else if lower_case d == b'x'
      then (16, e ∷ s)
      else (8, d ∷ e ∷ s)
    else (10, c ∷ d ∷ e ∷ s)
base_of (c ∷ s) = if c == b'0' then (8, s) else (10, c ∷ s)
base_of [] = (10, [])

-- What stood before: nothing, a digit, an underscore or something else.
pub data Seen : Type 0 where
  at_start : Seen
  after_digit : Seen
  after_underscore : Seen
  after_other : Seen

-- The body of the loop in `underscoreOK`: an underscore stands between digits.
abbrev pub see : Bool → Seen → ℕ → Option Seen
see is_hex seen c =
    if is_digit c || (is_hex && (leb b'a' (lower_case c) && leb (lower_case c) b'f'))
    then some after_digit
    else if c == b'_'
    then elim seen [ after_digit ↦ some after_underscore | _ ↦ none ]
    else elim seen [ after_underscore ↦ none | _ ↦ some after_other ]

unfoldable pub underscores_loop : Bool → Seen → Bytes → Bool
underscores_loop is_hex seen [] = elim seen [ after_underscore ↦ false | _ ↦ true ]
underscores_loop is_hex seen (c ∷ s) = elim (see is_hex seen c) [
  | none ↦ false
  | some next ↦ underscores_loop is_hex next s
]

-- `underscoreOK`, of a numeral without its sign.
unfoldable pub underscores_ok : Bytes → Bool
underscores_ok (c ∷ d ∷ s) =
    if c == b'0' && (lower_case d == b'b' || lower_case d == b'o' || lower_case d == b'x')
    then underscores_loop (lower_case d == b'x') after_digit s
    else underscores_loop false at_start (c ∷ d ∷ s)
underscores_ok s = underscores_loop false at_start s

-- `strconv.ParseInt(s, 0, 64)`. That its numeral has no underscore is no error.
unfoldable pub numeral : Bool → Bytes → Option ℤ
numeral negative [] = none
numeral negative (c ∷ s) =
    let (base, digits) = base_of (c ∷ s) in
    if underscores_ok (c ∷ s)
    then bind (read_digits base true digits 0) (int64_of negative)
    else none

unfoldable pub parse_int : Bytes → Option ℤ
parse_int s = let (negative, digits) = cut_sign s in numeral negative digits

abbrev pub is_one_of : Bytes → List Bytes → Bool
is_one_of s [] = false
is_one_of s (t ∷ ts) = bytes_eq s t || is_one_of s ts

-- `strconv.ParseBool`.
unfoldable pub parse_bool : Bytes → Option Bool
parse_bool s =
    if is_one_of s
      (codes "1" ∷ codes "t" ∷ codes "T" ∷ codes "true" ∷ codes "TRUE" ∷ codes "True" ∷ [])
    then some true
    else if is_one_of s
        (codes "0" ∷ codes "f" ∷ codes "F" ∷ codes "false" ∷ codes "FALSE" ∷ codes "False" ∷ [])
    then some false
    else none
