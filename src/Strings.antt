-- ===== src/Strings.antt =====
-- What the code uses of Go's strings, strconv and fmt: strings.Split at one byte, strconv.Atoi, and the
-- verb %d for a number that is not negative. A string is the list of its bytes, and an int is its 64 bit
-- word in two's complement.
pub mod Decimal
pub mod Printf
mod Tests
use Prim.Native.Char.{code}
use Prim.Native.String.{String}
use go_network.Base.{
  ℕ, zero, suc, ◌+◌, ◌-◌, ◌*◌, ◌/◌, ◌%◌, ◌^◌, List, [], ◌∷◌, ltb, leb, ◌==◌, ◌&&◌, if◌then◌else◌,
  Option, none, some, Bool, true, false,
}

-- The bytes of an ASCII literal.
abbrev pub codes : String → List ℕ
codes String.[] = []
codes (String.◌∷◌ c s) = code c ∷ codes s

-- A byte in front of the first part.
abbrev pub onto_first : ℕ → List (List ℕ) → List (List ℕ)
onto_first c [] = (c ∷ []) ∷ []
onto_first c (part ∷ parts) = (c ∷ part) ∷ parts

-- `strings.Split`: there is always a first part.
unfoldable pub split : ℕ → List ℕ → List (List ℕ)
split sep [] = [] ∷ []
split sep (c ∷ s) = let rest = split sep s in if c == sep then [] ∷ rest else onto_first c rest

-- The number that digits spell behind n, none if there is another byte.
unfoldable pub scan : ℕ → List ℕ → Option ℕ
scan n [] = some n
scan n (c ∷ s) =
    let rest = scan (n * 10 + (c - b'0')) s in if leb b'0' c && leb c b'9' then rest else none

-- One digit or more.
unfoldable pub digits_of : List ℕ → Option ℕ
unfolding scan
digits_of [] = none
digits_of (c ∷ s) = scan 0 (c ∷ s)

abbrev pub int_max : ℕ
int_max = 9223372036854775807

-- A magnitude with its sign, in range.
unfoldable pub to_int : Bool → Option ℕ → Option ℕ
to_int negative none = none
to_int true (some n) = if leb n (int_max + 1) then some ((2 ^ 64 - n) % 2 ^ 64) else none
to_int false (some n) = if leb n int_max then some n else none

-- `strconv.Atoi`: an optional sign, and digits.
unfoldable pub atoi : List ℕ → Option ℕ
unfolding digits_of to_int
atoi [] = none
atoi (c ∷ s) =
    if c == b'-'
    then to_int true (digits_of s)
    else if c == b'+'
    then to_int false (digits_of s)
    else to_int false (digits_of (c ∷ s))

-- The digits of n in front of a text; the fuel is more than n.
unfoldable pub format_loop : ℕ → ℕ → List ℕ → List ℕ
format_loop zero n out = out
format_loop (suc fuel) n out = elim (ltb n 10) [
  | true ↦ (b'0' + n) ∷ out
  | false ↦ format_loop fuel (n / 10) ((b'0' + n % 10) ∷ out)
]

-- `%d`.
unfoldable pub format : ℕ → List ℕ
unfolding format_loop
format n = format_loop (suc n) n []
