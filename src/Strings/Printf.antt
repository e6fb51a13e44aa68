-- ===== src/Strings/Printf.antt =====
-- The verbs %d, %s and %x of Go's `fmt.Sprintf`, with which pkg/ writes its texts for the log. A number
-- is not negative, and a format has one argument for each of its verbs.
use go_network.Base.{
  ℕ, zero, suc, ◌+◌, ◌/◌, ◌%◌, List, [], ◌∷◌, ◌++◌, ◌-◌, ltb, ◌==◌, Bool, true, false,
  if◌then◌else◌,
}
use go_network.Strings.{codes, format}

pub data Arg : Type 0 where
  num : ℕ → Arg
  text : List ℕ → Arg

-- A digit of `%x`.
abbrev pub hex_digit : ℕ → ℕ
hex_digit d = if ltb d 10 then b'0' + d else b'a' + d - 10

-- The digits of n in front of a text; the fuel is more than n.
unfoldable pub hex_loop : ℕ → ℕ → List ℕ → List ℕ
hex_loop zero n out = out
hex_loop (suc fuel) n out = elim (ltb n 16) [
  | true ↦ hex_digit n ∷ out
  | false ↦ hex_loop fuel (n / 16) (hex_digit (n % 16) ∷ out)
]

-- `%x` of a number.
unfoldable pub hex : ℕ → List ℕ
unfolding hex_loop
hex n = hex_loop (suc n) n []

-- An argument under the verb of the letter c.
abbrev pub show_arg : ℕ → Arg → List ℕ
unfolding format hex
show_arg c (num n) = if c == b'x' then hex n else format n
show_arg c (text s) = s

-- The rest of a format, with the mark % of a verb before it or not. A verb without an argument says so.
unfoldable pub sprintf_from : Bool → List ℕ → List Arg → List ℕ
unfolding show_arg
sprintf_from verb [] args = []
sprintf_from true (c ∷ s) [] = codes "%!" ++ (c ∷ codes "(MISSING)" ++ sprintf_from false s [])
sprintf_from true (c ∷ s) (a ∷ args) = show_arg c a ++ sprintf_from false s args
sprintf_from false (c ∷ s) args = elim (c == b'%') [
  | true ↦ sprintf_from true s args
  | false ↦ c ∷ sprintf_from false s args
]

-- The first argument goes to the first verb.
unfoldable pub sprintf : List ℕ → List Arg → List ℕ
unfolding sprintf_from
sprintf s args = sprintf_from false s args
