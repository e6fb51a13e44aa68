-- ===== src/Strings/Decimal.antt =====
-- strconv.Atoi reads what %d writes, and strings.Split takes apart what was joined.
use go_network.Base.{
  ◌⊎◌, ℕ, zero, suc, ◌+◌, ◌-◌, ◌*◌, ◌/◌, ◌%◌, ◌≤◌, ◌<◌, ◌≡◌, ◌≢◌, ◌==◌, refl, ap, ◌∙◌, arith, List,
  [], ◌∷◌, ◌++◌, some, All, false,
}
use go_network.Strings.{split, scan, atoi, int_max, format_loop, format}

abbrev pub IsDigit : ℕ → Type 0
IsDigit c = (b'0' ≤ c) × (c ≤ b'9')

format_loop-IsDigit :
    (fuel n : ℕ) (out : List ℕ) → All IsDigit out → All IsDigit (format_loop fuel n out)
unfolding format_loop
format_loop-IsDigit zero n out h = h
format_loop-IsDigit (suc fuel) n out h =
    ground (arith, format_loop-IsDigit fuel (n / 10) ((b'0' + n % 10) ∷ out))

scan_digit :
    (m d n : ℕ) (out : List ℕ) → d < 10 → m * 10 + d ≡ n → scan m ((b'0' + d) ∷ out) ≡ scan n out
unfolding scan
scan_digit m d n out h e =
    let z : m * 10 + (b'0' + d - b'0') ≡ n = omega (arith, e) in
    let k : scan (m * 10 + (b'0' + d - b'0')) out ≡ scan n out = ap (λ k. scan k out) z in
    ground (arith, h, k)

scan-format_loop :
    (fuel n : ℕ) (out : List ℕ) → n < fuel → scan 0 (format_loop fuel n out) ≡ scan n out
unfolding format_loop
scan-format_loop zero n out h = ground (arith, h)
scan-format_loop (suc fuel) n out h = ground (
  arith,
  scan_digit 0 n n out,
  scan_digit (n / 10) (n % 10) n out,
  scan-format_loop fuel (n / 10) ((b'0' + n % 10) ∷ out),
)

pub format-IsDigit : (n : ℕ) → All IsDigit (format n)
unfolding format
format-IsDigit n = format_loop-IsDigit (suc n) n [] tt

-- A text of digits that is not empty: no sign is in the way.
atoi_digits :
    (s : List ℕ) (n : ℕ)
    → All IsDigit s
    → s ≢ []
    → scan 0 s ≡ some n
    → n ≤ int_max
    → atoi s ≡ some n
unfolding atoi
atoi_digits [] n d e h k = absurd (e refl)
atoi_digits (c ∷ s) n d e h k = ground (arith, d, h, k)

format_loop-cons : (fuel n d : ℕ) (out : List ℕ) → format_loop fuel n (d ∷ out) ≢ []
unfolding format_loop
format_loop-cons zero n d out = λ e. cc
format_loop-cons (suc fuel) n d out =
    ground (arith, format_loop-cons fuel (n / 10) (b'0' + n % 10) (d ∷ out))

format_some : (n : ℕ) → format n ≢ []
unfolding format
format_some n = ground (arith, format_loop-cons n (n / 10) (b'0' + n % 10) [])

-- Atoi reads what %d writes, for every int that is not negative.
pub atoi-format : (n : ℕ) → n ≤ int_max → atoi (format n) ≡ some n
atoi-format n h =
    atoi_digits (format n) n (format-IsDigit n) (format_some n)
      (unfold format in scan-format_loop (suc n) n [] (omega arith) ∙ (unfold scan in refl)) h

abbrev pub Lacks : ℕ → List ℕ → Type 0
Lacks sep = All (λ c. (c == sep) ≡ false)

-- A byte that is no digit.
pub digits-Lacks :
    (sep : ℕ) (s : List ℕ) → (sep < b'0') ⊎ (b'9' < sep) → All IsDigit s → Lacks sep s
digits-Lacks sep [] h d = tt
digits-Lacks sep (c ∷ s) h d = (ground (arith, h, d), digits-Lacks sep s h d.1)

pub split-append :
    (sep : ℕ) (part rest : List ℕ)
    → Lacks sep part
    → split sep (part ++ (sep ∷ rest)) ≡ part ∷ split sep rest
unfolding split
split-append sep [] rest h = ground arith
split-append sep (c ∷ part) rest h = ground (arith, h, split-append sep part rest h.1)

pub split_last : (sep : ℕ) (part : List ℕ) → Lacks sep part → split sep part ≡ part ∷ []
unfolding split
split_last sep [] h = refl
split_last sep (c ∷ part) h = ground (arith, h, split_last sep part h.1)
