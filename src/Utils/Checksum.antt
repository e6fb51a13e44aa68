-- ===== src/Utils/Checksum.antt =====
-- The checksum of pkg/utils/utils.go against the one's complement sum of RFC 1071.
use go_network.Base.{
  ℕ, suc, ◌+◌, ◌-◌, ◌*◌, ◌/◌, ◌%◌, ◌≡◌, ◌≤◌, List, [], ◌∷◌, ◌++◌, length, ◌∙◌, ap, sym, arith, u32,
  IsU8, IsU16, IsU32, All, ◌==◌, if◌then◌else◌,
}
use go_network.Utils.{hton16, pad, add_words, fold_carries, fold_fuel, check_sum}
use native.Mathlib.Decide.{dec_lt}

-- The sum of the big-endian words of a byte string, with no bound; a last odd byte is a high byte.
unfoldable pub word_sum : List ℕ → ℕ
word_sum [] = 0
word_sum (a ∷ []) = a * 256
word_sum (a ∷ b ∷ bs) = a * 256 + b + word_sum bs

-- The one's complement sum of words with the plain sum s: s reduced modulo 65535 into 1 .. 65535, and
-- 0 for no sum at all.
unfoldable pub ones_sum : ℕ → ℕ
ones_sum s = if s == 0 then 0 else (s - 1) % 65535 + 1

fold_round : (r : ℕ) → 65536 ≤ r → IsU32 r → ones_sum (r % 65536 + r / 65536) ≡ ones_sum r
unfolding ones_sum
fold_round r h k = ground arith

ones_sum_small : (r : ℕ) → IsU16 r → ones_sum r ≡ r
unfolding ones_sum
ones_sum_small r h = ground arith

fold_done : (n r : ℕ) → IsU16 r → fold_carries (suc n) r ≡ ones_sum r
unfolding fold_carries
fold_done n r h = ground (arith, ones_sum_small r h)

fold_step :
    (n r : ℕ)
    → 65536 ≤ r
    → IsU32 r
    → fold_carries (suc n) r ≡ fold_carries n (r % 65536 + r / 65536)
unfolding fold_carries
fold_step n r h k = ground arith

-- One round of the loop, and what the rest of the loop makes of it.
fold_round_lem :
    (n r : ℕ)
    → IsU32 r
    → fold_carries n (r % 65536 + r / 65536) ≡ ones_sum (r % 65536 + r / 65536)
    → fold_carries (suc n) r ≡ ones_sum r
fold_round_lem n r h next = elim (dec_lt r 65536) [
  | yes p ↦ fold_done n r p
  | no p ↦ fold_step n r (omega arith) h ∙ next ∙ fold_round r (omega arith) h
]

-- Two rounds always suffice.
pub fold_carries-ones_sum : (n r : ℕ) → IsU32 r → fold_carries (suc (suc (suc n))) r ≡ ones_sum r
fold_carries-ones_sum n r h = fold_round_lem _ r h (elim (dec_lt (r % 65536 + r / 65536) 65536) [
  | yes p ↦ fold_done (suc n) _ p
  | no p ↦
      fold_step (suc n) _ (omega arith) (omega arith)
      ∙ fold_done n _ (omega arith)
      ∙ fold_round _ (omega arith) (omega arith)
])

pad-cons : (a b : ℕ) (bs : List ℕ) → pad (a ∷ b ∷ bs) ≡ a ∷ b ∷ pad bs
unfolding pad
pad-cons a b bs = ground arith

add_words-pad :
    (b : List ℕ) (ret : ℕ) → IsU32 (ret + word_sum b) → add_words ret (pad b) ≡ ret + word_sum b
unfolding add_words word_sum pad
add_words-pad [] ret h = omega arith
add_words-pad (a ∷ []) ret h = omega arith
add_words-pad (a ∷ b ∷ bs) ret h =
    let e : u32 (ret + (a * 256 + b)) ≡ ret + (a * 256 + b) = omega arith in
    rw (pad-cons, add_words, e)
      (omega (arith, add_words-pad bs (ret + (a * 256 + b)) (omega arith)))

ones_sum-le : (s : ℕ) → ones_sum s ≤ 65535
unfolding ones_sum
ones_sum-le s = ground arith

-- The computed checksum is the complement of the one's complement sum.
pub check_sum-ones_sum :
    (b : List ℕ) (base : ℕ)
    → IsU32 (base + word_sum b)
    → check_sum b base ≡ 65535 - ones_sum (base + word_sum b)
unfolding check_sum
check_sum-ones_sum b base h = rw (add_words-pad b base h) (
    let e : fold_carries fold_fuel (base + word_sum b) ≡ ones_sum (base + word_sum b) =
      fold_carries-ones_sum 0 _ h in
    omega (arith, e, ones_sum-le (base + word_sum b)))

complement_sum : ℕ → ℕ
complement_sum s = 65535 - ones_sum s

check_sum_alone : (b : List ℕ) → IsU32 (word_sum b) → check_sum b 0 ≡ complement_sum (word_sum b)
unfolding complement_sum
check_sum_alone b h =
    check_sum-ones_sum b 0 (omega arith)
    ∙ ap complement_sum (let z : 0 + word_sum b ≡ word_sum b = omega arith in z)

-- Sums of byte strings: a string of even length splits the words.
pub word_sum-append :
    (a b : List ℕ) → length a % 2 ≡ 0 → word_sum (a ++ b) ≡ word_sum a + word_sum b
unfolding word_sum
word_sum-append [] b h = omega arith
word_sum-append (x ∷ []) b h = absurd (omega arith)
word_sum-append (x ∷ y ∷ a) b h = omega (arith, word_sum-append a b (omega arith))

pub word_sum-le : (b : List ℕ) → All IsU8 b → word_sum b * 2 ≤ 65535 * (length b + 1)
unfolding word_sum
word_sum-le [] h = omega arith
word_sum-le (x ∷ []) h = omega arith
word_sum-le (x ∷ y ∷ b) h = omega (arith, word_sum-le b (h.1).1)

ones_sum-add : (p d : ℕ) → ones_sum (ones_sum p + d) ≡ ones_sum (p + d)
unfolding ones_sum
ones_sum-add p d = ground arith

ones_sum_complement : (s : ℕ) → ones_sum (s + (65535 - ones_sum s)) ≡ 65535
unfolding ones_sum
ones_sum_complement s = ground arith

ones_sum_mod : (s t : ℕ) → ones_sum s ≡ 65535 → ones_sum t ≡ 65535 → s % 65535 ≡ t % 65535
unfolding ones_sum
ones_sum_mod s t h k = ground arith

word_sum-field :
    (front back : List ℕ) (a b : ℕ)
    → length front % 2 ≡ 0
    → word_sum (front ++ (a ∷ b ∷ back)) ≡ word_sum front + (a * 256 + b) + word_sum back
unfolding word_sum
word_sum-field front back a b h = omega (arith, word_sum-append front (a ∷ b ∷ back) h)

-- A message whose checksum field, at an even offset, holds the checksum computed over the message
-- with that field zero, has checksum 0.
pub check_sum_verifies :
    (front back : List ℕ) (base : ℕ)
    → length front % 2 ≡ 0
    → IsU32 (base + word_sum (front ++ (0 ∷ 0 ∷ back)) + 65535)
    → check_sum (front ++ (hton16 (check_sum (front ++ (0 ∷ 0 ∷ back)) base) ++ back)) base ≡ 0
unfolding hton16
check_sum_verifies front back base even small =
    let s = base + word_sum (front ++ (0 ∷ 0 ∷ back)) in
    let c = check_sum (front ++ (0 ∷ 0 ∷ back)) base in
    let computed : c ≡ 65535 - ones_sum s = check_sum-ones_sum _ base (omega arith) in
    let total : base + word_sum (front ++ (c / 256 % 256 ∷ c % 256 ∷ back)) ≡ s + c = omega (
      arith,
      computed,
      word_sum-field front back 0 0 even,
      word_sum-field front back (c / 256 % 256) (c % 256) even,
    ) in
    let folded : ones_sum (s + c) ≡ 65535 = rw computed (ones_sum_complement s) in
    check_sum-ones_sum _ base (rw total (omega (arith, computed)))
    ∙ omega (arith, ap ones_sum total, folded)

-- Two messages that differ in one aligned word and both pass have words equal modulo 65535: any
-- other change of the word is detected.
pub check_sum_detects :
    (front back : List ℕ) (base a b a' b' : ℕ)
    → length front % 2 ≡ 0
    → IsU32 (base + word_sum (front ++ (a ∷ b ∷ back)))
    → IsU32 (base + word_sum (front ++ (a' ∷ b' ∷ back)))
    → check_sum (front ++ (a ∷ b ∷ back)) base ≡ 0
    → check_sum (front ++ (a' ∷ b' ∷ back)) base ≡ 0
    → (a * 256 + b) % 65535 ≡ (a' * 256 + b') % 65535
check_sum_detects front back base a b a' b' even small small' pass pass' =
    let s = base + word_sum (front ++ (a ∷ b ∷ back)) in
    let s' = base + word_sum (front ++ (a' ∷ b' ∷ back)) in
    let e : s % 65535 ≡ s' % 65535 =
      ones_sum_mod s s' (omega (arith, check_sum-ones_sum _ base small, ones_sum-le s))
        (omega (arith, check_sum-ones_sum _ base small', ones_sum-le s')) in
    omega (arith, e, word_sum-field front back a b even, word_sum-field front back a' b' even)

-- The checksum of a pseudo header, complemented and handed over as the base, counts as if the pseudo
-- header stood in front of the message.
pub check_sum_chain :
    (pseudo message : List ℕ)
    → length pseudo % 2 ≡ 0
    → IsU32 (word_sum pseudo + word_sum message + 65535)
    → check_sum message (65535 - check_sum pseudo 0) ≡ check_sum (pseudo ++ message) 0
unfolding complement_sum
check_sum_chain pseudo message even small =
    let p = word_sum pseudo in
    let d = word_sum message in
    let first : 65535 - check_sum pseudo 0 ≡ ones_sum p =
      omega (arith, check_sum_alone pseudo (omega arith), ones_sum-le p) in
    let whole : word_sum (pseudo ++ message) ≡ p + d = word_sum-append pseudo message even in
    let right : check_sum (pseudo ++ message) 0 ≡ 65535 - ones_sum (p + d) =
      check_sum_alone (pseudo ++ message) (rw whole (omega arith)) ∙ ap complement_sum whole in
    rw first (
      check_sum-ones_sum message (ones_sum p) (omega (arith, ones_sum-le p))
      ∙ ap (λ (t : ℕ). 65535 - t) (ones_sum-add p d)
      ∙ sym right)
