-- ===== src/Arp/Search.antt =====
-- Searches and counts in the cache table of pkg/arp/cache.go.
use go_network.Base.{
  ltb, sym, ap, ◌∙◌, ℕ, zero, suc, ◌+◌, ◌-◌, ◌≡◌, ◌≤◌, ◌<◌, refl, arith, List, [], ◌∷◌, set, get_or,
  length, Option, none, some, Bool, true, false, inl, inr, Bool-cases,
}
use go_network.Arp.Cache.{
  CacheEntry, zero_entry, is_free, holds, alloc_loop, cache_alloc, select_loop, cache_select,
}

abbrev pub one_if : Bool → ℕ
one_if true = 1
one_if false = 0

module _ {ℓ} {A : Type ℓ} where
  -- The first index from i on at which the test holds.
  abbrev pub find_index : (A → Bool) → ℕ → List A → Option ℕ
  find_index p i [] = none
  find_index p i (x ∷ xs) = elim (p x) [ true ↦ some i | false ↦ find_index p (suc i) xs ]

  abbrev pub count : (A → Bool) → List A → ℕ
  count p [] = 0
  count p (x ∷ xs) = elim (p x) [ true ↦ suc (count p xs) | false ↦ count p xs ]

  pub count-set :
      (p : A → Bool) (xs : List A) (i : ℕ) (v d : A)
      → i < length xs
      → count p (set xs i v) + one_if (p (get_or xs i d)) ≡ count p xs + one_if (p v)
  count-set p [] i v d h = omega (arith, h)
  count-set p (x ∷ xs) zero v d h = ground arith
  count-set p (x ∷ xs) (suc i) v d h = ground (arith, count-set p xs i v d (omega (arith, h)))

  pub get_or-set : (xs : List A) (i : ℕ) (v d : A) → i < length xs → get_or (set xs i v) i d ≡ v
  get_or-set [] i v d h = ground (arith, h)
  get_or-set (x ∷ xs) zero v d h = refl
  get_or-set (x ∷ xs) (suc i) v d h = get_or-set xs i v d (omega (arith, h))

  pub find_index-none :
      (p : A → Bool) (i : ℕ) (xs : List A) → find_index p i xs ≡ none → count p xs ≡ 0
  find_index-none p i [] h = refl
  find_index-none p i (x ∷ xs) h = ground (arith, find_index-none p (suc i) xs)

  pub find_index-some :
      (p : A → Bool) (i : ℕ) (xs : List A) (d : A) (k : ℕ)
      → find_index p i xs ≡ some k
      → (i ≤ k) × (k - i < length xs) × (p (get_or xs (k - i) d) ≡ true)
  find_index-some p i [] d k h = ground arith
  find_index-some p i (x ∷ xs) d k h = elim (Bool-cases (p x)) [
    | inl hit ↦
        let e : i ≡ k = ground (arith, hit, h) in
        let z : k - i ≡ 0 = omega (arith, e) in rw z (omega (arith, e), omega arith, hit)
    | inr miss ↦
        let (a, b, c) = find_index-some p (suc i) xs d k (ground (arith, miss, h)) in
        let z : k - i ≡ suc (k - suc i) = omega (arith, a) in
        rw z (omega (arith, a), omega (arith, b), c)
  ]

  pub count-pos :
      (p : A → Bool) (xs : List A) (j : ℕ) (d : A)
      → j < length xs
      → p (get_or xs j d) ≡ true
      → 0 < count p xs
  count-pos p [] j d h e = omega (arith, h)
  count-pos p (x ∷ xs) zero d h e = ground arith
  count-pos p (x ∷ xs) (suc j) d h e = ground (arith, count-pos p xs j d (omega (arith, h)) e)

  -- The test holds at one place at most: the search finds it.
  pub find_index-only :
      (p : A → Bool) (i : ℕ) (xs : List A) (d : A) (j : ℕ)
      → count p xs ≤ 1
      → j < length xs
      → p (get_or xs j d) ≡ true
      → find_index p i xs ≡ some (i + j)
  find_index-only p i [] d j h k e = ground (arith, k)
  find_index-only p i (x ∷ xs) d zero h k e = ground arith
  find_index-only p i (x ∷ xs) d (suc j) h k e = elim (Bool-cases (p x)) [
    | inl hit ↦ ground (arith, hit, h, count-pos p xs j d (omega (arith, k)) e)
    | inr miss ↦
        let r = find_index-only p (suc i) xs d j (ground (arith, miss, h)) (omega (arith, k)) e in
        let z : i + suc j ≡ suc i + j = omega arith in rw (find_index, miss) (r ∙ ap some (sym z))
  ]

select_loop-find_index :
    (pa i : ℕ) (caches : List CacheEntry) → select_loop pa i caches ≡ find_index (holds pa) i caches
unfolding select_loop
select_loop-find_index pa i [] = refl
select_loop-find_index pa i (c ∷ cs) = ground (arith, select_loop-find_index pa (suc i) cs)

-- The search of `cacheSelect`.
pub cache_select-find_index :
    (pa : ℕ) (caches : List CacheEntry) → cache_select pa caches ≡ find_index (holds pa) 0 caches
unfolding cache_select
cache_select-find_index pa caches = select_loop-find_index pa 0 caches

abbrev pub free_entry : CacheEntry → Bool
free_entry c = is_free c.state

abbrev pub get_default : Option ℕ → ℕ → ℕ
get_default none d = d
get_default (some i) d = i

alloc_loop-find_index :
    (id i : ℕ) (oldest : CacheEntry) (caches : List CacheEntry)
    → oldest.timeval ≡ 0
    → alloc_loop id oldest i caches ≡ get_default (find_index free_entry i caches) id
unfolding alloc_loop
alloc_loop-find_index id i oldest [] z = refl
alloc_loop-find_index id i oldest (c ∷ cs) z =
    let old : ltb c.timeval oldest.timeval ≡ false = ground (arith, z) in
    ground (arith, old, alloc_loop-find_index id (suc i) oldest cs z)

-- `cacheAlloc` finds the first free entry, and where there is none, the first entry, whatever its age:
-- no time is before the zero time that `oldest` starts with.
pub cache_alloc-find_index :
    (caches : List CacheEntry) → cache_alloc caches ≡ get_default (find_index free_entry 0 caches) 0
unfolding cache_alloc
cache_alloc-find_index caches = alloc_loop-find_index 0 0 zero_entry caches refl
