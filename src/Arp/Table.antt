-- ===== src/Arp/Table.antt =====
-- The cache table of pkg/arp: it keeps its size, and holds a protocol address in at most one entry.
use go_network.Base.{
  Bool-cases, ℕ, suc, ◌+◌, ◌-◌, ◌≡◌, ◌≤◌, ◌<◌, refl, sym, ap, ◌∙◌, arith, List, [], ◌∷◌, set,
  get_or, length, length-set, map, not, ltb, ◌&&◌, none, some, true, false, ◌⊎◌, inl, inr,
  Option-cases,
}
use go_network.Device.EtherAddr.{EtherAddr}
use go_network.Arp.Cache.{
  CacheEntry, zero_entry, cache_size, is_free, holds, resolved, cache_timeout, cache_alloc,
  cache_insert, cache_select, cache_delete, timer_loop, timer,
}
use go_network.Arp.Search.{
  find_index, count, one_if, count-set, find_index-none, find_index-some, cache_select-find_index,
  cache_alloc-find_index, free_entry, get_default,
}

pub record IsTable (caches : List CacheEntry) : Type 0 where
  pub size : length caches ≡ cache_size
  pub single : (pa : ℕ) → count (holds pa) caches ≤ 1

-- The entry at the index may be overwritten by one for the address: it holds it, or none does.
unfoldable pub Writable : ℕ → ℕ → List CacheEntry → Type 0
Writable i pa caches =
    (i < length caches)
    × ((holds pa (get_or caches i zero_entry) ≡ true) ⊎ (count (holds pa) caches ≡ 0))

holds_other : (pa q : ℕ) (c : CacheEntry) → c.pa ≡ pa → (holds q c ≡ true) → q ≡ pa
holds_other pa q c e h = ground arith

set-single :
    (caches : List CacheEntry) (i pa q : ℕ) (v : CacheEntry)
    → IsTable caches
    → Writable i pa caches
    → v.pa ≡ pa
    → count (holds q) (set caches i v) ≤ 1
unfolding Writable
set-single caches i pa q v t (k, w) e =
    let c = count-set (holds q) caches i v zero_entry k in
    let s = t.single q in
    elim (Bool-cases (holds q v)) [
      | inl hit ↦
          let z : q ≡ pa = holds_other pa q v e hit in
          let one : one_if (holds q v) ≡ 1 = ap one_if hit in
          elim w [
            | inl held ↦
                let f : holds q (get_or caches i zero_entry) ≡ true =
                  ap (λ x. holds x (get_or caches i zero_entry)) z ∙ held in
                let old : one_if (holds q (get_or caches i zero_entry)) ≡ 1 = ap one_if f in
                omega (arith, c, s, one, old)
            | inr absent ↦
                let f : count (holds q) caches ≡ 0 = ap (λ x. count (holds x) caches) z ∙ absent in
                omega (arith, c, f, one)
          ]
      | inr miss ↦
          let zero_one : one_if (holds q v) ≡ 0 = ap one_if miss in omega (arith, c, s, zero_one)
    ]

-- Writing an entry for an address where it may stand keeps the table.
pub set-IsTable :
    (caches : List CacheEntry) (i pa : ℕ) (v : CacheEntry)
    → IsTable caches
    → Writable i pa caches
    → v.pa ≡ pa
    → IsTable (set caches i v)
set-IsTable caches i pa v t w e = record {
  size = length-set caches i v ∙ t.size;
  single = λ q. set-single caches i pa q v t w e;
}

-- What `cacheSelect` finds.
pub cache_select-Writable :
    (pa i : ℕ) (caches : List CacheEntry)
    → cache_select pa caches ≡ some i
    → (i < length caches) × (holds pa (get_or caches i zero_entry) ≡ true)
cache_select-Writable pa i caches h =
    let (a, b, c) =
      find_index-some (holds pa) 0 caches zero_entry i
        (sym (cache_select-find_index pa caches) ∙ h) in
    let z : i - 0 ≡ i = omega arith in
    (omega (arith, b), ap (λ (k : ℕ). holds pa (get_or caches k zero_entry)) (sym z) ∙ c)

pub cache_alloc-bound :
    (caches : List CacheEntry) → 0 < length caches → cache_alloc caches < length caches
cache_alloc-bound caches h = elim (Option-cases (find_index free_entry 0 caches)) [
  | inl nowhere ↦
      let e : cache_alloc caches ≡ 0 =
        cache_alloc-find_index caches ∙ ap (λ o. get_default o 0) nowhere in
      omega (arith, e, h)
  | inr (i, there) ↦
      let e : cache_alloc caches ≡ i =
        cache_alloc-find_index caches ∙ ap (λ o. get_default o 0) there in
      let (a, b, c) = find_index-some free_entry 0 caches zero_entry i there in
      omega (arith, a, b, e)
]

-- An address that `cacheSelect` does not find may be put where `cacheAlloc` says.
pub cache_alloc-Writable :
    (pa : ℕ) (caches : List CacheEntry)
    → IsTable caches
    → cache_select pa caches ≡ none
    → Writable (cache_alloc caches) pa caches
unfolding Writable
cache_alloc-Writable pa caches t h = (
  cache_alloc-bound caches (let e = t.size in omega (arith, e)),
  inr (find_index-none (holds pa) 0 caches (sym (cache_select-find_index pa caches) ∙ h)),
)

pub cache_insert-IsTable :
    (now pa : ℕ) (ha : EtherAddr) (caches : List CacheEntry)
    → IsTable caches
    → cache_select pa caches ≡ none
    → IsTable (cache_insert now pa ha caches)
unfolding cache_insert
cache_insert-IsTable now pa ha caches t h =
    set-IsTable caches _ pa (resolved now pa ha) t (cache_alloc-Writable pa caches t h) refl

-- An entry after a round of the timer: free if it is older than 30 seconds.
unfoldable pub expire : ℕ → CacheEntry → CacheEntry
expire now c = elim (not (is_free c.state) && ltb (c.timeval + cache_timeout) now) [
  | true ↦ zero_entry
  | false ↦ c
]

timer_loop-shift :
    (now i : ℕ) (copy : List CacheEntry) (x : CacheEntry) (xs : List CacheEntry)
    → suc i + length copy ≤ cache_size
    → timer_loop now (suc i) copy (x ∷ xs) ≡ x ∷ timer_loop now i copy xs
unfolding timer_loop cache_delete
timer_loop-shift now i [] x xs h = refl
timer_loop-shift now i (c ∷ copy) x xs h = ground (
  arith,
  timer_loop-shift now (suc i) copy x (set xs i zero_entry) (omega (arith, h)),
  timer_loop-shift now (suc i) copy x xs (omega (arith, h)),
)

timer_loop-map :
    (now : ℕ) (caches : List CacheEntry)
    → length caches ≤ cache_size
    → timer_loop now 0 caches caches ≡ map (expire now) caches
unfolding timer_loop cache_delete expire
timer_loop-map now [] h = refl
timer_loop-map now (c ∷ caches) h = ground (
  arith,
  timer_loop-shift now 0 caches zero_entry caches (omega (arith, h)),
  timer_loop-shift now 0 caches c caches (omega (arith, h)),
  timer_loop-map now caches (omega (arith, h)),
)

-- A round of the timer frees the entries in use that are older than 30 seconds, and no other.
pub timer-map :
    (now : ℕ) (caches : List CacheEntry)
    → length caches ≤ cache_size
    → timer now caches ≡ map (expire now) caches
unfolding timer
timer-map now caches h = timer_loop-map now caches h

count-expire :
    (now pa : ℕ) (caches : List CacheEntry)
    → (count (holds pa) (map (expire now) caches) ≤ count (holds pa) caches)
      × (length (map (expire now) caches) ≡ length caches)
unfolding expire
count-expire now pa [] = (omega arith, refl)
count-expire now pa (c ∷ caches) = ground (arith, count-expire now pa caches)

pub timer-IsTable :
    (now : ℕ) (caches : List CacheEntry) → IsTable caches → IsTable (timer now caches)
timer-IsTable now caches t =
    let e = t.size in
    let k : length caches ≤ cache_size = omega (arith, e) in
    rw (timer-map now caches k) (record {
      size = (count-expire now 0 caches).1 ∙ t.size;
      single = λ pa.
          let c = (count-expire now pa caches).0 in let s = t.single pa in omega (arith, c, s);
    })
