-- ===== src/Arp/Cache.antt =====
-- pkg/arp/cache.go and pkg/arp/timer.go: the cache table. A time is a number that counts from the zero
-- `time.Time`, and `time.Now` is an argument of the operations that read it.
use go_network.Base.{
  ℕ, suc, ◌+◌, List, [], ◌∷◌, replicate, set, ltb, leb, ◌==◌, ◌&&◌, not, Bool, true, false, Option,
  none, some,
}
use go_network.Errors.{Error, cache_out_of_range}
use go_network.Device.EtherAddr.{EtherAddr, ether_addr_any}

abbrev pub cache_size : ℕ
cache_size = 32

pub data CacheState : Type 0 where
  cache_free : CacheState
  cache_imcomplete : CacheState
  cache_resolved : CacheState
  cache_static : CacheState

pub record CacheEntry : Type 0 where
  pub state : CacheState
  pub pa : ℕ
  pub ha : EtherAddr
  pub timeval : ℕ

abbrev pub is_free : CacheState → Bool
is_free cache_free = true
is_free _ = false

abbrev pub is_imcomplete : CacheState → Bool
is_imcomplete cache_imcomplete = true
is_imcomplete _ = false

-- The zero value of `cacheEntry`.
abbrev pub zero_entry : CacheEntry
zero_entry = record { state = cache_free; pa = 0; ha = ether_addr_any; timeval = 0 }

abbrev pub empty_caches : List CacheEntry
empty_caches = replicate cache_size zero_entry

-- The loop of `cacheAlloc` from index i. `oldest` starts as the zero entry.
unfoldable pub alloc_loop : ℕ → CacheEntry → ℕ → List CacheEntry → ℕ
alloc_loop id oldest i [] = id
alloc_loop id oldest i (cache ∷ caches) = elim (is_free cache.state) [
  | true ↦ i
  | false ↦ elim (ltb cache.timeval oldest.timeval) [
    | true ↦ alloc_loop i cache (suc i) caches
    | false ↦ alloc_loop id oldest (suc i) caches
  ]
]

unfoldable pub cache_alloc : List CacheEntry → ℕ
unfolding alloc_loop
cache_alloc caches = alloc_loop 0 zero_entry 0 caches

abbrev pub resolved : ℕ → ℕ → EtherAddr → CacheEntry
resolved now pa ha = record { state = cache_resolved; pa = pa; ha = ha; timeval = now }

unfoldable pub cache_insert : ℕ → ℕ → EtherAddr → List CacheEntry → List CacheEntry
unfolding cache_alloc
cache_insert now pa ha caches = set caches (cache_alloc caches) (resolved now pa ha)

-- An entry in use for a protocol address.
abbrev pub holds : ℕ → CacheEntry → Bool
holds pa cache = not (is_free cache.state) && (cache.pa == pa)

-- The only error is that no entry is found.
unfoldable pub select_loop : ℕ → ℕ → List CacheEntry → Option ℕ
select_loop pa i [] = none
select_loop pa i (cache ∷ caches) = elim (holds pa cache) [
  | true ↦ some i
  | false ↦ select_loop pa (suc i) caches
]

unfoldable pub cache_select : ℕ → List CacheEntry → Option ℕ
unfolding select_loop
cache_select pa caches = select_loop pa 0 caches

unfoldable pub cache_update : ℕ → ℕ → EtherAddr → List CacheEntry → List CacheEntry × Bool
unfolding cache_select
cache_update now pa ha caches = elim (cache_select pa caches) [
  | some id ↦ (set caches id (resolved now pa ha), true)
  | none ↦ (caches, false)
]

-- The index of `cacheDelete` is an int; the code only passes indexes of the table.
unfoldable pub cache_delete : ℕ → List CacheEntry → List CacheEntry × Option Error
cache_delete id caches = elim (leb cache_size id) [
  | true ↦ (caches, some cache_out_of_range)
  | false ↦ (set caches id zero_entry, none)
]

-- 30 seconds in nanoseconds.
abbrev pub cache_timeout : ℕ
cache_timeout = 30000000000

-- The loop of the timer from index i over a copy of the table, as `range` makes it of an array.
unfoldable pub timer_loop : ℕ → ℕ → List CacheEntry → List CacheEntry → List CacheEntry
unfolding cache_delete
timer_loop now i [] caches = caches
timer_loop now i (cache ∷ copy) caches =
    elim (not (is_free cache.state) && ltb (cache.timeval + cache_timeout) now) [
      | true ↦ timer_loop now (suc i) copy (cache_delete i caches).0
      | false ↦ timer_loop now (suc i) copy caches
    ]

-- One round of the timer.
unfoldable pub timer : ℕ → List CacheEntry → List CacheEntry
unfolding timer_loop
timer now caches = timer_loop now 0 caches caches
