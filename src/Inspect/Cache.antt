-- ===== src/Inspect/Cache.antt =====
-- portable/home-stack/admin/main.go, `launchdServices`: the cache of what launchd said, in the course of
-- the requests that read it. Times are nanoseconds since some start.
use home_stack.Prelude.{
  ℕ, ◌+◌, ◌-◌, ◌<◌, arith, Bool, true, false, ◌&&◌, ◌≡◌, ◌⊎◌, inl, inr, refl, List, [], ◌∷◌, Memᴰ,
  ltb, if◌then◌else◌, Result, ok, err, Bool-cases, Outcome-cases,
}
use home_stack.Health.{LaunchdService}

-- `launchdCache`, where no services and no cache are the same nil slice, and `launchdCacheAt`.
pub record Cache : Type 0 where
  pub services : List LaunchdService
  pub at : ℕ

abbrev pub is_filled : List LaunchdService → Bool
is_filled [] = false
is_filled (l ∷ ls) = true

-- 30 seconds.
abbrev pub lifetime : ℕ
lifetime = 30000000000

-- One request for the services: the times when it reads the clock, before and after it asks launchd, and
-- the outcome of finding the bundle and asking.
pub record Query (E : Type 0) : Type 0 where
  pub asked : ℕ
  pub done : ℕ
  pub collected : Result E (List LaunchdService)

module _ {E : Type 0} where
  unfoldable pub launchd_services : Query E → Cache → Result E (List LaunchdService) × Cache
  launchd_services q cache =
      if ltb (q.asked - cache.at) lifetime && is_filled cache.services
      then (ok cache.services, cache)
      else elim q.collected [
        | err e ↦ (err e, cache)
        | ok services ↦ (ok services, record { services = services; at = q.done })
      ]

  -- The cache after some queries, which hold the lock one after the other, the last at the head.
  unfoldable pub cache_after : List (Query E) → Cache
  cache_after [] = record { services = []; at = 0 }
  cache_after (q ∷ earlier) = (launchd_services q (cache_after earlier)).1

  -- The services were collected by one of the queries, and have been in the cache since.
  abbrev IsFrom : List (Query E) → Cache → Type 0
  IsFrom qs cache =
      (cache.services ≡ [])
      ⊎ ((p : Query E) × Memᴰ p qs × (p.collected ≡ ok cache.services) × (p.done ≡ cache.at))

  later-IsFrom :
      (q : Query E) (qs : List (Query E)) (cache : Cache) → IsFrom qs cache → IsFrom (q ∷ qs) cache
  later-IsFrom q qs cache (inl none_yet) = inl none_yet
  later-IsFrom q qs cache (inr (p, there, collected, since)) =
      inr (p, Memᴰ.tail there, collected, since)

  query-IsFrom :
      (q : Query E) (qs : List (Query E)) (cache : Cache)
      → IsFrom qs cache
      → IsFrom (q ∷ qs) (launchd_services q cache).1
  unfolding launchd_services
  query-IsFrom q qs cache from =
      elim (Bool-cases (ltb (q.asked - cache.at) lifetime && is_filled cache.services)) [
        | inl fresh ↦ simp fresh (later-IsFrom q qs cache from)
        | inr old ↦ elim (Outcome-cases q.collected) [
          | inl (services, found) ↦ simp (old, found) (inr (q, Memᴰ.head refl, found, refl))
          | inr (e, failed) ↦ simp (old, failed) (later-IsFrom q qs cache from)
        ]
      ]

  cache_after-IsFrom : (qs : List (Query E)) → IsFrom qs (cache_after qs)
  unfolding cache_after
  cache_after-IsFrom [] = inl refl
  cache_after-IsFrom (q ∷ qs) = query-IsFrom q qs (cache_after qs) (cache_after-IsFrom qs)

  -- What an answer rests on: its own query, or one that ended less than the lifetime before it asked.
  abbrev pub IsFresh : Query E → List (Query E) → Result E (List LaunchdService) → Type 0
  IsFresh q earlier (err e) = q.collected ≡ err e
  IsFresh q earlier (ok services) =
      (q.collected ≡ ok services)
      ⊎ ((p : Query E) × Memᴰ p earlier
          × (p.collected ≡ ok services)
          × (q.asked < p.done + lifetime))

  filled-IsFresh :
      (q : Query E) (qs : List (Query E)) (cache : Cache)
      → IsFrom qs cache
      → ltb (q.asked - cache.at) lifetime && is_filled cache.services ≡ true
      → IsFresh q qs (ok cache.services)
  filled-IsFresh q qs cache (inl none_yet) fresh = absurd (ground (arith, rw none_yet at fresh))
  filled-IsFresh q qs cache (inr (p, there, collected, since)) fresh =
      inr (p, there, collected, rw since (ground arith))

  -- Whatever requests came before, in whatever order and with whatever outcomes, the services that a
  -- request is answered with are those that launchd gave to this request, or to one that had them less
  -- than 30 seconds before this one asked; and it fails only where asking launchd fails for it.
  pub launchd_services-IsFresh :
      (q : Query E) (earlier : List (Query E))
      → IsFresh q earlier (launchd_services q (cache_after earlier)).0
  unfolding launchd_services
  launchd_services-IsFresh q earlier =
      let cache = cache_after earlier in
      elim (Bool-cases (ltb (q.asked - cache.at) lifetime && is_filled cache.services)) [
        | inl fresh ↦ simp fresh (filled-IsFresh q earlier cache (cache_after-IsFrom earlier) fresh)
        | inr old ↦ elim (Outcome-cases q.collected) [
          | inl (services, found) ↦ simp (old, found) (inl refl)
          | inr (e, failed) ↦ simp (old, failed) refl
        ]
      ]
