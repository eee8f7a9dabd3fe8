-- ===== src/Queue/Limits.antt =====
-- The fixed-window counters: how many calls of one minute pass.
use Prim.Native.String.{String}
use shikomi.Prelude.{
  ℕ, ◌+◌, ◌*◌, ◌/◌, ◌-◌, ◌≤◌, ◌<◌, ◌≡◌, ◌⊎◌, inl, inr, refl, Bool, List, [], ◌∷◌, none, some, arith,
  leb, count_if, length, min, ap, ap₂,
}
use shikomi.Services.Redis.{Redis, Key, inflight, ratelimit, key_eq_refl}
use shikomi.Queue.{within_rate_limit, incr_with_ttl}

module _ (redis : Redis) (user : ℕ) (action : String) (limit : ℕ) where
  open redis use {Store, entry}

  -- Calls at the given times, with their results.
  unfoldable pub limit_run : List ℕ → Store → List Bool
  limit_run [] s = []
  limit_run (t ∷ ts) s =
      (within_rate_limit redis t user action limit s).0
      ∷ limit_run ts (within_rate_limit redis t user action limit s).1

-- Times in order from `now` on, in the minute `bucket`.
abbrev pub InMinute : ℕ → ℕ → List ℕ → Type 0
InMinute bucket now [] = Unit
InMinute bucket now (t ∷ ts) = (now ≤ t) × (t / 60 ≡ bucket) × InMinute bucket t ts

-- The calls that pass when `count` went before.
abbrev pub first_ones : ℕ → ℕ → List ℕ → List Bool
first_ones limit count [] = []
first_ones limit count (t ∷ ts) = leb (count + 1) limit ∷ first_ones limit (count + 1) ts

abbrev pub passed : List Bool → ℕ
passed = count_if (λ b. b)

passed-first_ones :
    (limit count : ℕ) (ts : List ℕ)
    → passed (first_ones limit count ts) ≡ min (limit - count) (length ts)
passed-first_ones limit count [] = omega arith
passed-first_ones limit count (t ∷ ts) = ground (arith, passed-first_ones limit (count + 1) ts)

module _ (redis : Redis) where
  open redis use {Store, entry}

  -- A counter that is missing, or that will outlive its minute.
  abbrev Counter : ℕ → ℕ → ℕ → ℕ → String → Store → Type 0
  Counter bucket now count user action s =
      ((count ≡ 0) × (entry s now (ratelimit action user bucket) ≡ none))
      ⊎ ((e : ℕ) × (0 < count)
          × (bucket * 60 + 59 < e)
          × (entry s now (ratelimit action user bucket)
              ≡ some (record { value = count; expires = some e })))

  -- One counted call: the next count, and a counter that outlives the minute.
  incr_with_ttl-counter :
      (t count e ttl : ℕ) (k : Key) (s : Store)
      → ((count ≡ 0) × (entry s t k ≡ none) × (e ≡ t + ttl))
        ⊎ ((0 < count) × (entry s t k ≡ some (record { value = count; expires = some e })))
      → t < e
      → ((incr_with_ttl redis t k ttl s).0 ≡ count + 1)
        × (entry (incr_with_ttl redis t k ttl s).1 t k
            ≡ some (record { value = count + 1; expires = some e }))
  unfolding incr_with_ttl
  incr_with_ttl-counter t count e ttl k s h lt = ground (
    arith,
    key_eq_refl k,
    redis.entry-incr s t k k,
    redis.entry-expire (redis.incr t k s) t ttl k k,
  )

  -- Counting a request touches no in-flight lock.
  pub entry-within_rate_limit :
      (now user limit u p : ℕ) (action : String) (s : Store)
      → entry (within_rate_limit redis now user action limit s).1 now (inflight u p)
        ≡ entry s now (inflight u p)
  unfolding within_rate_limit
  entry-within_rate_limit now user limit u p action s =
      let k : Key = ratelimit action user (now / 60) in
      ground (
        arith,
        redis.entry-incr s now k (inflight u p),
        redis.entry-expire (redis.incr now k s) now 60 k (inflight u p),
      )

  -- One call in the minute: it passes if it is among the first `limit`, and is counted.
  within_rate_limit-Counter :
      (bucket now t count user limit : ℕ) (action : String) (s : Store)
      → now ≤ t
      → t / 60 ≡ bucket
      → Counter bucket now count user action s
      → ((within_rate_limit redis t user action limit s).0 ≡ leb (count + 1) limit)
        × Counter bucket t (count + 1) user action (within_rate_limit redis t user action limit s).1
  unfolding within_rate_limit
  within_rate_limit-Counter bucket now t count user limit action s le b (inl (z, h)) =
      let k : Key = ratelimit action user bucket in
      let p =
        incr_with_ttl-counter t count (t + 60) 60 k s
          (inl (z, rw (redis.entry-later s now t k le, h) refl, refl)) (omega arith) in
      rw b (ap (λ n. leb n limit) p.0, inr (t + 60, omega arith, omega arith, p.1))
  within_rate_limit-Counter bucket now t count user limit action s le b (inr (e, pos, far, h)) =
      let k : Key = ratelimit action user bucket in
      let lt : t < e = omega arith in
      let p =
        incr_with_ttl-counter t count e 60 k s
          (inr (pos, rw (redis.entry-later s now t k le, h) (ground arith))) lt in
      rw b (ap (λ n. leb n limit) p.0, inr (e, omega arith, far, p.1))

  limit_run-Counter :
      (bucket now count user limit : ℕ) (action : String) (ts : List ℕ) (s : Store)
      → Counter bucket now count user action s
      → InMinute bucket now ts
      → limit_run redis user action limit ts s ≡ first_ones limit count ts
  unfolding limit_run
  limit_run-Counter bucket now count user limit action [] s c m = refl
  limit_run-Counter bucket now count user limit action (t ∷ ts) s c (le, b, m) =
      let p = within_rate_limit-Counter bucket now t count user limit action s le b c in
      ap₂ ◌∷◌ p.0 (
        limit_run-Counter bucket t (count + 1) user limit action ts
          (within_rate_limit redis t user action limit s).1 p.1 m)

  -- Of the calls of one minute that no call of that minute preceded, exactly the first `limit` pass.
  pub limit_run-fresh :
      (bucket now user limit : ℕ) (action : String) (ts : List ℕ) (s : Store)
      → entry s now (ratelimit action user bucket) ≡ none
      → InMinute bucket now ts
      → (limit_run redis user action limit ts s ≡ first_ones limit 0 ts)
        × (passed (limit_run redis user action limit ts s) ≡ min limit (length ts))
  limit_run-fresh bucket now user limit action ts s h m =
      let e = limit_run-Counter bucket now 0 user limit action ts s (inl (refl, h)) m in
      (e, rw e (omega (arith, passed-first_ones limit 0 ts)))
