-- ===== src/Queue.antt =====
-- backend/app/queue.py: the in-flight lock, the rate limits, the login lockout, the cached
-- percentiles and the alert cooldowns, each a few Redis commands at a time `now` in seconds.
pub mod Lock
pub mod Limits
use Prim.Native.String.{String}
use shikomi.Prelude.{
  ℕ, ◌+◌, ◌-◌, ◌/◌, Bool, true, false, ◌||◌, ◌==◌, ltb, leb, Option, none, some, if◌then◌else◌,
}
use shikomi.Services.Redis.{
  Redis, Key, inflight, ratelimit, authfail, authlock, alert, percentile, Entry,
}

abbrev pub inflight_ttl_seconds : ℕ
inflight_ttl_seconds = 120

abbrev pub percentile_cache_ttl_seconds : ℕ
percentile_cache_ttl_seconds = 30

abbrev pub value_or : ℕ → Option Entry → ℕ
value_or d none = d
value_or d (some e) = e.value

abbrev pub holds : ℕ → Option Entry → Bool
holds owner none = false
holds owner (some e) = e.value == owner

-- `TTL == -1`: the key is there and has no expiry
abbrev pub never_expires : Option Entry → Bool
never_expires none = false
never_expires (some e) = elim e.expires [ none ↦ true | some t ↦ false ]

-- `TTL` when it is positive, else 0
abbrev pub remaining : ℕ → Option Entry → ℕ
remaining now none = 0
remaining now (some e) = elim e.expires [ none ↦ 0 | some t ↦ t - now ]

module _ (redis : Redis) where
  open redis use {Store, entry, set_ex, set_nx_ex, delete, incr, expire}

  -- the script `_RELEASE_IF_OWNER`
  unfoldable pub release_if_owner : ℕ → Key → ℕ → Store → Bool × Store
  release_if_owner now k owner s =
      if holds owner (entry s now k) then (true, delete now k s) else (false, s)

  -- the script `_INCR_WITH_TTL`
  unfoldable pub incr_with_ttl : ℕ → Key → ℕ → Store → ℕ × Store
  incr_with_ttl now k ttl s =
      let s' = incr now k s in
      let count = value_or 0 (entry s' now k) in
      (count, if count == 1 || never_expires (entry s' now k) then expire now k ttl s' else s')

  unfoldable pub acquire_inflight : ℕ → ℕ → ℕ → ℕ → Store → Bool × Store
  acquire_inflight now user problem owner s =
      set_nx_ex now (inflight user problem) owner inflight_ttl_seconds s

  unfoldable pub release_inflight : ℕ → ℕ → ℕ → ℕ → Store → Bool × Store
  unfolding release_if_owner
  release_inflight now user problem owner s = release_if_owner now (inflight user problem) owner s

  unfoldable pub within_rate_limit : ℕ → ℕ → String → ℕ → Store → Bool × Store
  unfolding incr_with_ttl
  within_rate_limit now user action limit s =
      let (count, s') = incr_with_ttl now (ratelimit action user (now / 60)) 60 s in
      (leb count limit, s')

  module _ (lower : String → String) where
    unfoldable pub incr_login_failures : ℕ → String → ℕ → Store → ℕ × Store
    unfolding incr_with_ttl
    incr_login_failures now email window s = incr_with_ttl now (authfail (lower email)) window s

    unfoldable pub set_login_lock : ℕ → String → ℕ → Store → Store
    set_login_lock now email seconds s = set_ex now (authlock (lower email)) 1 seconds s

    unfoldable pub get_login_lock : ℕ → String → Store → ℕ
    get_login_lock now email s = remaining now (entry s now (authlock (lower email)))

    unfoldable pub clear_login_failures : ℕ → String → Store → Store
    clear_login_failures now email s =
        delete now (authlock (lower email)) (delete now (authfail (lower email)) s)

  unfoldable pub get_cached_percentile : ℕ → ℕ → String → ℕ → Store → Option ℕ
  get_cached_percentile now problem language runtime s =
      elim (entry s now (percentile problem language runtime)) [
        | none ↦ none
        | some e ↦ some e.value
      ]

  unfoldable pub set_cached_percentile : ℕ → ℕ → String → ℕ → ℕ → Store → Store
  set_cached_percentile now problem language runtime value s =
      set_ex now (percentile problem language runtime) value percentile_cache_ttl_seconds s

  unfoldable pub claim_alert : ℕ → String → ℕ → Store → Bool × Store
  claim_alert now name cooldown s = set_nx_ex now (alert name) 1 cooldown s

  unfoldable pub release_alert : ℕ → String → Store → Store
  release_alert now name s = delete now (alert name) s
