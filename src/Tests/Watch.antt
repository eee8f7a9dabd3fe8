-- ===== src/Tests/Watch.antt =====
-- A stale queue whose alert mail fails, and a problem of two-second cases.
use shikomi.Prelude.{◌≡◌, true, false, not, ◌&&◌, none, some, leb, arith}
use shikomi.Budget.{
  fits_job_timeout, max_cases_within_job_timeout, fits_job_timeout-max_cases_within_job_timeout,
}
use shikomi.Watchdog.{check_accounts_queue, cooling, is_healthy, check_accounts_queue-cooldown}
use shikomi.Tests.Instances.{cache, Cache}

abbrev quiet : Cache
quiet k = none

fits_job_timeout-max_cases_within_job_timeout_example :
    fits_job_timeout 139 2000 2000 ≡ leb 139 (max_cases_within_job_timeout 2000 2000)
fits_job_timeout-max_cases_within_job_timeout_example =
    fits_job_timeout-max_cases_within_job_timeout 139 2000 2000 (omega arith) (omega arith)

check_accounts_queue-cooldown_example :
    let after = check_accounts_queue cache 300 3600 50 (some 400) true false quiet in
    (after.0 ≡ (not (is_healthy 300 (some 400)) && not (cooling cache 300 3600 50 quiet)))
    × ((is_healthy 300 (some 400) ≡ true → cooling cache 300 3600 50 after.1 ≡ false)
        × ((after.0 ≡ true
              → true ≡ true
              → false ≡ false
              → cooling cache 300 3600 50 after.1 ≡ false)
            × (is_healthy 300 (some 400) ≡ false
                → cooling cache 300 3600 50 quiet ≡ true
                → cooling cache 300 3600 50 after.1 ≡ true)))
check_accounts_queue-cooldown_example =
    check_accounts_queue-cooldown cache 300 3600 50 (some 400) true false quiet
