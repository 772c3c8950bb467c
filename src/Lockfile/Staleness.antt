-- ===== src/Lockfile/Staleness.antt =====
-- `isStale` on a file that holds a process id.
use orascout.Base.{not, ℕ, ◌≡◌, ◌≢◌, ◌<◌, ◌^◌, refl, true, false, some, arith, ◌==◌}
use orascout.Base.Int.{pos}
use orascout.Strconv.{print_int}
use orascout.Strconv.Numbers.{trim_space-print_int, is_empty-print_int, atoi-print_int}
use orascout.Strings.{trim_space}
use orascout.Host.{done, after, call, signal}
use orascout.Lockfile.{is_stale_text, is_stale_pid}

module _ (p : ℕ) where
  pub is_stale_text-printed :
      (q : ℕ)
      → q < 2 ^ 63
      → is_stale_text p (trim_space (print_int q)) ≡ is_stale_pid p (some (pos q))
  is_stale_text-printed q h =
      rw (trim_space-print_int q, is_empty-print_int q, atoi-print_int q h) refl

  pub is_stale_pid-own : is_stale_pid p (some (pos p)) ≡ done true
  is_stale_pid-own = let same : (p == p) ≡ true = ground arith in rw same refl

  pub is_stale_pid-other :
      (q : ℕ)
      → q ≢ p
      → is_stale_pid p (some (pos q)) ≡ after (call (signal (pos q))) (λ alive. done (not alive))
  is_stale_pid-other q other =
      let different : (q == p) ≡ false = ground (arith, other) in rw different refl
