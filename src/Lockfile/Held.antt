-- ===== src/Lockfile/Held.antt =====
-- Taking a lock that a living process holds.
use orascout.Base.{ℕ, ◌≡◌, ◌≢◌, ◌<◌, ◌^◌, Bool, true, List, All, ok, err, Bytes}
use orascout.Base.Int.{pos}
use orascout.Strconv.{print_int}
use orascout.Host.{Act, Call, Reply, exists, after, ◌>>=◌, mkdir_all, create_new, read_file, signal}
use orascout.Host.Runs.{Event, Runs}
use orascout.Lockfile.{Lock, Try, reclaim, succeed}

-- The replies while a living process holds the lock: its file is there and holds its process id.
abbrev pub IsHeldBy : ℕ → (c : Call) → Reply c → Type 0
IsHeldBy q (mkdir_all p mode) r = r ≡ ok tt
IsHeldBy q (create_new p) r = r ≡ err exists
IsHeldBy q (read_file p) r = r ≡ ok (print_int q)
IsHeldBy q (signal pid) r = (pid ≡ pos q) → r ≡ true
IsHeldBy q c r = Unit

abbrev pub Calm : ℕ → List Event → Type 0
Calm q = All (λ e. IsHeldBy q e.request e.reply)

module _ (self q : ℕ) (path : Bytes) (other : q ≢ self) (small : q < 2 ^ 63) where
  -- The rest of the attempt, once the file is read.
  abbrev judged : Act Bool → Try Lock
  judged m = after m succeed >>= reclaim self path
