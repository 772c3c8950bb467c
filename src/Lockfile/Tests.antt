-- ===== src/Lockfile/Tests.antt =====
-- Two processes on one lock file: a run in which the second one finds the lock held, and one in which
-- it reads the file before the process id stands in it.
use orascout.Base.{
  ◌∷◌, false, true, ◌≡◌, ap, ℕ, zero, suc, ◌<◌, ◌^◌, refl, arith, some, none, List, [], Result, ok,
  err, Bytes, codes,
}
use orascout.Host.{mkdir_all, create_new, read_file, signal, Failure, exists}
use orascout.Strconv.{print_int, print_digits, atoi}
use orascout.Strings.{trim_space}
use orascout.Lockfile.{is_stale, acquire, write_pid}
use orascout.Base.Int.{pos}
use orascout.Paths.{dir}
use orascout.Host.Runs.{Event, Runs}
use orascout.Lockfile.Exclusion.{at_most_one}
use orascout.Lockfile.System.{
  Inode, IsInside, File, System, Moment, Steps, start, step, rounds, initial,
}

abbrev lock : Bytes
unfolding codes
lock = codes "/l/k"

-- Processes 1 and 2 run one round each.
abbrev quota : ℕ → ℕ
quota zero = 0
quota (suc zero) = 1
quota (suc (suc zero)) = 1
quota (suc (suc (suc p))) = 0

quota_small : (p : ℕ) → 0 < quota p → p < 2 ^ 63
quota_small zero h = omega arith
quota_small (suc zero) h = omega arith
quota_small (suc (suc zero)) h = omega arith
quota_small (suc (suc (suc p))) h = elim h [ ]

abbrev reply_ok : Result Failure (Unit {0})
reply_ok = ok tt

abbrev reply_exists : Result Failure (Unit {0})
reply_exists = err exists

abbrev file_of : ℕ → Bytes → File
file_of p text = some (record { owner = p; text = text })

-- Process 1 takes the lock, and process 2 reads its process id, finds it alive and stops.
held : (ms : List Moment) × (s : System) × Steps lock (initial lock quota) ms s
unfolding rounds acquire write_pid is_stale trim_space codes print_int print_digits atoi
held = (
  _,
  _,
  step 2 _ _ true (file_of 1 (print_int 1))
      (step 2 _ _ (ok (print_int 1)) (file_of 1 (print_int 1))
        (step 2 _ _ reply_exists (file_of 1 (print_int 1))
          (step 2 _ _ reply_ok (file_of 1 (print_int 1))
            (step 1 _ _ reply_ok (file_of 1 (print_int 1))
              (step 1 _ _ reply_ok (file_of 1 []) (step 1 _ _ reply_ok none start refl refl) refl
                (refl, refl, refl))
              refl (refl, refl))
            refl refl)
          refl refl)
        refl (refl, _, refl, refl, refl))
      refl refl,
)

first_inode : {i j : Inode} → ◌≡◌ {A = File} (some i) (some j) → i ≡ j
first_inode e = cc e

at_most_one_example : ◌≡◌ {A = ℕ} 1 1
unfolding held
at_most_one_example =
    at_most_one lock quota quota_small held.2
      (
        (λ q h e. refl),
        ((λ i e. ap (λ x. print_int x.owner) (first_inode e)), (tt, (tt, (tt, (tt, (tt, tt)))))),
      )
      1 1 (_, refl) (_, refl)

-- Process 2 reads the file that process 1 made before the process id is written to it, takes it for
-- stale, removes it and makes its own: both are inside.
raced :
    (ms : List Moment) × (s : System) × Steps lock (initial lock quota) ms s
    × IsInside s 1
    × IsInside s 2
unfolding rounds acquire write_pid is_stale trim_space codes print_int print_digits atoi
raced = (
  _,
  _,
  step 1 _ _ reply_ok (file_of 2 (print_int 2))
      (step 2 _ _ reply_ok (file_of 2 (print_int 2))
        (step 2 _ _ reply_ok (file_of 2 [])
          (step 2 _ _ reply_ok none
            (step 2 _ _ (ok []) (file_of 1 [])
              (step 2 _ _ reply_exists (file_of 1 [])
                (step 2 _ _ reply_ok (file_of 1 [])
                  (step 1 _ _ reply_ok (file_of 1 []) (step 1 _ _ reply_ok none start refl refl)
                    refl (refl, refl, refl))
                  refl refl)
                refl refl)
              refl (refl, _, refl, refl, refl))
            refl (refl, refl))
          refl (refl, refl, refl))
        refl (refl, refl))
      refl (refl, refl),
  (_, refl),
  (_, refl),
)

-- The lock file that a process with the id 3 left.
abbrev left_file : File
left_file = file_of 3 (print_int 3)

abbrev after_crash : System
after_crash = record { file = left_file; programs = (initial lock quota).programs }

-- Both processes find that process 3 is dead, and the second one removes the file that the first one
-- made instead: both are inside.
reclaimed :
    (ms : List Moment) × (s : System) × Steps lock after_crash ms s × IsInside s 1 × IsInside s 2
unfolding rounds acquire write_pid is_stale trim_space codes print_int print_digits atoi
reclaimed = (
  _,
  _,
  (step 2 _ _ reply_ok (file_of 2 (print_int 2))
      (step 2 _ _ reply_ok (file_of 2 [])
        (step 2 _ _ reply_ok none
          (step 1 _ _ reply_ok (file_of 1 (print_int 1))
            (step 1 _ _ reply_ok (file_of 1 [])
              (step 1 _ _ reply_ok none
                (step 2 _ _ false left_file
                  (step 2 _ _ (ok (print_int 3)) left_file
                    (step 2 _ _ reply_exists left_file
                      (step 2 _ _ reply_ok left_file
                        (step 1 _ _ false left_file
                          (step 1 _ _ (ok (print_int 3)) left_file
                            (step 1 _ _ reply_exists left_file
                              (step 1 _ _ reply_ok left_file start refl refl) refl refl)
                            refl (refl, _, refl, refl, refl))
                          refl refl)
                        refl refl)
                      refl refl)
                    refl (refl, _, refl, refl, refl))
                  refl refl)
                refl (refl, refl))
              refl (refl, refl, refl))
            refl (refl, refl))
          refl (refl, refl))
        refl (refl, refl, refl))
      refl (refl, refl)),
  (_, refl),
  (_, refl),
)

abbrev looked : List Event
looked =
    record { request = mkdir_all (dir lock) 493; reply = ok tt }
    ∷ record { request = create_new lock; reply = err exists }
    ∷ record { request = read_file lock; reply = ok (print_int 1) }
    ∷ record { request = signal (pos 1); reply = true }
    ∷ []
