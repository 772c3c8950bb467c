-- ===== src/Registry/Tests.antt =====
-- References of the source, and the theorem at one of them.
use orascout.Base.{All, [], false, ◌≡◌, refl, ◌∷◌, ◌++◌, arith, ok, err, codes}
use orascout.Strings.{trim_space, index_suc, last_index_suc}
use orascout.Registry.{split_ref, no_repository, empty_ref}
use orascout.Base.Int.{pos}
use orascout.Config.{Config, parsed_repos}
use orascout.Registry.Configured.{IsFound, parsed_repos-IsFound}
use orascout.Registry.Refs.{split_ref-join}

refs :
    (split_ref (codes " localhost:5000/org/app:v1 ")
      ≡ ok (record { host = codes "localhost:5000"; path = codes "org/app"; tag = codes "v1" }))
    × (split_ref (codes "localhost:5000/app")
        ≡ ok (record { host = codes "localhost:5000"; path = codes "app"; tag = codes "latest" }))
    × (split_ref (codes "app:v1") ≡ err no_repository)
    × (split_ref (codes " ") ≡ err empty_ref)
unfolding split_ref trim_space index_suc last_index_suc codes
refs = (refl, refl, refl, refl)

split_ref-join_example :
    split_ref (codes "h:1" ++ b'/' ∷ codes "o/a" ++ b':' ∷ codes "v1")
    ≡ ok (record { host = codes "h:1"; path = codes "o/a"; tag = codes "v1" })
unfolding trim_space codes
split_ref-join_example =
    split_ref-join (codes "h:1") (codes "o/a") (codes "v1") refl (omega arith) (omega arith)

abbrev cfg : Config
unfolding codes
cfg = record {
  registry_prefix = codes "h:1/org/";
  repos = codes " app:v1 " ∷ codes "web" ∷ [];
  poll_interval = pos 0;
  artifacts_dir = [];
  state_file = [];
  lock_file = [];
  auth = record { username = []; password = []; token = [] };
  logs_push = [];
  log_file = [];
  allowed_target_roots = [];
  insecure = false;
}

parsed_repos-IsFound_example : All (IsFound (codes "h:1") (codes "org/")) (parsed_repos cfg)
unfolding codes parsed_repos trim_space cfg orascout.Strings.trim_suffix orascout.Config.parse_repos
    orascout.Config.parse_repo orascout.Strings.cut
parsed_repos-IsFound_example =
    parsed_repos-IsFound cfg (codes "h:1") (codes "org/") (omega arith) refl
      ((refl, omega arith), ((refl, omega arith), tt))
