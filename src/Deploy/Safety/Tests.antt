-- ===== src/Deploy/Safety/Tests.antt =====
-- The cases of the source's tests, and the theorems at concrete paths.
use orascout.Base.{false, ◌≢◌, ◌≤◌, ◌≡◌, refl, List, [], ◌∷◌, length, All, ok, err, Bytes, codes}
use orascout.Paths.{clean, elements, is_abs}
use orascout.Strings.{has_prefix, contains, trim_space, trim_byte, split}
use orascout.Deploy.Safety.{
  Check, empty_target, traversal, not_absolute, protected_path, protected_subtree, outside_roots,
  too_shallow, escapes, validate_target_path, validate_clear_path, guard_clear_dir, depth,
  secure_path_join,
}
use orascout.Paths.{join}
use orascout.Deploy.Safety.Denylist.{IsDirectory}
use orascout.Deploy.Safety.Target.{IsTarget, validate_target_path_iff}
use orascout.Deploy.Safety.Clear.{validate_clear_path_iff}
use orascout.Deploy.Safety.Artifact.{secure_path_join_iff}
use orascout.Paths.Inside.{Inside}

abbrev roots : List Bytes
unfolding codes
roots = codes "/var/www/html" ∷ codes "/opt/tomcat/instances" ∷ []

target : Bytes → List Bytes → Check
unfolding validate_target_path trim_space contains clean has_prefix codes
target = validate_target_path

denied :
    (target (codes "/") [] ≡ err protected_path)
    × (target (codes "/etc/cron.d/evil") [] ≡ err protected_subtree)
    × (target (codes "/var/www/.//") [] ≡ err protected_path)
    × (target (codes "/usr/bin/sudo") [] ≡ err protected_subtree)
    × (target (codes "relative/path") [] ≡ err not_absolute)
    × (target (codes "/opt/app/../../etc/passwd") [] ≡ err traversal)
    × (target (codes " ") [] ≡ err empty_target)
unfolding target
denied = (refl, refl, refl, refl, refl, refl, refl)

accepted :
    (target (codes "/var/www/html/site") [] ≡ ok tt)
    × (target (codes "/usr/local/bin/mytool") [] ≡ ok tt)
    × (target (codes "/data/deployments") [] ≡ ok tt)
unfolding target
accepted = (refl, refl, refl)

-- The prefixes are those of the list, not of a pattern, and dots are refused within a name as well.
literal :
    (target (codes "/usr/libx32/x/y") [] ≡ ok tt)
    × (target (codes "/opt/app..1/x.jar") [] ≡ err traversal)
unfolding target
literal = (refl, refl)

allowlist :
    (target (codes "/var/www/html/Bar-UI/index.html") roots ≡ ok tt)
    × (target (codes "/var/www/htmlevil") roots ≡ err outside_roots)
    × (target (codes "/opt/tomcat/instancesX") roots ≡ err outside_roots)
unfolding target
allowlist = (refl, refl, refl)

clears :
    (validate_clear_path (codes "/data") [] ≡ err too_shallow)
    × (validate_clear_path (codes "/data/site/") [] ≡ ok tt)
    × (guard_clear_dir (ok (codes "/etc")) ≡ err protected_path)
unfolding target validate_clear_path guard_clear_dir depth trim_byte split
clears = (refl, refl, refl)

joins :
    (secure_path_join (codes "/a/b") (codes "x/./y") ≡ ok (codes "/a/b/x/y"))
    × (secure_path_join (codes "/a/b") (codes "../c") ≡ err escapes)
    × (secure_path_join (codes "/a/b") (codes "../bc") ≡ err escapes)
unfolding target secure_path_join join
joins = (refl, refl, refl)

roots-IsDirectory : All IsDirectory roots
unfolding codes clean
roots-IsDirectory = (
  record { absolute = refl; stable = refl; not_root = λ e. cc e },
  (record { absolute = refl; stable = refl; not_root = λ e. cc e }, tt),
)

validate_target_path_iff_example : IsTarget (codes "/var/www/html/Bar-UI/index.html") roots
unfolding target
validate_target_path_iff_example =
    (validate_target_path_iff (codes "/var/www/html/Bar-UI/index.html") roots roots-IsDirectory).0
      allowlist.0

validate_clear_path_iff_example :
    IsTarget (codes "/data/site/") [] × (2 ≤ length (elements (codes "/data/site/")))
validate_clear_path_iff_example = (validate_clear_path_iff (codes "/data/site/") [] tt).0 clears.1

secure_path_join_iff_example :
    (trim_space (codes "x/./y") ≢ [])
    × (is_abs (codes "x/./y") ≡ false)
    × (join (clean (codes "/a/b")) (codes "x/./y") ≡ codes "/a/b/x/y")
    × Inside (elements (codes "/a/b")) (elements (codes "/a/b/x/y"))
unfolding codes clean
secure_path_join_iff_example =
    (secure_path_join_iff (codes "/a/b") refl (λ e. cc e) (codes "x/./y") (codes "/a/b/x/y")).0
      joins.0
