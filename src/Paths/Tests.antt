-- ===== src/Paths/Tests.antt =====
-- Runs of the path functions on the examples of Go's documentation.
use orascout.Base.{◌≡◌, refl, codes}
use orascout.Paths.{clean, dir, join, base}

cleans :
    (clean (codes "a//b/../c/.") ≡ codes "a/c")
    × (clean (codes "/../a/./b/../c/") ≡ codes "/a/c")
    × (clean (codes "../../x/..") ≡ codes "../..")
    × (clean (codes "") ≡ codes ".")
    × (clean (codes "//") ≡ codes "/")
unfolding clean codes
cleans = (refl, refl, refl, refl, refl)

dirs :
    (dir (codes "/a/b/") ≡ codes "/a/b")
    × (dir (codes "/a/b") ≡ codes "/a")
    × (dir (codes "/a") ≡ codes "/")
    × (dir (codes "a") ≡ codes ".")
unfolding dir codes
dirs = (refl, refl, refl, refl)

joins :
    (join (codes "/a/b") (codes "../../etc") ≡ codes "/etc")
    × (join (codes "") (codes "x/") ≡ codes "x")
    × (join (codes "/a/") (codes "") ≡ codes "/a")
unfolding join codes
joins = (refl, refl, refl)

bases :
    (base (codes "/var/log/o.log") ≡ codes "o.log")
    × (base (codes "a//") ≡ codes "a")
    × (base (codes "//") ≡ codes "/")
    × (base (codes "") ≡ codes ".")
unfolding base codes
bases = (refl, refl, refl, refl)
