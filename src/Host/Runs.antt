-- ===== src/Host/Runs.antt =====
-- Executions, and the rules by which all calls of a program are seen to have a property.
use orascout.Base.{if◌then◌else◌, Bool, true, false, Bool, ◌≡◌, List, [], ◌∷◌, All, Result, ok, err}
use orascout.Paths.Elements.{IsName}
use orascout.Host.{Call, read_dir, walk, Reply, Act, done, ask, after, on_ok, ◌>>=◌, ◌>>◌}

-- A call with the reply that it got.
pub record Event : Type 0 where
  pub request : Call
  pub reply : Reply request

-- The program makes these calls, gets these replies, and ends with the result.
pub data Runs {A : Type 0} (a : A) : Act A → List Event → Type 0 where
  stop : {b : A} → b ≡ a → Runs a (done b) []
  next :
      {c : Call} {k : Reply c → Act A} {es : List Event} (r : Reply c)
      → Runs a (k r) es
      → Runs a (ask c k) (record { request = c; reply = r } ∷ es)

-- The calls that were made.
abbrev pub requests : List Event → List Call
requests [] = []
requests (e ∷ es) = e.request ∷ requests es

-- What a host's reply is trusted for: the entries of a directory have names.
abbrev pub IsSane : (c : Call) → Reply c → Type 0
IsSane (read_dir p) (ok names) = All IsName names
IsSane (walk p) visits = All (λ v. All IsName v.names) visits
IsSane _ _ = Unit

module _ (P : Call → Type 0) where
  -- Every call that the program can make, as long as it gets sane replies, has the property.
  abbrev pub Calls : {A : Type 0} → Act A → Type 0
  Calls (done a) = Unit
  Calls (ask c k) = P c × ((r : Reply c) → IsSane c r → Calls (k r))

  pub Calls-Runs :
      {A : Type 0} {a : A} (m : Act A) {es : List Event}
      → Calls m
      → Runs a m es
      → All (λ e. IsSane e.request e.reply) es
      → All (λ e. P e.request) es
  Calls-Runs (done b) h (stop e) sane = tt
  Calls-Runs (ask c k) h (next r run) sane = (h.0, Calls-Runs (k r) (h.1 r sane.0) run sane.1)

  pub Calls-after :
      {A B : Type 0} (m : Act A) (f : A → Act B)
      → Calls m
      → ((a : A) → Calls (f a))
      → Calls (after m f)
  Calls-after (done a) f h k = k a
  Calls-after (ask c g) f h k = (h.0, λ r sane. Calls-after (g r) f (h.1 r sane) k)

  pub Calls-on_ok :
      {E A B : Type 0} (f : A → Act (Result E B)) (r : Result E A)
      → ((a : A) → Calls (f a))
      → Calls (on_ok f r)
  Calls-on_ok f (ok a) k = k a
  Calls-on_ok f (err e) k = tt

  pub Calls-bind :
      {E A B : Type 0} (m : Act (Result E A)) (f : A → Act (Result E B))
      → Calls m
      → ((a : A) → Calls (f a))
      → Calls (m >>= f)
  Calls-bind m f h k = Calls-after m (on_ok f) h (λ r. Calls-on_ok f r k)

  pub Calls-then :
      {E B : Type 0} (m : Act (Result E (Unit {0}))) (k : Act (Result E B))
      → Calls m
      → Calls k
      → Calls (m >> k)
  Calls-then m k h g = Calls-bind m (λ _. k) h (λ _. g)

  pub Calls-if :
      {A : Type 0} (b : Bool) (m k : Act A) → Calls m → Calls k → Calls (if b then m else k)
  Calls-if true m k h g = h
  Calls-if false m k h g = g

-- A weaker property.
pub Calls-imp :
    (P P' : Call → Type 0) {A : Type 0}
    → ((c : Call) → P c → P' c)
    → (m : Act A) → Calls P m
    → Calls P' m
Calls-imp P P' f (done a) h = tt
Calls-imp P P' f (ask c k) h = (f c h.0, λ r sane. Calls-imp P P' f (k r) (h.1 r sane))
