-- ===== src/Host/Splits.antt =====
-- A run of one program after another is a run of the first and then one of the second.
use orascout.Base.{
  inr, inl, false, ◌⊎◌, true, if◌then◌else◌, Bool, ◌≡◌, refl, sym, ap, ◌∙◌, subst, List, [], ◌∷◌,
  append-nil, ◌++◌, Result, ok, err,
}
use orascout.Host.{Act, done, ask, after, on_ok, ◌>>=◌, Call, Reply}
use orascout.Host.Runs.{Event, Runs, stop, next}

-- Where the events of a run are divided.
pub record Split {A B : Type 0} (b : B) (m : Act A) (f : A → Act B) (es : List Event) : Type 0 where
  pub middle : A
  pub before : List Event
  pub rest : List Event
  pub joined : es ≡ before ++ rest
  pub first : Runs middle m before
  pub second : Runs b (f middle) rest

next-Split :
    {A B : Type 0} {b : B} {c : Call} {k : Reply c → Act A} {f : A → Act B} {es : List Event}
    (r : Reply c)
    → Split b (k r) f es
    → Split b (ask c k) f (record { request = c; reply = r } ∷ es)
next-Split {c = c} r s = record {
  middle = s.middle;
  before = record { request = c; reply = r } ∷ s.before;
  rest = s.rest;
  joined = ap (◌∷◌ (record { request = c; reply = r })) s.joined;
  first = next r s.first;
  second = s.second;
}

pub Runs-Split :
    {A B : Type 0} {b : B} (m : Act A) (f : A → Act B) {es : List Event}
    → Runs b (after m f) es
    → Split b m f es
Runs-Split (done a) f {es} run = record {
  middle = a;
  before = [];
  rest = es;
  joined = refl;
  first = stop refl;
  second = run;
}
Runs-Split (ask c k) f (next r run) = next-Split r (Runs-Split (k r) f run)

-- The same for programs that may return an error.
pub data SplitOk {E A B : Type 0} (b : Result E B) (m : Act (Result E A)) (f : A → Act (Result E B))
    (es : List Event) : Type 0 where
  failing : (e : E) → b ≡ err e → Runs (err e) m es → SplitOk b m f es
  going :
      (a : A) (before rest : List Event)
      → es ≡ before ++ rest
      → Runs (ok a) m before
      → Runs b (f a) rest
      → SplitOk b m f es

split_on :
    {E A B : Type 0} {b : Result E B} (m : Act (Result E A)) (f : A → Act (Result E B))
    {es : List Event} (middle : Result E A) (before rest : List Event)
    → es ≡ before ++ rest
    → Runs middle m before
    → Runs b (on_ok f middle) rest
    → SplitOk b m f es
split_on m f (ok a) before rest e first second = going a before rest e first second
split_on {b = b} m f (err x) before rest e first (stop same) =
    failing x (sym same) (subst (Runs (err x) m) (sym (e ∙ append-nil before)) first)

pub split_ok :
    {E A B : Type 0} {b : Result E B} (m : Act (Result E A)) (f : A → Act (Result E B))
    {es : List Event}
    → Runs b (m >>= f) es
    → SplitOk b m f es
split_ok m f run =
    let s = Runs-Split m (on_ok f) run in
    split_on m f s.middle s.before s.rest s.joined s.first s.second

pub done_runs : {A : Type 0} {a b : A} {es : List Event} → Runs b (done a) es → (a ≡ b) × (es ≡ [])
done_runs (stop e) = (e, refl)

-- A run of a conditional program is one of the branch that its test takes.
pub if_runs :
    {A : Type 0} {a : A} (b : Bool) (m k : Act A) {es : List Event}
    → Runs a (if b then m else k) es
    → ((b ≡ true) × Runs a m es) ⊎ ((b ≡ false) × Runs a k es)
if_runs true m k run = inl (refl, run)
if_runs false m k run = inr (refl, run)
