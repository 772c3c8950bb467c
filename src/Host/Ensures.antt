-- ===== src/Host/Ensures.antt =====
-- All calls of a program and its result, by rules for each way to build a program.
use orascout.Base.{
  List, [], ◌∷◌, ◌≡◌, refl, subst, Bool, true, false, List, if◌then◌else◌, All, Result, ok, err,
}
use orascout.Host.{on_ok, ◌>>=◌, Act, done, ask, after, Call, Reply}
use orascout.Host.Runs.{Event, Runs, stop, next}

-- A property of the value of a program that may return an error.
abbrev pub OkHas : {E A : Type 0} → (A → Type 0) → Result E A → Type 0
OkHas Q (ok a) = Q a
OkHas Q (err e) = Unit

module _ (P : Call → Type 0) (Sane : (c : Call) → Reply c → Type 0) where
  -- Every call has the first property, and every result the second, for replies that it may trust.
  abbrev pub Ensures : {A : Type 0} → (A → Type 0) → Act A → Type 0
  Ensures Q (done a) = Q a
  Ensures Q (ask c k) = P c × ((r : Reply c) → Sane c r → Ensures Q (k r))

  pub Ensures-Runs :
      {A : Type 0} {a : A} (Q : A → Type 0) (m : Act A) {es : List Event}
      → Ensures Q m
      → Runs a m es
      → All (λ e. Sane e.request e.reply) es
      → All (λ e. P e.request) es × Q a
  Ensures-Runs Q (done b) h (stop e) sane = (tt, subst Q e h)
  Ensures-Runs Q (ask c k) h (next r run) sane =
      let (calls, result) = Ensures-Runs Q (k r) (h.1 r sane.0) run sane.1 in ((h.0, calls), result)

  pub Ensures-after :
      {A B : Type 0} (Q : A → Type 0) (R : B → Type 0) (m : Act A) (f : A → Act B)
      → Ensures Q m
      → ((a : A) → Q a → Ensures R (f a))
      → Ensures R (after m f)
  Ensures-after Q R (done a) f h k = k a h
  Ensures-after Q R (ask c g) f h k = (h.0, λ r sane. Ensures-after Q R (g r) f (h.1 r sane) k)

  pub Ensures-if :
      {A : Type 0} (Q : A → Type 0) (b : Bool) (m k : Act A)
      → (b ≡ true → Ensures Q m)
      → (b ≡ false → Ensures Q k)
      → Ensures Q (if b then m else k)
  Ensures-if Q true m k h g = h refl
  Ensures-if Q false m k h g = g refl

-- Weaker properties.
pub Ensures-imp :
    (P P' : Call → Type 0) (Sane : (c : Call) → Reply c → Type 0) {A : Type 0} (Q Q' : A → Type 0)
    → ((c : Call) → P c → P' c)
    → ((a : A) → Q a → Q' a)
    → (m : Act A) → Ensures P Sane Q m
    → Ensures P' Sane Q' m
Ensures-imp P P' Sane Q Q' p q (done a) h = q a h
Ensures-imp P P' Sane Q Q' p q (ask c k) h =
    (p c h.0, λ r sane. Ensures-imp P P' Sane Q Q' p q (k r) (h.1 r sane))

module _ (P : Call → Type 0) (Sane : (c : Call) → Reply c → Type 0) where
  -- A program whose error ends what follows.
  pub Ensures-bind :
      {E A B : Type 0} (Q : A → Type 0) (R : B → Type 0) (m : Act (Result E A))
      (f : A → Act (Result E B))
      → Ensures P Sane (OkHas Q) m
      → ((a : A) → Q a → Ensures P Sane (OkHas R) (f a))
      → Ensures P Sane (OkHas R) (m >>= f)
  Ensures-bind {E} {A} Q R m f h k = Ensures-after P Sane (OkHas Q) (OkHas R) m (on_ok f) h each
    where
      each : (r : Result E A) → OkHas Q r → Ensures P Sane (OkHas R) (on_ok f r)
      each (ok a) q = k a q
      each (err e) q = tt

-- Where no reply is trusted.
abbrev pub AnyReply : (c : Call) → Reply c → Type 0
AnyReply c r = Unit

pub All-AnyReply : (es : List Event) → All (λ e. AnyReply e.request e.reply) es
All-AnyReply [] = tt
All-AnyReply (e ∷ es) = (tt, All-AnyReply es)
