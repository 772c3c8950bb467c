-- ===== src/Deploy/Command/Quoting.antt =====
-- Any tokens can be written as a command: single quotes keep what stands between them.
use orascout.Base.{
  ℕ, ◌≡◌, refl, ap, ◌∙◌, ◌≢◌, true, false, List, [], ◌∷◌, append-nil, append_assoc, ◌++◌, arith,
  All, ok, Bytes,
}
use orascout.Deploy.Command.{Splitter, step, run, start, parse_shell_command}

-- Each token in single quotes, with a space behind it.
abbrev pub quoted : List Bytes → Bytes
quoted [] = []
quoted (t ∷ ts) = b'\'' ∷ (t ++ (b'\'' ∷ b' ' ∷ quoted ts))

-- A token that can be quoted so: it is not empty, and holds no single quote.
pub record IsToken (t : Bytes) : Type 0 where
  pub ne_nil : t ≢ []
  pub no_quote : All (λ c. c ≢ b'\'') t

step-in_single :
    (p : Splitter) (c : ℕ)
    → c ≢ b'\''
    → p.in_single ≡ true
    → p.in_double ≡ false
    → step p c ≡ record p { cur = p.cur ++ c ∷ [] }
unfolding step
step-in_single p c h s d = ground arith

run-in_single :
    (t rest : Bytes) (p : Splitter)
    → All (λ c. c ≢ b'\'') t
    → p.in_single ≡ true
    → p.in_double ≡ false
    → run p (t ++ rest) ≡ run (record p { cur = p.cur ++ t }) rest
unfolding run
run-in_single [] rest p h s d = rw append-nil
run-in_single (c ∷ t) rest p h s d =
    ap (λ q. run q (t ++ rest)) (step-in_single p c h.0 s d)
    ∙ run-in_single t rest (record p { cur = p.cur ++ c ∷ [] }) h.1 s d
    ∙ rw (append_assoc p.cur (c ∷ []) t)

run-quoted :
    (ts : List Bytes) (out : List Bytes)
    → All IsToken ts
    → run (record start { out = out }) (quoted ts) ≡ record start { out = out ++ ts }
unfolding run
run-quoted [] out h = rw append-nil
run-quoted ([] ∷ ts) out h = absurd (h.0.ne_nil refl)
run-quoted ((c ∷ t) ∷ ts) out h =
    run-in_single (c ∷ t) _ (record start { out = out; in_single = true }) h.0.no_quote refl refl
    ∙ run-quoted ts (out ++ (c ∷ t) ∷ []) h.1
    ∙ rw (append_assoc out ((c ∷ t) ∷ []) ts)

-- Non-empty tokens with no single quote in them, each in single quotes and followed by a space,
-- are split into these tokens, whatever spaces and double quotes they hold.
pub parse_shell_command-quoted :
    (ts : List Bytes) → All IsToken ts → parse_shell_command (quoted ts) ≡ ok ts
unfolding parse_shell_command
parse_shell_command-quoted ts h = rw (run-quoted ts [] h)
