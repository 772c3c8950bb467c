-- ===== src/Deploy/Command.antt =====
-- internal/deploy/fsutil.go: the splitter for `runonce.command`, and its template.
pub mod Quoting
pub mod Tests
use orascout.Base.{
  ℕ, Bool, false, not, ◌&&◌, ◌||◌, List, [], ◌∷◌, ◌++◌, map, ◌==◌, if◌then◌else◌, Result, ok, err,
  Bytes, codes,
}
use orascout.Strings.{replace_all}

-- The variables of the loop.
pub record Splitter : Type 0 where
  pub out : List Bytes
  pub cur : Bytes
  pub in_single : Bool
  pub in_double : Bool

abbrev pub emit : List Bytes → Bytes → List Bytes
emit out [] = out
emit out (c ∷ cur) = out ++ (c ∷ cur) ∷ []

-- The body of the loop, at one byte.
unfoldable pub step : Splitter → ℕ → Splitter
step p c =
    if c == b'\'' && not p.in_double
    then record p { in_single = not p.in_single }
    else if c == b'"' && not p.in_single
    then record p { in_double = not p.in_double }
    else if c == b' ' && not p.in_single && not p.in_double
    then record p { out = emit p.out p.cur; cur = [] }
    else record p { cur = p.cur ++ c ∷ [] }

unfoldable pub run : Splitter → Bytes → Splitter
unfolding step
run p [] = p
run p (c ∷ s) = run (step p c) s

pub data CommandError : Type 0 where
  unterminated_quote : CommandError

abbrev pub finish : Splitter → Result CommandError (List Bytes)
finish p = if p.in_single || p.in_double then err unterminated_quote else ok (emit p.out p.cur)

abbrev pub start : Splitter
start = record { out = []; cur = []; in_single = false; in_double = false }

-- `parseShellCommand(s)`
unfoldable pub parse_shell_command : Bytes → Result CommandError (List Bytes)
unfolding run
parse_shell_command s = finish (run start s)

abbrev pub placeholder : Bytes
unfolding codes
placeholder = codes "{file}"

-- `applyTemplate(tokens, file)`
unfoldable pub apply_template : List Bytes → Bytes → List Bytes
apply_template tokens file = map (λ t. replace_all t placeholder file) tokens
