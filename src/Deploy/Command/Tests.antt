-- ===== src/Deploy/Command/Tests.antt =====
-- Runs of the splitter, and its theorem at concrete tokens.
use orascout.Base.{◌≡◌, refl, List, [], ◌∷◌, arith, All, ok, err, Bytes, codes}
use orascout.Strings.{replace_all}
use orascout.Deploy.Command.{parse_shell_command, apply_template, unterminated_quote}
use orascout.Deploy.Command.Quoting.{IsToken, quoted, parse_shell_command-quoted}

commands :
    (parse_shell_command (codes "java -jar  '{file}'")
      ≡ ok (codes "java" ∷ codes "-jar" ∷ codes "{file}" ∷ []))
    × (parse_shell_command (codes "a 'b c") ≡ err unterminated_quote)
    × (parse_shell_command (codes "x\"y z\"'' ''") ≡ ok (codes "xy z" ∷ []))
unfolding parse_shell_command codes
commands = (refl, refl, refl)

templates : apply_template (codes "-f={file}" ∷ []) (codes "/a") ≡ codes "-f=/a" ∷ []
unfolding apply_template replace_all codes
templates = refl

abbrev tokens : List Bytes
unfolding codes
tokens = codes "sh" ∷ codes "say \"hi\"" ∷ []

tokens-IsToken : All IsToken tokens
unfolding codes
tokens-IsToken = (
  record { ne_nil = λ e. cc e; no_quote = omega arith },
  (record { ne_nil = λ e. cc e; no_quote = omega arith }, tt),
)

parse_shell_command-quoted_example : parse_shell_command (quoted tokens) ≡ ok tokens
parse_shell_command-quoted_example = parse_shell_command-quoted tokens tokens-IsToken
