-- ===== src/Metrics/Shell.antt =====
-- The commands that server/internal/web/static/js/dashboard/metrics/collect.js runs on a host: `shQuote`,
-- `runServiceAction`, `readCrontab` and `writeCrontab`. What a host answers to a
-- script is an argument; the timer of `runScript` is not modelled.
pub mod Quoting
pub mod Actions
use connexia.Common.{
  ℕ, zero, suc, Bool, true, false, not, ◌&&◌, ◌||◌, Option, none, some, List, [], ◌∷◌, ◌++◌, map,
  Text, codes, same, includes, any, trim, split, join, take, drop, length, ltb, leb, ◌==◌, is_space,
  if◌then◌else◌, filter, ◌+◌,
}

-- `'` is written as `'\''`.
abbrev quote : ℕ
quote = 39

unfoldable pub escape_quotes : Text → Text
escape_quotes [] = []
escape_quotes (c ∷ cs) =
    if c == quote then quote ∷ 92 ∷ quote ∷ quote ∷ escape_quotes cs else c ∷ escape_quotes cs

unfoldable pub sh_quote : Text → Text
sh_quote value = quote ∷ (escape_quotes value ++ quote ∷ [])

-- The exit status, or that the host gave none, which `handle.run` tells by -1.
pub data Code : Type 0 where
  exited : ℕ → Code
  missing : Code

pub record Output : Type 0 where
  pub code : Code
  pub stdout : Text
  pub stderr : Text

-- `result.code > 0`
abbrev pub failed : Output → Bool
failed o = elim o.code [ exited status ↦ ltb 0 status | missing ↦ false ]

-- `text.toLowerCase()` on the letters that the patterns below have.
abbrev pub to_lower : ℕ → ℕ
to_lower c = if leb 65 c && leb c 90 then c + 32 else c

-- `/a|b|.../i.test(text)` for patterns that are plain words.
unfoldable pub mentions : List Text → Text → Bool
mentions words text = any (λ word. includes (map to_lower text) word) words

abbrev pub or_text : Text → Text → Text
or_text [] b = b
or_text (c ∷ cs) b = c ∷ cs

abbrev pub actions : List Text
actions = codes "start" ∷ codes "stop" ∷ codes "restart" ∷ codes "enable" ∷ codes "disable" ∷ []

abbrev pub denied : List Text
denied =
    codes "authentication required"
    ∷ codes "access denied"
    ∷ codes "permission denied"
    ∷ codes "not permitted"
    ∷ []

unfoldable pub action_command : Text → Text → Text
action_command unit action =
    codes "systemctl " ++ (action ++ (32 ∷ (sh_quote unit ++ codes " --no-pager 2>&1")))

-- A here-document that the shell does not expand.
unfoldable pub here_document : Text → Text → Text → Text
here_document command mark body =
    command ++ (codes " <<'" ++ (mark ++ (codes "'\n" ++ (body ++ (10 ∷ mark)))))

abbrev pub sudo_mark : Text
sudo_mark = codes "CONNEXIA_SUDO_EOF"

unfoldable pub sudo_command : Text → Text → Text
sudo_command password command = here_document (codes "sudo -S -p '' " ++ command) sudo_mark password

-- The scripts that were run, and the error that is returned, or thrown where none was run.
pub record Action : Type 0 where
  pub scripts : List Text
  pub error : Option Text

abbrev pub action_error : Text → Output → Option Text
action_error action o =
    if failed o
    then some (or_text (trim o.stdout) (codes "systemctl " ++ (action ++ codes " failed")))
    else none

-- An action that is allowed: with a password, a first attempt that is denied is made again by `sudo`.
unfoldable pub run_allowed : (Text → Output) → Text → Text → Option Text → Action
run_allowed run command action none = record {
  scripts = command ∷ [];
  error = action_error action (run command);
}
run_allowed run command action (some password) =
    let again = sudo_command password command in
    if failed (run command) && mentions denied (trim (run command).stdout)
    then record { scripts = command ∷ again ∷ []; error = action_error action (run again) }
    else record { scripts = command ∷ []; error = action_error action (run command) }

unfoldable pub run_service_action : (Text → Output) → Text → Text → Option Text → Action
run_service_action run unit action sudo_password =
    if any (same action) actions
    then run_allowed run (action_command unit action) action sudo_password
    else record { scripts = []; error = some (codes "Unknown action") }

pub read_crontab : (Text → Output) → Text
read_crontab run =
    let o = run (codes "crontab -l 2>&1") in
    if mentions (codes "no crontab for" ∷ []) o.stdout then [] else o.stdout

abbrev pub crontab_mark : Text
crontab_mark = codes "CONNEXIA_CRONTAB_EOF"

unfoldable pub crontab_script : Text → Text
crontab_script body = here_document (codes "crontab - 2>&1") crontab_mark body

pub write_crontab : (Text → Output) → Text → Option Text
write_crontab run body =
    let o = run (crontab_script body) in
    let err = trim o.stderr in
    let all = trim (o.stdout ++ o.stderr) in
    if failed o
    then some (or_text err (or_text all (codes "crontab write failed")))
    else if same err [] && not (same all [])
    then some all
    else none
