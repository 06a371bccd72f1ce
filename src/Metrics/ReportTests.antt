-- ===== src/Metrics/ReportTests.antt =====
-- Runs of the scripts and of the reading of reports, and the theorems about them at concrete inputs.
use connexia.Common.{
  ◌≡◌, refl, arith, true, false, none, some, List, [], ◌∷◌, ◌++◌, map, Text, codes, same, any, All,
  split, is_space, trim, includes, starts_with, is_digit, join,
}
use connexia.Metrics.Shell.{
  Output, exited, sh_quote, crontab_script, run_service_action, run_allowed, action_command,
  escape_quotes, mentions, sudo_command, here_document,
}
use connexia.Metrics.Shell.Quoting.{
  bare, sh_word, sh_word-sh_quote, crontab_input, quoted_mark, crontab_input-crontab_script,
  here_lines,
}
use connexia.Metrics.Shell.Actions.{IsSound, run_service_action-IsSound}
use connexia.Metrics.Sections.{Sections, body_of, parse_sections, header_name, tokens, split_spaces}
use connexia.Metrics.Sections.Reading.{
  IsPlain, IsLine, print_lines, print_sections, lines_under, parse_sections-print_sections,
}
use connexia.Common.{cut, parse_int, decimal}
use connexia.Metrics.Reports.{
  unique_by, port_at, digits_at_end, is_int, quoted_process, slashed_process, ports_of, port_key,
  collect, port_of, run_of, is_digits,
}
use connexia.Metrics.Inventory.{
  logins_of, sys_info, list_service_units, entries_of, entry_of, active_login, past_login,
  split_gaps, service_of,
}
use connexia.Metrics.Reports.Listening.{IsDistinct, ports_of-IsDistinct}

sh_word-sh_quote_example :
    sh_word bare [] (sh_quote (codes "it's; reboot") ++ codes " --now")
    ≡ some (codes "it's; reboot", codes " --now")
sh_word-sh_quote_example = sh_word-sh_quote (codes "it's; reboot") (codes "--now")

abbrev two_jobs : Text
two_jobs = codes "0 1 * * * a\n5 * * * * b"

crontab_input-crontab_script_example :
    crontab_input (crontab_script two_jobs) ≡ some (codes "crontab - 2>&1", split 10 two_jobs)
unfolding split same
crontab_input-crontab_script_example = crontab_input-crontab_script two_jobs (refl, (refl, tt))

-- A line that is the mark ends the body there, and the shell runs what follows it.
crontab_input_ends :
    crontab_input (crontab_script (codes "a\nCONNEXIA_CRONTAB_EOF\nreboot"))
    ≡ some (codes "crontab - 2>&1", codes "a" ∷ [])
unfolding quoted_mark cut starts_with sh_word crontab_input crontab_script split here_document
    here_lines same
crontab_input_ends = refl

-- A host that wants a password for the first script only.
abbrev wants_sudo : Text → Output
wants_sudo [] = record { code = exited 1; stdout = []; stderr = [] }
wants_sudo (c ∷ cs) = elim (same (c ∷ cs) (codes "systemctl stop 'a' --no-pager 2>&1")) [
  | true ↦ record { code = exited 1; stdout = codes "Access denied\n"; stderr = [] }
  | false ↦ record { code = exited 0; stdout = []; stderr = [] }
]

run_service_action_runs :
    (run_service_action wants_sudo (codes "a") (codes "stop") (some (codes "p"))).error ≡ none
unfolding run_service_action same run_allowed action_command sh_quote escape_quotes mentions
    includes trim sudo_command here_document
run_service_action_runs = refl

run_service_action-IsSound_example :
    IsSound wants_sudo (run_service_action wants_sudo (codes "a") (codes "stop") (some (codes "p")))
run_service_action-IsSound_example =
    run_service_action-IsSound wants_sudo (codes "a") (codes "stop") (some (codes "p"))

abbrev two_sections : List (Text × List Text)
two_sections = (codes "UPT", codes "12 3" ∷ []) ∷ (codes "PRC", codes "7" ∷ []) ∷ []

two_sections-IsPlain : All IsPlain two_sections
unfolding IsPlain IsLine header_name
two_sections-IsPlain = ground arith

parse_sections-print_sections_example :
    body_of (codes "PRC") (parse_sections (print_sections two_sections))
    ≡ print_lines (lines_under (codes "PRC") two_sections)
parse_sections-print_sections_example =
    parse_sections-print_sections two_sections (codes "PRC") two_sections-IsPlain

abbrev listening : Sections
listening =
    (
      codes "PRT",
      codes
          "tcp LISTEN 0 128 0.0.0.0:22 0.0.0.0:* users:((\"sshd\",pid=1,fd=3))\ntcp LISTEN 0 128 [::]:22 [::]:* users:((\"sshd\",pid=1,fd=4))",
    )
    ∷ (codes "SYS", codes "HOSTNAME=a\nCORES=4\nPRETTY_NAME=\"Debian 12\"\n")
    ∷ (codes "LOG", codes "ada pts/0 today")
    ∷ (codes "LST", codes "ada  pts/0   10.0.0.1\nreboot  system")
    ∷ []

ports_of_reads : map port_key (ports_of listening) ≡ codes "tcp:22:sshd" ∷ []
unfolding ports_of port_key unique_by split body_of same port_of starts_with trim includes tokens
    split_spaces port_at parse_int digits_at_end is_int is_digits decimal quoted_process is_digit
    cut is_space run_of slashed_process
ports_of_reads = refl

sys_info_reads :
    sys_info listening
    ≡ some record {
      hostname = codes "a";
      kernel = [];
      arch = [];
      pretty_name = codes "Debian 12";
      cpu_model = [];
      cores = codes "4";
    }
unfolding sys_info entries_of split body_of same entry_of run_of trim starts_with is_digits is_digit
sys_info_reads = refl

logins_of_reads :
    logins_of listening
    ≡ record { user = codes "ada"; detail = codes "pts/0  today"; active = true }
      ∷ record { user = codes "ada"; detail = codes "pts/0 | 10.0.0.1"; active = false }
      ∷ []
unfolding logins_of split trim body_of same active_login tokens split_spaces starts_with join
    past_login includes split_gaps
logins_of_reads = refl

list_service_units_reads :
    list_service_units (codes "● a.service loaded failed failed The A service\n")
    ≡ record {
      unit = codes "a.service";
      active = codes "failed";
      sub = codes "failed";
      description = codes "The A service";
    }
      ∷ []
unfolding list_service_units split trim service_of split_spaces run_of join
list_service_units_reads = refl

ports_of-IsDistinct_example :
    IsDistinct (map port_key (ports_of listening))
    × (any (same (codes "tcp:22:sshd")) (map port_key (ports_of listening))
        ≡ any
            (same (codes "tcp:22:sshd"))
            (map port_key (collect port_of (split 10 (body_of (codes "PRT") listening)))))
ports_of-IsDistinct_example = ports_of-IsDistinct listening (codes "tcp:22:sshd")
