-- ===== src/Sftp/Tests.antt =====
-- Runs of the panes and of the transfers, and the theorems about them at concrete inputs.
use connexia.Common.{◌≡◌, refl, Bool, true, false, none, List, [], ◌∷◌, Text, codes}
use connexia.Ssh.Slots.{remove_at}
use connexia.Sftp.Sides.{right_side, connect_remote, begin_connect, reset_side, client_opened, fail}
use connexia.Sftp.Sides.Step.{
  Event, connect_event, opened_event, failed_event, step, run, empty_screen,
}
use connexia.Sftp.Sides.Step.Accounted.{IsAccounted, run-IsAccounted}
use connexia.Sftp.Transfers.{
  Round, Script, committed, removed, read_all, finish_file, download, upload_file, copy_between,
}
use connexia.Sftp.Transfers.Whole.{IsSent, upload_file-copy_between}

abbrev any_order : Text → Text → Bool
any_order a b = true

-- The connection 7 is open when its `sftp()` fails.
abbrev lost_connection : List Event
lost_connection =
    connect_event true right_side 3 ∷ opened_event 0 7 ∷ failed_event 0 (codes "no subsystem") ∷ []

lost_connection_abandoned : (run any_order lost_connection empty_screen).abandoned ≡ 7 ∷ []
unfolding run step connect_remote begin_connect reset_side client_opened fail remove_at
lost_connection_abandoned = refl

lost_connection_open : (run any_order lost_connection empty_screen).closed ≡ []
unfolding run step connect_remote begin_connect reset_side client_opened fail remove_at
lost_connection_open = refl

run-IsAccounted_example : IsAccounted (run any_order lost_connection empty_screen)
run-IsAccounted_example = run-IsAccounted any_order lost_connection

abbrev two_rounds : List Round
two_rounds =
    record { bytes = 1 ∷ 2 ∷ []; canceled = false; failure = none }
    ∷ record { bytes = 3 ∷ []; canceled = false; failure = none }
    ∷ []

abbrev smooth : Script
smooth = record {
  open_source = none;
  early = false;
  open_target = none;
  rounds = two_rounds;
  last = none;
  late = false;
  opening = false;
  create_writable = none;
  close_target = none;
}

abbrev stopped : Script
stopped = record smooth { rounds = record { bytes = 1 ∷ []; canceled = true; failure = none } ∷ [] }

smooth_runs : (download (codes "d ") true smooth).target ≡ committed (1 ∷ 2 ∷ 3 ∷ [])
unfolding download finish_file read_all
smooth_runs = refl

stopped_runs : download (codes "d ") true stopped ≡ record { target = removed; shown = none }
unfolding download finish_file read_all
stopped_runs = refl

upload_file-copy_between_example :
    IsSent smooth (upload_file (codes "u ") true smooth)
    × IsSent smooth (copy_between (codes "u ") smooth)
upload_file-copy_between_example = upload_file-copy_between (codes "u ") true smooth
