-- ===== src/Sftp/Transfers.antt =====
-- The transfers of server/internal/web/static/js/dashboard/screens/sftp.js: `beginTransfer` to `cancelTransfer`,
-- `uploadFile`, `download` and `copyBetween`. What the files and the connections answer is a script: a
-- list of rounds, each with whether the user has cancelled by then. `readAll` is that of
-- server/webssh/main.go. The views are not modelled.
pub mod Whole
use connexia.Common.{
  ℕ, zero, suc, ◌+◌, ◌-◌, min, Bool, true, false, not, ◌&&◌, ◌||◌, Option, none, some, List, [],
  ◌∷◌, ◌++◌, Text, codes, ltb, ◌==◌, if◌then◌else◌, filter,
}

-- `progress` is the number of bytes out of `total`. A task has a number in place of its identity.
pub record Task : Type 0 where
  pub number : ℕ
  pub name : Text
  pub message : Text
  pub total : ℕ
  pub progress : ℕ
  pub canceled : Bool
  pub last_tick : ℕ

unfoldable pub begin_transfer : ℕ → Text → Text → ℕ → List Task → List Task
begin_transfer number name message total tasks =
    tasks
    ++ record {
      number = number;
      name = name;
      message = message;
      total = total;
      progress = 0;
      canceled = false;
      last_tick = 0;
    }
      ∷ []

-- At most one change of the view in 200 milliseconds.
unfoldable pub update_transfer : ℕ → ℕ → Task → Task
update_transfer now bytes t =
    if t.total == 0 || ltb (now - t.last_tick) 200
    then t
    else record t { last_tick = now; progress = min t.total bytes }

abbrev pub is_task : ℕ → Task → Bool
is_task number t = t.number == number

unfoldable pub end_transfer : ℕ → List Task → List Task
end_transfer number tasks = filter (λ t. not (is_task number t)) tasks

-- One chunk that a source gives, and what the target answers to it.
pub record Round : Type 0 where
  pub bytes : List ℕ
  pub canceled : Bool
  pub failure : Option Text

-- How the rounds of a source end: they fail or not, and the user has cancelled or not.
pub record Ending : Type 0 where
  pub written : List ℕ
  pub failure : Option Text
  pub canceled : Bool

-- `readAll` with a callback that writes: it fails where the callback returns `false` or the write fails. `last`
-- is what reading fails with behind the last chunk, and `late` whether the user cancels by then.
unfoldable pub read_all : List Round → Option Text → Bool → List ℕ → Ending
read_all [] last late written = record { written = written; failure = last; canceled = late }
read_all (r ∷ rs) last late written =
    let rest = read_all rs last late (written ++ r.bytes) in
    if r.canceled
    then record { written = written; failure = some (codes "cancelled"); canceled = true }
    else elim r.failure [
      | none ↦ rest
      | some message ↦ record { written = written; failure = some message; canceled = false }
    ]

-- `showError` of an error, unless the user has cancelled.
abbrev pub shown_error : Text → Bool → Text → Option Text
shown_error what canceled message =
    if canceled then none else some (what ++ (codes "failed: " ++ message))

-- What becomes of the file that a download writes. `getFileHandle` makes it if it is not there, so a
-- file that is `unwritten` is empty, or as it was before.
pub data Target : Type 0 where
  untouched unwritten removed : Target
  committed : List ℕ → Target

pub record Download : Type 0 where
  pub target : Target
  pub shown : Option Text

-- What the calls around the rounds answer: an error of opening the source or the target, whether the
-- user cancels in between, an error behind the last chunk, and an error of closing the target; for a
-- download also one of `createWritable`, behind `getFileHandle`.
pub record Script : Type 0 where
  pub open_source : Option Text
  pub early : Bool
  pub open_target : Option Text
  pub rounds : List Round
  pub last : Option Text
  pub late : Bool
  -- The user has cancelled by the time that opening the target fails.
  pub opening : Bool
  pub create_writable : Option Text
  pub close_target : Option Text

abbrev pub read_script : Script → Ending
read_script c = read_all c.rounds c.last c.late []

-- The `catch` of `download` with the file open: `abort` throws away what was written, and the file
-- is removed after a cancel.
abbrev pub undo : Bool → Target
undo canceled = if canceled then removed else unwritten

-- Behind `readAll`, into a file of the opened folder.
unfoldable pub finish_file : Text → Option Text → Ending → Download
finish_file what close_target e = elim e.failure [
  | some message ↦ record { target = undo e.canceled; shown = shown_error what e.canceled message }
  | none ↦ elim close_target [
    | some message ↦ record {
      target = undo e.canceled;
      shown = shown_error what e.canceled message;
    }
    | none ↦ record { target = committed e.written; shown = none }
  ]
]

-- Behind `readAll`, into a blob, which `saveBlob` saves whole.
unfoldable pub finish_blob : Text → Ending → Download
finish_blob what e = elim e.failure [
  | some message ↦ record { target = untouched; shown = shown_error what e.canceled message }
  | none ↦ record { target = committed e.written; shown = none }
]

-- `download`, into the opened folder if there is one.
unfoldable pub download : Text → Bool → Script → Download
download what has_folder c = elim c.open_source [
  | some message ↦ record { target = untouched; shown = shown_error what c.early message }
  | none ↦
      if c.early
      then record { target = untouched; shown = none }
      else if has_folder
      then elim c.open_target [
        | some message ↦ record { target = untouched; shown = shown_error what c.opening message }
        | none ↦ elim c.create_writable [
          | some message ↦ record { target = unwritten; shown = shown_error what c.opening message }
          | none ↦ finish_file what c.close_target (read_script c)
        ]
      ]
      else finish_blob what (read_script c)
]

-- What a transfer to a host leaves there, if it opens the file at all. `listed` says that the
-- listings are loaded again.
pub record Sent : Type 0 where
  pub remote : Option (List ℕ)
  pub shown : Option Text
  pub listed : Bool

-- Behind the rounds of `uploadFile` and `copyBetween`. `here` says that the pane still shows the
-- directory.
unfoldable pub finish_remote : Text → Option Text → Bool → Ending → Sent
finish_remote what close_target here e = elim e.failure [
  | some message ↦ record {
    remote = some e.written;
    shown = shown_error what e.canceled message;
    listed = false;
  }
  | none ↦ elim close_target [
    | some message ↦ record {
      remote = some e.written;
      shown = shown_error what e.canceled message;
      listed = false;
    }
    | none ↦ record { remote = some e.written; shown = none; listed = not e.canceled && here }
  ]
]

-- `copyBetween`.
unfoldable pub copy_between : Text → Script → Sent
copy_between what c = elim c.open_source [
  | some message ↦ record {
    remote = none;
    shown = shown_error what c.early message;
    listed = false;
  }
  | none ↦
      if c.early
      then record { remote = none; shown = none; listed = false }
      else elim c.open_target [
        | some message ↦ record {
          remote = none;
          shown = shown_error what c.opening message;
          listed = false;
        }
        | none ↦ finish_remote what c.close_target true (read_script c)
      ]
]

-- The loop of `uploadFile`: it ends, and does not fail, when the user has cancelled.
unfoldable pub send_all : List Round → Option Text → Bool → List ℕ → Ending
send_all [] last late written = record { written = written; failure = last; canceled = late }
send_all (r ∷ rs) last late written =
    let rest = send_all rs last late (written ++ r.bytes) in
    if r.canceled
    then record { written = written; failure = none; canceled = true }
    else elim r.failure [
      | none ↦ rest
      | some message ↦ record { written = written; failure = some message; canceled = false }
    ]

-- `uploadFile`, which opens the target first.
unfoldable pub upload_file : Text → Bool → Script → Sent
upload_file what here c = elim c.open_target [
  | some message ↦ record {
    remote = none;
    shown = shown_error what c.early message;
    listed = false;
  }
  | none ↦
      if c.early
      then record { remote = some []; shown = none; listed = false }
      else finish_remote what c.close_target here (send_all c.rounds c.last c.late [])
]
