-- ===== src/Metrics/Shell/Actions.antt =====
-- What `runServiceAction` answers, by what the host answers to its scripts.
use connexia.Common.{
  zero, suc, ◌≡◌, refl, arith, Bool, true, false, not, ltb, ◌&&◌, Option, none, some, List, [], ◌∷◌,
  Text, same, any, trim, Bool-cases, inl, inr,
}
use connexia.Metrics.Shell.{
  Code, exited, missing, Output, failed, mentions, actions, denied, action_command, Action,
  run_allowed, run_service_action, sudo_command,
}

pub is_fine : Action → Bool
is_fine a = elim a.error [ none ↦ true | some text ↦ false ]

-- The script exited with 0, or nobody knows.
pub no_failure_known : Code → Bool
no_failure_known (exited zero) = true
no_failure_known (exited (suc status)) = false
no_failure_known missing = true

-- There is a last script, and no failure of it is known.
pub last_succeeds : (Text → Output) → List Text → Bool
last_succeeds run [] = false
last_succeeds run (script ∷ []) = no_failure_known (run script).code
last_succeeds run (script ∷ next ∷ scripts) = last_succeeds run (next ∷ scripts)

-- A script that has another one after it is known to have failed, and for want of a permission.
pub AreRepeats : (Text → Output) → List Text → Type 0
AreRepeats run [] = Unit
AreRepeats run (script ∷ []) = Unit
AreRepeats run (script ∷ next ∷ scripts) =
    (no_failure_known (run script).code ≡ false)
    × (mentions denied (trim (run script).stdout) ≡ true)
    × AreRepeats run (next ∷ scripts)

abbrev pub IsSound : (Text → Output) → Action → Type 0
IsSound run a = (is_fine a ≡ last_succeeds run a.scripts) × AreRepeats run a.scripts

failed_lem : (o : Output) → failed o ≡ not (no_failure_known o.code)
unfolding no_failure_known
failed_lem o = code_lem o.code
  where
    code_lem :
        (c : Code)
        → elim c [ exited status ↦ ltb 0 status | missing ↦ false ] ≡ not (no_failure_known c)
    code_lem (exited zero) = refl
    code_lem (exited (suc status)) = ground arith
    code_lem missing = refl

run_allowed-IsSound :
    (run : Text → Output) (command action : Text) (sudo_password : Option Text)
    → IsSound run (run_allowed run command action sudo_password)
unfolding is_fine last_succeeds AreRepeats run_allowed
run_allowed-IsSound run command action none = (ground (arith, failed_lem (run command)), tt)
run_allowed-IsSound run command action (some password) =
    elim (Bool-cases (failed (run command) && mentions denied (trim (run command).stdout))) [
      | inl e ↦ rw e (
        ground (arith, failed_lem (run (sudo_command password command))),
        (ground (arith, failed_lem (run command)), ground arith, tt),
      )
      | inr e ↦ rw e (ground (arith, failed_lem (run command)), tt)
    ]

-- For any answers of the host, the action ends without an error exactly when the last script that
-- was run exited with 0 or without a status, so never when none was run; and a second script is run
-- only when the first one exited with another status and a message that says a permission was
-- wanting.
pub run_service_action-IsSound :
    (run : Text → Output) (unit action : Text) (sudo_password : Option Text)
    → IsSound run (run_service_action run unit action sudo_password)
unfolding run_service_action is_fine last_succeeds AreRepeats
run_service_action-IsSound run unit action sudo_password =
    elim (Bool-cases (any (same action) actions)) [
      | inl e ↦ rw e (run_allowed-IsSound run (action_command unit action) action sudo_password)
      | inr e ↦ rw e (refl, tt)
    ]
