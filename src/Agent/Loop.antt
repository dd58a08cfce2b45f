-- ===== src/Agent/Loop.antt =====
-- cmd/agent/main.go: what one cycle of `cmdRun` works on, and its helpers.
use releasepanel_agent.Base.{Option, none, some, List, [], ◌∷◌, ◌++◌, if◌then◌else◌, is_empty}
use releasepanel_agent.Text.{Text, codes, text_eq, trim_space}
use releasepanel_agent.FilePath.{join}
use releasepanel_agent.System.{Os, M, Result, ok, err, go, Action, pure, result, ◌>>◌}
use releasepanel_agent.System.Files.{ReadReply, contents, absent, unreadable}
use releasepanel_agent.Central.{Wire}
use releasepanel_agent.Deploy.{ConvergenceRecord}
use releasepanel_agent.State.{RuntimeCounters, repository_deploy_keys_dir}
use releasepanel_agent.RuntimeProbe.{Log}
use releasepanel_agent.Enroll.{Machine, on_sys, on_wire}
use releasepanel_agent.Logs.{printf}

-- The last TLS state of each site.
abbrev pub TlsEcho : Type 0
TlsEcho = List (Text × Text)

pub record Loop : Type 0 where
  pub machine : Machine
  pub rt : RuntimeCounters
  pub conv : ConvergenceRecord
  pub tls_echo : TlsEcho
  pub asked : Log

-- A missing key gives the empty text.
unfoldable pub lookup : Text → TlsEcho → Text
lookup k [] = []
lookup k ((j, v) ∷ m) = let rest = lookup k m in if text_eq j k then v else rest

unfoldable pub insert : Text → Text → TlsEcho → TlsEcho
insert k v [] = (k, v) ∷ []
insert k v ((j, w) ∷ m) =
    let rest = insert k v m in if text_eq j k then (k, v) ∷ m else (j, w) ∷ rest

-- The entries of the file, in the order in which `range` visits them.
unfoldable pub clean_entries : List (Text × Text) → TlsEcho → TlsEcho
unfolding insert
clean_entries [] out = out
clean_entries ((k, v) ∷ stub) out = clean_entries stub (
    if is_empty (trim_space k)
    then out
    else if is_empty (trim_space v)
    then out
    else insert (trim_space k) (trim_space v) out)

unfoldable pub echo_of : (Text → Result (List (Text × Text))) → ReadReply → TlsEcho
unfolding clean_entries
echo_of decode (absent e) = []
echo_of decode (unreadable e) = []
echo_of decode (contents raw) = elim (decode raw) [ ok stub ↦ clean_entries stub [] | err e ↦ [] ]

-- The TLS state that goes with a site's receipts.
unfoldable pub tls_for : Text → TlsEcho → Text
unfolding lookup
tls_for site m = if is_empty (lookup site m) then codes "none" else lookup site m

-- Where the deploy key of a site is.
unfoldable pub key_path : Text → Text → Text
key_path state_dir site = join (repository_deploy_keys_dir state_dir ∷ (site ++ codes ".key") ∷ [])

-- The calls of a cycle on its files and on Central.
unfoldable pub files : {A : Type 0} → M A → Action Loop (Option Text)
unfolding on_sys
files m l =
    let (r, t) = m l.machine.sys in
    (go (result r), record l { machine = record l.machine { sys = t } })

unfoldable pub central : {A : Type 0} → Action Wire A → Action Loop (Result A)
unfolding on_wire
central m l = let (r, t) = on_wire m l.machine in (r, record l { machine = t })

-- A value that the files give.
unfoldable pub reading : {A : Type 0} → M A → Action Loop A
reading m l =
    let (r, t) = m l.machine.sys in (r, record l { machine = record l.machine { sys = t } })

unfoldable pub probing : {A : Type 0} → (Log → A × Log) → Action Loop A
probing m l = let (a, k) = m l.asked in (go a, record l { asked = k })

unfoldable pub echo : Action Loop TlsEcho
echo l = (go l.tls_echo, l)

unfoldable pub set_echo : TlsEcho → Action Loop (Unit {0})
set_echo m l = (go tt, record l { tls_echo = m })

unfoldable pub count : (RuntimeCounters → RuntimeCounters) → Action Loop (Unit {0})
count f l = (go tt, record l { rt = f l.rt })

-- `rt.LastError = err.Error()`.
unfoldable pub note : Text → Action Loop (Unit {0})
unfolding count
note e = count (λ rt. record rt { last_error = e })

module _ (os : Os) (log_dir : Text) where
  unfoldable pub print : Text → Action Loop (Unit {0})
  unfolding files
  print msg = do files (printf os log_dir msg); pure tt

  -- An error is kept in the counters and printed.
  unfoldable pub complain : Text → Text → Action Loop (Unit {0})
  unfolding note print
  complain what e = do note e; print (what ++ e)

  unfoldable pub complain_if : Text → Option Text → Action Loop (Unit {0})
  unfolding complain
  complain_if what none = pure tt
  complain_if what (some e) = complain what e

  -- The action that was called, and what follows if it succeeded.
  unfoldable pub then_or :
      {A : Type 0} → Text → (A → Action Loop (Unit {0})) → Result A → Action Loop (Unit {0})
  unfolding complain
  then_or what f (ok a) = f a
  then_or what f (err e) = complain what e
