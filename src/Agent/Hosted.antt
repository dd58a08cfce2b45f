-- ===== src/Agent/Hosted.antt =====
-- cmd/agent/main.go: how an executor runs with a reporter of the loop. An executor works on the
-- system. What a reporter makes of the rest of the loop, the exchanges with Central and the TLS
-- states, does not depend on the system; so it follows from the receipts so far, which stand in the
-- log.
use releasepanel_agent.Base.{◌-◌, Option, List, [], ◌∷◌, length, take}
use releasepanel_agent.Text.{Text}
use releasepanel_agent.System.{
  Sys, Event, reported, executed, touched, Reporter, Exit, go, stop, Action,
}
use releasepanel_agent.Api.{SiteRuntimeReportRow}
use releasepanel_agent.Agent.Loop.{Loop}

abbrev pub LoopReporter : Type 0
LoopReporter = SiteRuntimeReportRow → Action Loop (Option Text)

abbrev pub at_sys : Sys → Loop → Loop
at_sys s l = record l { machine = record l.machine { sys = s } }

-- The rows of a log, the newest first.
unfoldable pub receipts : List Event → List SiteRuntimeReportRow
receipts [] = []
receipts (reported row e ∷ log) = row ∷ receipts log
receipts (executed c r ∷ log) = receipts log
receipts (touched c e ∷ log) = receipts log

-- The events of `s` that `l` does not have yet.
unfoldable pub since : Loop → Sys → List Event
since l s = take (length s.log - length l.machine.sys.log) s.log

unfoldable pub answer_in : Exit (Option Text) → Option Text
answer_in (go e) = e
answer_in (stop e) = e

module _ (report : LoopReporter) (l : Loop) where
  -- The loop after these receipts; the system is not the one of that time.
  unfoldable pub after_receipts : List SiteRuntimeReportRow → Loop
  after_receipts [] = l
  after_receipts (row ∷ rows) = (report row (after_receipts rows)).1

  -- The reporter as the executor calls it.
  unfoldable pub on_system : Reporter
  unfolding after_receipts receipts since answer_in
  on_system row s =
      let (r, v) = report row (at_sys s (after_receipts (receipts (since l s)))) in
      let e = answer_in r in
      (go e, record v.machine.sys { log = reported row e ∷ v.machine.sys.log })

-- A call of an executor in the loop.
unfoldable pub hosted :
    (Reporter → Sys → Option Text × Sys) → LoopReporter → Action Loop (Option Text)
unfolding on_system after_receipts receipts since
hosted run report l =
    let (e, s) = run (on_system report l) l.machine.sys in
    (go e, at_sys s (after_receipts report l (receipts (since l s))))
