-- ===== src/Agent/Endures/Whole.antt =====
-- cmd/agent/main.go: a whole cycle, and the loop.
use Prim.Native.Nat.{◌%◌, ◌^◌, ℕ}
use releasepanel_agent.Base.{ℕ, zero, suc, ◌≡◌, List, [], ◌∷◌}
use releasepanel_agent.Text.{Text, Unicode}
use releasepanel_agent.System.{Action}
use releasepanel_agent.Central.{Client}
use releasepanel_agent.Agent.Loop.{Loop}
use releasepanel_agent.Agent.Dispatch.{Setting, ping_section}
use releasepanel_agent.Agent.Cycle.{
  Files, begin, heartbeat, inventory, health, reconcile_if, finish,
}
use releasepanel_agent.Agent.Endures.{Endures}

module _ ⦃u : Unicode⦄ (st : Setting) (fs : Files) (cl : Client) where
  -- The number of cycles, and the agent's start.
  abbrev Counts : ℕ → Text → Loop → Type 0
  Counts c at l = (l.rt.loop_count ≡ c % 2 ^ 64) × (l.rt.started_at ≡ at)

  abbrev CountsFrom : ℕ → Text → Loop → Type 0
  CountsFrom c at l = (l.rt.loop_count % 2 ^ 64 ≡ c % 2 ^ 64) × (l.rt.started_at ≡ at)

-- Actions in turn, each from the state that the one before it has left.
abbrev pub in_turn : List (Action Loop (Unit {0})) → Loop → Loop
in_turn [] l = l
in_turn (m ∷ ms) l = in_turn ms (m l).1

abbrev pub rounds : List (Action Loop (Unit {0})) → ℕ → Loop → Loop
rounds ms zero l = l
rounds ms (suc n) l = rounds ms n (in_turn ms l)

module _ ⦃u : Unicode⦄ (st : Setting) (fs : Files) (cl : Client) where
  -- The parts of a cycle, in the order of the code.
  abbrev pub parts : List (Action Loop (Unit {0}))
  parts =
      begin st fs cl
      ∷ heartbeat st fs cl
      ∷ inventory st fs cl
      ∷ health st fs cl
      ∷ ping_section st
      ∷ reconcile_if st fs cl st.cfg.manifest_reconcile_enabled
      ∷ finish st fs cl
      ∷ []
