-- ===== src/Scene/Refinement.antt =====
-- app/ refines the scene: a command that returns has done what `Scene.Spec` reads in its JSON.
use uhmi_ivi_wm.Base.{String, Option}
use uhmi_ivi_wm.Exec.{Exec, Outcome}
use uhmi_ivi_wm.Exec.Keeps.{Keeps, Anything}
use uhmi_ivi_wm.Exec.Exits.{Ends}
use uhmi_ivi_wm.State.{State}
use uhmi_ivi_wm.Wrapper.{Unit₀}
use uhmi_ivi_wm.Env.{Env}
use uhmi_ivi_wm.Invariant.{IsWellFormed}
use uhmi_ivi_wm.Scene.{Scene, view}
use uhmi_ivi_wm.Scene.Spec.{Does, Builds}
use uhmi_ivi_wm.Scene.Sim.{Sim}
use uhmi_ivi_wm.Scene.Steps.{Refines}

module _ {J : Type 0} (env : Env J) (root : Option J) (a : Scene) where
  -- The states that `initial_screen` may come to.
  abbrev Follows : State → Type 0
  Follows = Refines Builds a

module _ {J : Type 0} (env : Env J) (j : Option J) (s : State) (w : IsWellFormed s) where
  -- Where the command returns, no id stands twice and the scene is as the specification says.
  abbrev pub IsDone : String → Outcome State Unit₀ → Type 0
  IsDone cmd_name o =
      Ends (λ t. IsWellFormed t × Does env.jansson j (view s) cmd_name (view t)) Anything o
