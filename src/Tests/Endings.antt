-- ===== src/Tests/Endings.antt =====
-- The theorems on how the work ends, where libilm refuses all calls and where it does them all.
use uhmi_ivi_wm.Base.{String, Option, ◌≡◌, false}
use uhmi_ivi_wm.Exec.{returned}
use uhmi_ivi_wm.Exec.Exits.{LeavesIn}
use uhmi_ivi_wm.State.{State}
use uhmi_ivi_wm.Env.{Env}
use uhmi_ivi_wm.EventLoop.{initialize}
use uhmi_ivi_wm.Exits.Closing.{
  Work, IsClosedOrRefused, command, IsClosed, perform, perform-IsClosed, perform_returns,
}
use uhmi_ivi_wm.Tests.World.{Value, world, compositor, obliging, short_texts}
use uhmi_ivi_wm.Tests.Runs.{filled}
use uhmi_ivi_wm.Tests.Examples.{filled-IsRegistered}

abbrev refusing : Env Value
refusing = record world { ilm = record compositor { succeeds = λ h c. false } }

perform-IsClosed_example :
    ((w : Work) (s : State) → LeavesIn IsClosed (perform refusing w s))
    × ((path : Option String) (s : State)
        → LeavesIn (IsClosedOrRefused refusing s) (initialize refusing path s))
perform-IsClosed_example = perform-IsClosed refusing

perform_returns_example :
    (t : State) × (perform world (command "no layer 5") filled ≡ returned tt t)
perform_returns_example =
    perform_returns world obliging (command "no layer 5") filled (short_texts _) filled-IsRegistered
