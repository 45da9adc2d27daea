-- ===== src/Tests/Progress.antt =====
-- A client's command to the running window manager, from the start on.
use uhmi_ivi_wm.Base.{[], ◌∷◌, ◌++◌, arith, refl, some, none, false}
use uhmi_ivi_wm.State.{State}
use uhmi_ivi_wm.Receiver.{magic_code, htonl, of_int}
use uhmi_ivi_wm.Receiver.Body.{after}
use uhmi_ivi_wm.Receiver.Session.{open_with}
use uhmi_ivi_wm.Jansson.{pos}
use uhmi_ivi_wm.Client.RoundTrip.{send_request-stream}
use uhmi_ivi_wm.Client.Progress.{command_served}
use uhmi_ivi_wm.EventLoop.{
  System, SystemStep, Running, initialized, going_on, client_accepted, parse_arguments,
}
use uhmi_ivi_wm.EventLoop.Refinement.{KeepsObjects}
use uhmi_ivi_wm.Safety.{HasShortConfig}
use uhmi_ivi_wm.Tests.World.{world, obliging}
use uhmi_ivi_wm.Tests.Runs.{running, starts}
use uhmi_ivi_wm.Tests.Messages.{stack, layer_5_pieces}
use uhmi_ivi_wm.Tests.Running.{sent-KeepsObjects}

abbrev connected : System
connected = record { state = running; pipe = []; accepted = some (open_with layer_5_pieces [] []) }

connected-Running : Running world (HasShortConfig world.jansson) (KeepsObjects world) connected
unfolding parse_arguments
connected-Running =
    going_on (initialized false [] none refl tt starts)
      (client_accepted (open_with layer_5_pieces [] []) refl)

command_served_example :
    (t : State) × SystemStep world (KeepsObjects world) connected (record connected {
      state = t;
      accepted = some (open_with [] [] (([] ++ magic_code) ++ htonl (of_int (pos 0))));
    })
unfolding htonl after
command_served_example =
    command_served world stack stack refl refl obliging (53 ∷ []) _ layer_5_pieces [] []
      connected-Running refl ((λ e. omega (arith, e)), tt) (omega arith)
      (sent-KeepsObjects "layer 5" refl refl) (send_request-stream (53 ∷ []) [] [] (omega arith))
      refl (omega arith, (omega arith, (omega arith, tt))) (omega arith, omega arith)
