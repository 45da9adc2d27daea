-- ===== src/Tests/Running.antt =====
-- The theorems on the running program at work: it starts, serves two clients and takes a notification.
use uhmi_ivi_wm.Base.{
  sym, subst, true, ℕ, String, List, Option, ◌++◌, [], ◌≡◌, refl, ◌≢◌, none, some, false, str_eq,
  eq_iff,
}
use uhmi_ivi_wm.Exec.{Exec, returned, pure, ◌>>=◌, ◌>>◌}
use uhmi_ivi_wm.Tree.{surface_has_id, layer_has_id, surface_properties_has_id}
use uhmi_ivi_wm.State.{State}
use uhmi_ivi_wm.Wrapper.{ObjectType}
use uhmi_ivi_wm.EventLoop.{
  CbData, creation_delection, notification_callback, object_notified, pipe_read, command_received,
  client_accepted, client_closed, parse_arguments, IsSent, Running, initialized, going_on,
}
use uhmi_ivi_wm.Exits.Commits.{CommitCalled}
use uhmi_ivi_wm.EventLoop.Commits.{Running-CommitCalled}
use uhmi_ivi_wm.EventLoop.Refinement.{KeepsObjects, IsSound, Running-IsWellFormed, Running-IsSound}
use uhmi_ivi_wm.Invariant.{IsWellFormed}
use uhmi_ivi_wm.Safety.{HasShortConfig}
use uhmi_ivi_wm.Safety.Start.{name_in}
use uhmi_ivi_wm.Tests.World.{world, one_screen, answering, short_texts}
use uhmi_ivi_wm.Tests.Runs.{watched, watches, starts, adds, fills}
use uhmi_ivi_wm.Tests.Messages.{
  stack, layer_5_pieces, surface_10_pieces, layer_5-received, surface_10-received, layer_5-message,
  surface_10-message,
}
use uhmi_ivi_wm.Receiver.{Connection, magic_code, htonl, of_int}
use uhmi_ivi_wm.Receiver.Session.{open_with}
use uhmi_ivi_wm.Request.{receive_request, c_string}
use uhmi_ivi_wm.Jansson.{pos}

pub differ : (x y : String) → str_eq x y ≡ false → x ≢ y
differ x y d e = cc (d, (eq_iff x y).1 e)

pub sent-KeepsObjects :
    (msg : String)
    → str_eq (name_in world msg) "remove_surface" ≡ false
    → str_eq (name_in world msg) "remove_layer" ≡ false
    → KeepsObjects world msg
sent-KeepsObjects msg a b = (short_texts _, differ _ _ a, differ _ _ b)

abbrev surface_created : CbData
surface_created = record { type = creation_delection; id = 10 }

-- After the start, the commands of two clients and a notification, the layer 5 with the surface 10
-- stands on the screen 0.
abbrev accepted : List (List ℕ) → Option Connection
accepted pieces = some (open_with pieces [] [])

abbrev served : Option Connection
served = some (open_with [] [] (([] ++ magic_code) ++ htonl (of_int (pos 0))))

answers :
    (m : Exec State (Unit {0})) (c : Connection) (s : State) {t : State}
    → m s ≡ returned tt t
    → (m >> pure c) s ≡ returned c t
unfolding ◌>>=◌
answers m c s e = rw e refl

layer_5-IsSent :
    IsSent world (KeepsObjects world) (receive_request stack stack (open_with layer_5_pieces [] []))
unfolding c_string
layer_5-IsSent =
    subst (IsSent world (KeepsObjects world)) (sym layer_5-message)
      (sent-KeepsObjects "layer 5" refl refl)

surface_10-IsSent :
    IsSent world
      (KeepsObjects world)
      (receive_request stack stack (open_with surface_10_pieces [] []))
unfolding c_string
surface_10-IsSent =
    subst (IsSent world (KeepsObjects world)) (sym surface_10-message)
      (sent-KeepsObjects "surface 10" refl refl)

went_on :
    Running world
      (HasShortConfig world.jansson)
      (KeepsObjects world)
      (record { state = watched; pipe = []; accepted = served })
unfolding notification_callback parse_arguments
went_on =
    going_on
      (going_on
        (going_on
          (going_on
            (going_on
              (going_on
                (going_on (initialized false [] none refl tt starts)
                  (client_accepted (open_with layer_5_pieces [] []) refl))
                (command_received stack stack _ _ _ refl layer_5-IsSent layer_5-received
                  (answers _ _ _ adds)))
              client_closed)
            (client_accepted (open_with surface_10_pieces [] []) refl))
          (command_received stack stack _ _ _ refl surface_10-IsSent surface_10-received
            (answers _ _ _ fills)))
        (object_notified ObjectType.surface 10 true))
      (pipe_read surface_created [] refl watches)

Running-IsSound_example : IsSound world watched
Running-IsSound_example = Running-IsSound world answering went_on

Running-CommitCalled_example : CommitCalled watched
Running-CommitCalled_example = Running-CommitCalled world _ (KeepsObjects world) went_on

Running-IsWellFormed_example : IsWellFormed watched
Running-IsWellFormed_example = Running-IsWellFormed world one_screen _ (KeepsObjects world) went_on
