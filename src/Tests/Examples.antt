-- ===== src/Tests/Examples.antt =====
-- Each theorem at work, in the states that the runs come to.
use uhmi_ivi_wm.Tests.Running.{differ}
use uhmi_ivi_wm.Base.{
  ℕ, [], ◌∷◌, ◌+◌, ◌%◌, ◌^◌, ◌≡◌, refl, ◌≢◌, none, some, arith, inr, if◌then◌else◌, ◌==◌, All,
}
use uhmi_ivi_wm.Exec.{returned}
use uhmi_ivi_wm.Exec.Keeps.{Keeps, Holds, Never, Anything}
use uhmi_ivi_wm.InsertOrder.{InsertInfo, InsertOrder}
use uhmi_ivi_wm.ElementList.{get_list_element}
use uhmi_ivi_wm.Tree.{
  SurfacePropertiesElement, get_layer, surface_has_id, layer_has_id, surface_properties_has_id,
}
use uhmi_ivi_wm.State.{State, start}
use uhmi_ivi_wm.Json.{CmdType}
use uhmi_ivi_wm.Json.Properties.{parse_surface_properties}
use uhmi_ivi_wm.Store.{add_surface, remove_surface, remove_layer}
use uhmi_ivi_wm.Store.Removal.{get_layer-remove_layer}
use uhmi_ivi_wm.Decide.{decide_add_or_update_layer, decide_add_or_update_surface}
use uhmi_ivi_wm.Decide.Placement.{without, IsPlaced, decide_add_or_update_layer-IsPlaced}
use uhmi_ivi_wm.Parser.{
  dispatch, parser_init, parser_parse_recv_command, parser_add_ivi_surface_by_event_notification,
}
use uhmi_ivi_wm.Parser.Unheeded.{command_names, parser_parse_recv_command_unheeded}
use uhmi_ivi_wm.Invariant.{IsWellFormed}
use uhmi_ivi_wm.Invariant.Start.{parser_init-IsWellFormed}
use uhmi_ivi_wm.Invariant.Commands.{parser_parse_recv_command-IsWellFormed}
use uhmi_ivi_wm.Safety.{IsRegistered}
use uhmi_ivi_wm.Json.Documents.{whole}
use uhmi_ivi_wm.Safety.Commands.{dispatch-IsRegistered, parser_parse_recv_command_safe}
use uhmi_ivi_wm.Safety.Notification.{HasLists, notification_safe}
use uhmi_ivi_wm.Safety.Shared.{Faults, shared_surface-Faults, referred_cnt-add_surface}
use uhmi_ivi_wm.Safety.Start.{parser_init-IsRegistered}
use uhmi_ivi_wm.Tests.World.{
  world, one_screen, answering, short_texts, layer_document, surface_document, add_layer_document,
}
use uhmi_ivi_wm.Tests.Runs.{five, filled, ten}
use uhmi_ivi_wm.Tests.Pieces.{screen, stack as stack_surface}

pub filled-IsWellFormed : IsWellFormed filled
filled-IsWellFormed = record {
  screens_unique = λ k. ground arith;
  layers_unique = λ k. ground arith;
  surfaces_unique = (((λ k. ground arith), tt), tt);
  properties_unique = λ k. ground arith;
}

pub filled-IsRegistered : IsRegistered filled
filled-IsRegistered = record { listed = (((omega arith, tt), tt), tt) }

abbrev pub at_front : InsertInfo
at_front = record { order = InsertOrder.prepend; refid = 0 }

decide_add_or_update_layer-IsPlaced_example :
    Holds
      (IsPlaced 0 5 at_front (without 5 screen.layers))
      (IsPlaced 0 5 at_front (without 5 screen.layers))
      (decide_add_or_update_layer world 0 (some layer_document) 5 CmdType.add at_front filled)
unfolding get_list_element
decide_add_or_update_layer-IsPlaced_example =
    decide_add_or_update_layer-IsPlaced world 0 (some layer_document) 5 CmdType.add at_front filled
      screen filled-IsWellFormed refl

parser_parse_recv_command_safe_example :
    Holds Anything Never (parser_parse_recv_command world "no layer 5" filled)
parser_parse_recv_command_safe_example =
    parser_parse_recv_command_safe world "no layer 5" filled answering (short_texts _)
      filled-IsRegistered

dispatch-IsRegistered_example :
    Keeps IsRegistered Never (dispatch world "add_layer" (some add_layer_document))
dispatch-IsRegistered_example =
    dispatch-IsRegistered world answering _ (short_texts _) "add_layer" (some add_layer_document)
      whole (differ _ _ refl) (differ _ _ refl)

get_layer-remove_layer_example :
    get_layer (remove_layer 5 filled).screens 5
    ≡ (if 5 == 5 then none else get_layer filled.screens 5)
get_layer-remove_layer_example = get_layer-remove_layer 5 5 filled filled-IsWellFormed

-- The surface 10 stands on two layers.
abbrev twice : State
twice = record {
  screens =
      record {
        id = 0;
        layers =
            record { id = 5; prop = five.prop; surfaces = record { id = 10 } ∷ [] }
            ∷ record { id = 6; prop = five.prop; surfaces = record { id = 10 } ∷ [] }
            ∷ [];
      }
      ∷ [];
  surface_properties = ten ∷ [];
  calls = [];
  locals = 0;
}

twice-IsWellFormed : IsWellFormed twice
twice-IsWellFormed = record {
  screens_unique = λ k. ground arith;
  layers_unique = λ k. ground arith;
  surfaces_unique = (((λ k. ground arith), ((λ k. ground arith), tt)), tt);
  properties_unique = λ k. ground arith;
}

abbrev layer_5 : ℕ
layer_5 = 5

apart : layer_5 ≢ 6
apart e = omega (arith, e)

shared_surface-Faults_example : Faults (
    decide_add_or_update_surface world 6
      (some surface_document)
      10
      CmdType.add
      at_front
      (remove_surface 5 10 twice))
unfolding get_layer get_list_element
shared_surface-Faults_example =
    shared_surface-Faults world 5 6 10 (some surface_document) CmdType.add at_front twice ten
      twice-IsWellFormed apart (record { id = 10 }, refl) (record { id = 10 }, refl) refl refl

referred_cnt-add_surface_example :
    (elm : SurfacePropertiesElement) × (get_list_element
        (add_surface 6
          (parse_surface_properties world.jansson stack_surface (some surface_document) CmdType.add)
          10
          at_front
          twice).surface_properties
        10
      ≡ some elm)
    × (elm.prop.referred_cnt ≡ (stack_surface.referred_cnt + 1) % 2 ^ 32)
referred_cnt-add_surface_example =
    referred_cnt-add_surface world.jansson stack_surface (some surface_document) CmdType.add 6 10
      at_front twice

notification_safe_example :
    Holds
      (HasLists filled.screens filled.surface_properties)
      Never
      (parser_add_ivi_surface_by_event_notification world 10 filled)
notification_safe_example = notification_safe world answering 10 filled filled-IsRegistered

parser_init-IsRegistered_example : Holds IsRegistered Never (parser_init world none start)
parser_init-IsRegistered_example = parser_init-IsRegistered world answering none start tt

parser_init-IsWellFormed_example : Holds IsWellFormed IsWellFormed (parser_init world none start)
parser_init-IsWellFormed_example = parser_init-IsWellFormed world one_screen none start

parser_parse_recv_command-IsWellFormed_example :
    Keeps IsWellFormed IsWellFormed (parser_parse_recv_command world "layer 5")
parser_parse_recv_command-IsWellFormed_example =
    parser_parse_recv_command-IsWellFormed world "layer 5"

command_names-All : All (λ name. "shutdown" ≢ name) command_names
command_names-All = (
  differ _ _ refl,
  (
    differ _ _ refl,
    (
      differ _ _ refl,
      (differ _ _ refl, (differ _ _ refl, (differ _ _ refl, (differ _ _ refl, tt)))),
    ),
  ),
)

parser_parse_recv_command_unheeded_example :
    parser_parse_recv_command world "shutdown" filled ≡ returned tt filled
parser_parse_recv_command_unheeded_example =
    parser_parse_recv_command_unheeded world "shutdown" filled (short_texts _)
      (inr command_names-All)
