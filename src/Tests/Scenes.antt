-- ===== src/Tests/Scenes.antt =====
-- The theorems on the scene at work, where the layer 5 with the surface 10 stands on the screen 0.
use uhmi_ivi_wm.Base.{◌≡◌, some}
use uhmi_ivi_wm.Exec.Keeps.{Holds}
use uhmi_ivi_wm.Json.{CmdType}
use uhmi_ivi_wm.Decide.{decide_add_or_update_layer, decide_add_or_update_surface}
use uhmi_ivi_wm.Scene.{view, place_layer, place_surface}
use uhmi_ivi_wm.Scene.Placement.{
  Settles, decide_add_or_update_layer-places, decide_add_or_update_surface-places,
}
use uhmi_ivi_wm.Tests.World.{world, layer_document, surface_document}
use uhmi_ivi_wm.Tests.Runs.{filled}
use uhmi_ivi_wm.Tests.Examples.{filled-IsWellFormed, at_front}

decide_add_or_update_layer-places_example :
    Holds
      (λ t. view t ≡ place_layer 0 5 at_front (view filled))
      (λ t. view t ≡ place_layer 0 5 at_front (view filled))
      (decide_add_or_update_layer world 0 (some layer_document) 5 CmdType.add at_front filled)
decide_add_or_update_layer-places_example =
    decide_add_or_update_layer-places world 0 (some layer_document) 5 CmdType.add at_front filled
      filled-IsWellFormed

decide_add_or_update_surface-places_example :
    Holds
      (λ t. view t ≡ place_surface 5 10 at_front (view filled))
      (Settles 5 10 at_front (view filled))
      (decide_add_or_update_surface world 5 (some surface_document) 10 CmdType.add at_front filled)
decide_add_or_update_surface-places_example =
    decide_add_or_update_surface-places world 5 (some surface_document) 10 CmdType.add at_front
      filled filled-IsWellFormed
