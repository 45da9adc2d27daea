-- ===== src/Tests/Changes.antt =====
-- The theorems on changes of one layer or surface at work.
use uhmi_ivi_wm.Base.{[], ◌∷◌, refl, some}
use uhmi_ivi_wm.Exec.Keeps.{Holds}
use uhmi_ivi_wm.ElementList.{get_list_element}
use uhmi_ivi_wm.Tree.{LayerElement, get_layer, surface_has_id}
use uhmi_ivi_wm.Json.{CmdType}
use uhmi_ivi_wm.Decide.{decide_add_or_update_surface}
use uhmi_ivi_wm.Decide.Surfaces.{
  IsHolding, surfaces_without, decide_add_or_update_surface-IsHolding,
}
use uhmi_ivi_wm.Commands.{add_layers, modify_layer, modify_surface}
use uhmi_ivi_wm.Commands.Sending.{IsShown, Succeeds, add_layers-IsShown}
use uhmi_ivi_wm.Commands.Modify.{
  LayerChanges, SurfaceChanges, modify_layer-HasLayer, modify_surface-HasSurfaceProperties,
}
use uhmi_ivi_wm.Tests.World.{
  wide_document, large_document, world, obliging, screen_document, surface_document,
}
use uhmi_ivi_wm.Tests.Runs.{five, filled, ten}
use uhmi_ivi_wm.Tests.Examples.{at_front, filled-IsRegistered}

abbrev five_filled : LayerElement
five_filled = record { id = 5; prop = five.prop; surfaces = record { id = 10 } ∷ [] }

decide_add_or_update_surface-IsHolding_example :
    Holds
      (IsHolding five_filled 11 at_front (surfaces_without 11 five_filled))
      (IsHolding five_filled 11 at_front (surfaces_without 11 five_filled))
      (decide_add_or_update_surface world 5 (some surface_document) 11 CmdType.add at_front filled)
unfolding get_layer get_list_element
decide_add_or_update_surface-IsHolding_example =
    decide_add_or_update_surface-IsHolding world (some surface_document) 11 CmdType.add at_front
      filled five_filled refl filled-IsRegistered

add_layers-IsShown_example :
    Succeeds (IsShown 0) (add_layers world (some screen_document) 0 at_front filled)
add_layers-IsShown_example =
    add_layers-IsShown world obliging (some screen_document) 0 at_front filled

modify_layer-HasLayer_example :
    Holds
      (LayerChanges world (some wide_document) 5 five_filled filled)
      (LayerChanges world (some wide_document) 5 five_filled filled)
      (modify_layer world (some wide_document) 5 five_filled filled)
unfolding get_layer get_list_element
modify_layer-HasLayer_example =
    modify_layer-HasLayer world (some wide_document) 5 five_filled filled refl

modify_surface-HasSurfaceProperties_example :
    Holds
      (SurfaceChanges world (some large_document) 10 ten filled)
      (SurfaceChanges world (some large_document) 10 ten filled)
      (modify_surface world (some large_document) 10 ten.prop filled)
unfolding get_list_element
modify_surface-HasSurfaceProperties_example =
    modify_surface-HasSurfaceProperties world (some large_document) 10 ten filled refl
