-- ===== src/Invariant/Store.antt =====
-- The changes of app/comm_parser.c to layers and surfaces keep the invariant.
use uhmi_ivi_wm.Base.{ℕ, ◌≡◌, refl, List, none, some, arith, inl, inr, Option-cases, subst}
use uhmi_ivi_wm.InsertOrder.{InsertInfo}
use uhmi_ivi_wm.Properties.{SurfaceProperties}
use uhmi_ivi_wm.ElementList.{pop_list_element, insert_list_element}
use uhmi_ivi_wm.ElementList.Count.{count, IsUnique, IsUnique-insert, pop-PopCounts, IsUnique-rest}
use uhmi_ivi_wm.Tree.{
  SurfaceElement, LayerElement, ScreenElement, SurfacePropertiesElement, get_layer, update_layer,
  surface_has_id, layer_has_id, screen_has_id, surface_properties_has_id,
}
use uhmi_ivi_wm.Tree.Layers.{
  update_layer_counts, AllLayers-get, AllLayers-update_found, update_layer_missing,
}
use uhmi_ivi_wm.State.{State}
use uhmi_ivi_wm.Store.{
  with_surfaces, surfaces_of, add_surface, remove_surface, add_surface_properties,
  remove_surface_properties,
}
use uhmi_ivi_wm.Store.Properties.{IsUnique-add, IsUnique-remove}
use uhmi_ivi_wm.Decide.{set_surfaces}
use uhmi_ivi_wm.Invariant.{IsWellFormed, HasUniqueSurfaces}

-- A write to a layer that keeps its id and its surfaces' ids apart.
pub write_layer-IsWellFormed :
    (i : ℕ) (f : LayerElement → LayerElement) (s : State)
    → ((x : LayerElement) → (f x).id ≡ x.id)
    → ((l : LayerElement) → get_layer s.screens i ≡ some l → HasUniqueSurfaces (f l))
    → IsWellFormed s
    → IsWellFormed (record s { screens = update_layer i f s.screens })
write_layer-IsWellFormed i f s id_kept unique w = record {
  screens_unique =
      λ k. omega (arith, update_layer_counts k i f s.screens id_kept, w.screens_unique k);
  layers_unique =
      λ k. omega (arith, update_layer_counts k i f s.screens id_kept, w.layers_unique k);
  surfaces_unique = elim (Option-cases (get_layer s.screens i)) [
    | inl missing ↦ rw (update_layer_missing i f s.screens missing) w.surfaces_unique
    | inr (l, found) ↦
        AllLayers-update_found HasUniqueSurfaces i f s.screens l found (unique l found)
          w.surfaces_unique
  ];
  properties_unique = w.properties_unique;
}

-- Other surface properties.
pub with_properties-IsWellFormed :
    (s : State) (screens : List ScreenElement) (list : List SurfacePropertiesElement)
    → IsWellFormed (record s { screens = screens })
    → IsUnique list
    → IsWellFormed (record s { screens = screens; surface_properties = list })
with_properties-IsWellFormed s screens list w u = record {
  screens_unique = w.screens_unique;
  layers_unique = w.layers_unique;
  surfaces_unique = w.surfaces_unique;
  properties_unique = u;
}

-- The pop that finds nothing leaves room for the surface.
pub no_surface :
    (l : LayerElement) (surface_id : ℕ)
    → pop_list_element l.surfaces surface_id ≡ none
    → count surface_id l.surfaces ≡ 0
no_surface l surface_id e = rw e at (pop-PopCounts surface_id surface_id l.surfaces)

pub add_surface-IsWellFormed :
    (layer_id : ℕ) (prop : SurfaceProperties) (surface_id : ℕ) (info : InsertInfo) (s : State)
    → pop_list_element (surfaces_of (get_layer s.screens layer_id)) surface_id ≡ none
    → IsWellFormed s
    → IsWellFormed (add_surface layer_id prop surface_id info s)
unfolding add_surface
add_surface-IsWellFormed layer_id prop surface_id info s new w =
    with_properties-IsWellFormed s _ (add_surface_properties prop surface_id s.surface_properties)
      (write_layer-IsWellFormed layer_id
        (λ l. with_surfaces (insert_list_element l.surfaces (record { id = surface_id }) info) l) s
        (λ x. refl)
        (λ l found.
          IsUnique-insert l.surfaces (record { id = surface_id }) info
            (no_surface l surface_id
              (subst (λ o. pop_list_element (surfaces_of o) surface_id ≡ none) found new))
            (AllLayers-get HasUniqueSurfaces layer_id s.screens l w.surfaces_unique found))
        w)
      (IsUnique-add prop surface_id s.surface_properties w.properties_unique)

pub surfaces_of-IsUnique :
    (i : ℕ) (s : State) → IsWellFormed s → IsUnique (surfaces_of (get_layer s.screens i))
surfaces_of-IsUnique i s w = elim (Option-cases (get_layer s.screens i)) [
  | inl missing ↦ rw missing (λ k. omega arith)
  | inr (l, found) ↦
      rw found (AllLayers-get HasUniqueSurfaces i s.screens l w.surfaces_unique found)
]

-- Other surfaces for a layer.
pub set_surfaces-IsWellFormed :
    (layer_id : ℕ) (surfaces : List SurfaceElement) (s : State)
    → IsUnique surfaces
    → IsWellFormed s
    → IsWellFormed (set_surfaces layer_id surfaces s)
set_surfaces-IsWellFormed layer_id surfaces s u w =
    write_layer-IsWellFormed layer_id (with_surfaces surfaces) s (λ x. refl) (λ l found. u) w

pub remove_surface-IsWellFormed :
    (layer_id surface_id : ℕ) (s : State)
    → IsWellFormed s
    → IsWellFormed (remove_surface layer_id surface_id s)
unfolding remove_surface
remove_surface-IsWellFormed layer_id surface_id s w =
    elim (Option-cases (pop_list_element (surfaces_of (get_layer s.screens layer_id)) surface_id)) [
      | inl e ↦ rw (e, remove_surface) w
      | inr ((elm, rest), e) ↦
          rw (e, remove_surface)
            (with_properties-IsWellFormed s _
              (remove_surface_properties surface_id s.surface_properties)
              (set_surfaces-IsWellFormed layer_id rest s
                (IsUnique-rest surface_id _ elm rest e (surfaces_of-IsUnique layer_id s w)) w)
              (IsUnique-remove surface_id s.surface_properties w.properties_unique))
    ]
