-- ===== src/Decide/Surfaces.antt =====
-- Where `decide_add_or_update_surface` of app/comm_parser.c puts a surface.
use uhmi_ivi_wm.Base.{ℕ, ◌≡◌, refl, List, Option, none, some, arith, inl, inr, Option-cases}
use uhmi_ivi_wm.Exec.{◌>>=◌}
use uhmi_ivi_wm.Exec.Keeps.{Keeps, Holds}
use uhmi_ivi_wm.Properties.{SurfaceProperties}
use uhmi_ivi_wm.InsertOrder.{InsertInfo}
use uhmi_ivi_wm.ElementList.{pop_list_element, get_list_element, insert_list_element}
use uhmi_ivi_wm.ElementList.Count.{count-get_none, PopCounts, pop-PopCounts}
use uhmi_ivi_wm.Tree.{
  SurfaceElement, LayerElement, get_layer, surface_has_id, surface_properties_has_id,
}
use uhmi_ivi_wm.Tree.Lookup.{get_layer-update_same}
use uhmi_ivi_wm.State.{State}
use uhmi_ivi_wm.Wrapper.{wrap_ilm_set_surface}
use uhmi_ivi_wm.Wrapper.Keeps.{IsQuiet, Keeps-wrap_ilm_set_surface}
use uhmi_ivi_wm.Json.{CmdType}
use uhmi_ivi_wm.Store.{rest_or, with_surfaces, add_surface}
use uhmi_ivi_wm.Decide.{add_new_surface, update_popped_surface, decide_add_or_update_surface}
use uhmi_ivi_wm.Env.{Env}
use uhmi_ivi_wm.Safety.{IsRegistered}
use uhmi_ivi_wm.Safety.Steps.{popped_is_listed}

-- The layer's surfaces are `others` with the surface inserted as `info` says, and it is otherwise
-- as it was.
pub record IsHolding (old : LayerElement) (surface_id : ℕ) (info : InsertInfo)
    (others : List SurfaceElement) (t : State) : Type 0 where
  pub surface : SurfaceElement
  pub named : surface.id ≡ surface_id
  pub found :
      get_layer t.screens old.id
      ≡ some (with_surfaces (insert_list_element others surface info) old)

-- The surfaces of the layer but for the one with the id.
abbrev pub surfaces_without : ℕ → LayerElement → List SurfaceElement
surfaces_without i l = rest_or l.surfaces (pop_list_element l.surfaces i)

module _ (old : LayerElement) (surface_id : ℕ) (info : InsertInfo)
    (others : List SurfaceElement) where
  IsHolding-quiet : IsQuiet (IsHolding old surface_id info others)
  IsHolding-quiet c t h = record { surface = h.surface; named = h.named; found = h.found }

module _ {J : Type 0} (env : Env J) (j : Option J) (surface_id : ℕ) (type : CmdType)
    (info : InsertInfo) (s : State) (l : LayerElement) (e : get_layer s.screens l.id ≡ some l) where
  abbrev Holding : State → Type 0
  Holding = IsHolding l surface_id info (surfaces_without surface_id l)

  sent :
      (prop : SurfaceProperties)
      → Keeps Holding Holding (wrap_ilm_set_surface env.ilm prop surface_id)
  sent prop =
      Keeps-wrap_ilm_set_surface env.ilm (IsHolding-quiet l surface_id info _)
        (λ c t q fails h. IsHolding-quiet l surface_id info _ c t h) prop surface_id

  new_surface-IsHolding :
      pop_list_element l.surfaces surface_id ≡ none
      → Holds Holding Holding (add_new_surface env l.id j surface_id type info s)
  unfolding add_new_surface add_surface ◌>>=◌
  new_surface-IsHolding p = (sent _).at _ (record {
    surface = record { id = surface_id };
    named = refl;
    found = rw p (get_layer-update_same l.id _ s.screens l (λ y. refl) e);
  })

  popped_surface-IsHolding :
      (elm : SurfaceElement) (rest : List SurfaceElement)
      → pop_list_element l.surfaces surface_id ≡ some (elm, rest)
      → IsRegistered s
      → Holds Holding Holding (update_popped_surface env l.id j surface_id type info elm rest s)
  unfolding update_popped_surface ◌>>=◌
  popped_surface-IsHolding elm rest p r =
      elim (Option-cases (get_list_element s.surface_properties surface_id)) [
        | inl missing ↦ absurd (
            omega (
              arith,
              count-get_none surface_id s.surface_properties missing,
              popped_is_listed l.id surface_id elm rest s (rw e p) r,
            ))
        | inr (x, found) ↦
            let c : PopCounts 0 surface_id l.surfaces (some (elm, rest)) =
              rw p at (pop-PopCounts 0 surface_id l.surfaces) in
            rw (found, update_popped_surface)
              ((sent _).at _ (record {
                surface = elm;
                named = c.1;
                found = rw p (get_layer-update_same l.id _ s.screens l (λ y. refl) e);
              }))
      ]

  -- For a layer in the tree, however it ends, the layer's surfaces are then its other surfaces
  -- with this surface inserted as the order given says, and the layer is otherwise as it was, if
  -- every surface that a layer holds has properties. (With no order, `insert_list_element` leaves
  -- it out.)
  pub decide_add_or_update_surface-IsHolding :
      IsRegistered s
      → Holds Holding Holding (decide_add_or_update_surface env l.id j surface_id type info s)
  unfolding decide_add_or_update_surface
  decide_add_or_update_surface-IsHolding r =
      elim (Option-cases (pop_list_element l.surfaces surface_id)) [
        | inl p ↦ rw (e, p, decide_add_or_update_surface) (rw p at (new_surface-IsHolding p))
        | inr ((elm, rest), p) ↦
            rw (e, p, decide_add_or_update_surface)
              (rw p at (popped_surface-IsHolding elm rest p r))
      ]
