-- ===== src/Scene/Placement.antt =====
-- `decide_add_or_update_layer` and `decide_add_or_update_surface` of app/comm_parser.c, in the scene.
use uhmi_ivi_wm.Base.{
  ℕ, ◌≡◌, refl, sym, ap, ◌∙◌, subst, List, [], map, Option, none, some, ◌⊎◌, inl, inr, Option-cases,
}
use uhmi_ivi_wm.Exec.{◌>>=◌}
use uhmi_ivi_wm.Exec.Keeps.{Keeps, Holds}
use uhmi_ivi_wm.InsertOrder.{InsertInfo}
use uhmi_ivi_wm.ElementList.{pop_list_element, get_list_element, insert_list_element, number_has_id}
use uhmi_ivi_wm.ElementList.Count.{PopCounts, pop-PopCounts}
use uhmi_ivi_wm.Tree.{
  SurfaceElement, LayerElement, ScreenElement, surface_has_id, screen_has_id, layer_has_id,
  surface_properties_has_id, update_element, get_layer, pop_layer, update_layer,
}
use uhmi_ivi_wm.Tree.Layers.{LayerPop, pop_layer-LayerPop, AllLayers-get, update_layer_missing}
use uhmi_ivi_wm.State.{State}
use uhmi_ivi_wm.Wrapper.{wrap_ilm_set_layer, wrap_ilm_set_surface}
use uhmi_ivi_wm.Properties.{LayerProperties, SurfaceProperties}
use uhmi_ivi_wm.Wrapper.Keeps.{Keeps-wrap_ilm_set_layer, Keeps-wrap_ilm_set_surface}
use uhmi_ivi_wm.Json.{CmdType}
use uhmi_ivi_wm.Store.{insert_layer, add_layer, add_surface, with_surfaces, surfaces_of}
use uhmi_ivi_wm.Decide.{
  add_new_layer, update_popped_layer, decide_add_or_update_layer, parsed_layer, add_new_surface,
  update_popped_surface, decide_add_or_update_surface,
}
use uhmi_ivi_wm.Invariant.{IsWellFormed, HasUniqueSurfaces}
use uhmi_ivi_wm.Env.{Env}
use uhmi_ivi_wm.Scene.{
  Scene, view, screen_view, layer_view, removing, surfaces_on, place_layer, on_layer, place_surface,
  take_surface,
}
use uhmi_ivi_wm.Scene.Queue.{PopRemoves, pop-PopRemoves, removing_absent, map-removing, map-insert}
use uhmi_ivi_wm.Scene.Layers.{
  dropped, LayerPopDrops, pop_layer-LayerPopDrops, surfaces_on-view, view-place_layer,
}
use uhmi_ivi_wm.Scene.Surfaces.{update_layer-found, update_layer_unseen, update_layer-on_layer}

module _ {J : Type 0} (env : Env J) where
  -- However it ends, from a state in which no id stands twice, the layer has left the screen that it
  -- stood on and has come, with the surfaces that it had, to the place in the screen that the order
  -- says, and nothing else has moved on any screen.
  pub decide_add_or_update_layer-places :
      (screen_id : ℕ) (j : Option J) (layer_id : ℕ) (type : CmdType) (info : InsertInfo) (s : State)
      → IsWellFormed s
      → Holds
          (λ t. view t ≡ place_layer screen_id layer_id info (view s))
          (λ t. view t ≡ place_layer screen_id layer_id info (view s))
          (decide_add_or_update_layer env screen_id j layer_id type info s)
  unfolding decide_add_or_update_layer add_new_layer update_popped_layer add_layer ◌>>=◌
  decide_add_or_update_layer-places screen_id j layer_id type info s w =
      let popped = pop_layer-LayerPopDrops layer_id s.screens (w.layers_unique layer_id) in
      elim (Option-cases (pop_layer s.screens layer_id)) [
        | inl e ↦
            rw (e, decide_add_or_update_layer)
              (let p : LayerPopDrops layer_id s.screens none = rw e at popped in
                (set _ layer_id).at _ (
                  onto (record { id = layer_id; prop = _; surfaces = [] }) s.screens (sym p.0) refl
                    (sym (
                      surfaces_on-view layer_id s.screens
                      ∙ ap (λ o. map (λ x. x.id) (surfaces_of o)) p.1))))
        | inr ((l, screens), e) ↦
            rw (e, decide_add_or_update_layer)
              (let p : LayerPopDrops layer_id s.screens (some (l, screens)) = rw e at popped in
                let named : LayerPop 0 layer_id HasUniqueSurfaces s.screens (some (l, screens)) =
                  rw e at
                    (pop_layer-LayerPop 0 layer_id HasUniqueSurfaces s.screens w.surfaces_unique) in
                (set _ layer_id).at _ (
                  onto (record l { prop = parsed_layer env l.prop j type }) screens p.0 named.1
                    (sym (
                      surfaces_on-view layer_id s.screens
                      ∙ ap (λ o. map (λ x. x.id) (surfaces_of o)) p.1))))
      ]
    where
      onto :
          (l : LayerElement) (ys : List ScreenElement)
          → ys ≡ map (dropped layer_id) s.screens
          → l.id ≡ layer_id
          → map (λ x. x.id) l.surfaces ≡ surfaces_on layer_id (view s)
          → map screen_view (update_element screen_id (insert_layer l info) ys)
            ≡ place_layer screen_id layer_id info (view s)
      onto l ys left named same =
          let left' : ys ≡ map (dropped l.id) s.screens =
            left ∙ ap (λ i. map (dropped i) s.screens) (sym named) in
          ap (λ zs. map screen_view (update_element screen_id (insert_layer l info) zs)) left'
          ∙ (view-place_layer screen_id l info s.screens (w.screens_unique screen_id)
                (same ∙ ap (λ i. surfaces_on i (view s)) (sym named))
              ∙ ap (λ i. place_layer screen_id i info (view s)) named)

      set :
          (prop : LayerProperties) (i : ℕ)
          → Keeps
              (λ t. view t ≡ place_layer screen_id layer_id info (view s))
              (λ t. view t ≡ place_layer screen_id layer_id info (view s))
              (wrap_ilm_set_layer env.ilm prop i)
      set prop i = Keeps-wrap_ilm_set_layer env.ilm (λ c t p. p) (λ c t q fails p. p) prop i

-- Writes to the surfaces of one layer, from a state in which no id stands twice.
module _ (layer_id surface_id : ℕ) (s : State) (w : IsWellFormed s) where
  write_seen :
      (f g : LayerElement → LayerElement) (fs : List ℕ → List ℕ)
      → ((l : LayerElement) → get_layer s.screens layer_id ≡ some l → f l ≡ g l)
      → ((l : LayerElement)
          → layer_view (g l) ≡ record { id = l.id; surfaces = fs (map (λ x. x.id) l.surfaces) })
      → map screen_view (update_layer layer_id f s.screens) ≡ on_layer layer_id fs (view s)
  write_seen f g fs same shows = elim (Option-cases (get_layer s.screens layer_id)) [
    | inl e ↦
        ap (map screen_view) (
          update_layer_missing layer_id f s.screens e
          ∙ sym (update_layer_missing layer_id g s.screens e))
        ∙ update_layer-on_layer layer_id fs g shows s.screens (w.layers_unique layer_id)
    | inr (l, e) ↦
        ap (map screen_view) (update_layer-found layer_id f g s.screens l e (same l e))
        ∙ update_layer-on_layer layer_id fs g shows s.screens (w.layers_unique layer_id)
  ]

  -- What a pop of the surface from the layer that is found leaves.
  found_pop :
      (o : Option (SurfaceElement × List SurfaceElement)) (l : LayerElement)
      → pop_list_element (surfaces_of (get_layer s.screens layer_id)) surface_id ≡ o
      → get_layer s.screens layer_id ≡ some l
      → PopRemoves surface_id l.surfaces o
  found_pop o l e found =
      let unique = AllLayers-get HasUniqueSurfaces layer_id s.screens l w.surfaces_unique found in
      subst (PopRemoves surface_id l.surfaces) (rw found at e)
        (pop-PopRemoves surface_id l.surfaces (unique surface_id))

  pub take_seen :
      (elm : SurfaceElement) (rest : List SurfaceElement)
      → pop_list_element (surfaces_of (get_layer s.screens layer_id)) surface_id ≡ some (elm, rest)
      → map screen_view (update_layer layer_id (with_surfaces rest) s.screens)
        ≡ take_surface layer_id surface_id (view s)
  take_seen elm rest e =
      write_seen (with_surfaces rest) (λ l. with_surfaces (removing surface_id l.surfaces) l)
        (removing surface_id)
        (λ l found. ap (λ xs. with_surfaces xs l) (found_pop (some (elm, rest)) l e found).0)
        (λ l.
          ap (λ ids. record { id = l.id; surfaces = ids })
            (map-removing (λ x. x.id) (λ x. refl) surface_id l.surfaces))

  -- Where the layer does not hold the surface, to take it changes nothing.
  pub take_absent :
      pop_list_element (surfaces_of (get_layer s.screens layer_id)) surface_id ≡ none
      → view s ≡ take_surface layer_id surface_id (view s)
  take_absent e =
      sym (update_layer_unseen layer_id (λ l. l) s.screens (λ l. refl))
      ∙ write_seen (λ l. l) (λ l. with_surfaces (removing surface_id l.surfaces) l)
          (removing surface_id)
          (λ l found.
            ap (λ xs. with_surfaces xs l)
              (sym (removing_absent surface_id l.surfaces (found_pop none l e found))))
          (λ l.
            ap (λ ids. record { id = l.id; surfaces = ids })
              (map-removing (λ x. x.id) (λ x. refl) surface_id l.surfaces))

  place_shows :
      (info : InsertInfo) (elm : SurfaceElement)
      → elm.id ≡ surface_id
      → (l : LayerElement)
      → layer_view (with_surfaces (insert_list_element (removing surface_id l.surfaces) elm info) l)
        ≡ record {
          id = l.id;
          surfaces =
              insert_list_element
                (removing surface_id (map (λ x. x.id) l.surfaces))
                surface_id
                info;
        }
  place_shows info elm named l =
      ap (λ ids. record { id = l.id; surfaces = ids })
        (map-insert (λ x. x.id) (λ x. refl) (removing surface_id l.surfaces) elm info
          ∙ (ap (λ ids. insert_list_element ids elm.id info)
                (map-removing (λ x. x.id) (λ x. refl) surface_id l.surfaces)
              ∙ ap
                  (λ i.
                    insert_list_element (removing surface_id (map (λ x. x.id) l.surfaces)) i info)
                  named))

  new_seen :
      (info : InsertInfo)
      → pop_list_element (surfaces_of (get_layer s.screens layer_id)) surface_id ≡ none
      → map screen_view (
          update_layer layer_id
            (λ l.
              with_surfaces (insert_list_element l.surfaces (record { id = surface_id }) info) l)
            s.screens)
        ≡ place_surface layer_id surface_id info (view s)
  new_seen info e =
      write_seen _
        (λ l.
          with_surfaces
            (insert_list_element (removing surface_id l.surfaces) (record { id = surface_id }) info)
            l)
        _
        (λ l found.
          ap (λ xs. with_surfaces (insert_list_element xs (record { id = surface_id }) info) l)
            (sym (removing_absent surface_id l.surfaces (found_pop none l e found))))
        (place_shows info (record { id = surface_id }) refl)

  popped_seen :
      (info : InsertInfo) (elm : SurfaceElement) (rest : List SurfaceElement)
      → pop_list_element (surfaces_of (get_layer s.screens layer_id)) surface_id ≡ some (elm, rest)
      → map screen_view
          (update_layer layer_id (with_surfaces (insert_list_element rest elm info)) s.screens)
        ≡ place_surface layer_id surface_id info (view s)
  popped_seen info elm rest e =
      let c : PopCounts 0 surface_id (surfaces_of (get_layer s.screens layer_id))
          (some (elm, rest)) =
        rw e at (pop-PopCounts 0 surface_id (surfaces_of (get_layer s.screens layer_id))) in
      write_seen _
        (λ l. with_surfaces (insert_list_element (removing surface_id l.surfaces) elm info) l) _
        (λ l found.
          ap (λ xs. with_surfaces (insert_list_element xs elm info) l)
            (found_pop (some (elm, rest)) l e found).0)
        (place_shows info elm c.1)

-- The surface stands where it was asked for, or, where the code reads through NULL, it is gone from the
-- layer.
abbrev pub Settles : ℕ → ℕ → InsertInfo → Scene → State → Type 0
Settles layer_id surface_id info scene t =
    (view t ≡ place_surface layer_id surface_id info scene)
    ⊎ (view t ≡ take_surface layer_id surface_id scene)

module _ {J : Type 0} (env : Env J) where
  -- However it ends, from a state in which no id stands twice, the surface has left its place in the
  -- layer and stands at the place that the order says, and nothing else has moved on any layer or
  -- screen. Where the function faults, the surface may have left the layer.
  pub decide_add_or_update_surface-places :
      (layer_id : ℕ) (j : Option J) (surface_id : ℕ) (type : CmdType) (info : InsertInfo)
      (s : State)
      → IsWellFormed s
      → Holds
          (λ t. view t ≡ place_surface layer_id surface_id info (view s))
          (Settles layer_id surface_id info (view s))
          (decide_add_or_update_surface env layer_id j surface_id type info s)
  unfolding decide_add_or_update_surface add_new_surface update_popped_surface add_surface ◌>>=◌
  decide_add_or_update_surface-places layer_id j surface_id type info s w =
      elim (Option-cases
        (pop_list_element (surfaces_of (get_layer s.screens layer_id)) surface_id)) [
          | inl e ↦
              rw (e, decide_add_or_update_surface)
                ((set _ surface_id).at _ (new_seen layer_id surface_id s w info e))
          | inr ((elm, rest), e) ↦
              elim (Option-cases (get_list_element s.surface_properties surface_id)) [
                | inl missing ↦
                    rw (e, decide_add_or_update_surface, missing, update_popped_surface)
                      (inr (take_seen layer_id surface_id s w elm rest e))
                | inr (x, listed) ↦
                    rw (e, decide_add_or_update_surface, listed, update_popped_surface)
                      ((set _ surface_id).at _
                        (popped_seen layer_id surface_id s w info elm rest e))
              ]
        ]
    where
      set :
          (prop : SurfaceProperties) (i : ℕ)
          → Keeps
              (λ t. view t ≡ place_surface layer_id surface_id info (view s))
              (Settles layer_id surface_id info (view s))
              (wrap_ilm_set_surface env.ilm prop i)
      set prop i = Keeps-wrap_ilm_set_surface env.ilm (λ c t p. p) (λ c t q fails p. inl p) prop i
