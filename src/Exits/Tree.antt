-- ===== src/Exits/Tree.antt =====
-- How the functions of app/comm_parser.c that send the tree, place a layer or a surface, or answer
-- a notification end, whatever the calls of libilm keep.
use uhmi_ivi_wm.Base.{refl, ℕ, List, [], ◌∷◌, Option, none, some, inl, inr, Option-cases}
use uhmi_ivi_wm.Exec.Exits.{Exits, Exits-pure, Exits-fault, Exits-bind, exits_rules}
use uhmi_ivi_wm.InsertOrder.{InsertInfo}
use uhmi_ivi_wm.ElementList.{pop_list_element, get_list_element}
use uhmi_ivi_wm.Tree.{
  SurfaceElement, LayerElement, ScreenElement, SurfacePropertiesElement, get_layer, pop_layer,
  surface_has_id, surface_properties_has_id,
}
use uhmi_ivi_wm.State.{State}
use uhmi_ivi_wm.Json.{CmdType}
use uhmi_ivi_wm.Store.{
  surfaces_of, add_layer, add_surface, existing_surfaces, add_exists_surfaces_to_layer,
  add_layers_to_screen,
}
use uhmi_ivi_wm.Decide.{
  add_new_layer, update_popped_layer, decide_add_or_update_layer, add_new_surface,
  update_popped_surface, decide_add_or_update_surface,
}
use uhmi_ivi_wm.Parser.{
  notify_surface, notify_layer, parser_add_ivi_surface_by_event_notification,
  wrap_ilm_set_surface_add_notification,
}
use uhmi_ivi_wm.Env.{Env}
use uhmi_ivi_wm.Exits.Calls.{CallsEnd, changed}

module _ {J : Type 0} (env : Env J) {P E : State → Type 0} (k : CallsEnd env P E) where
  open env use {ilm}

  Exits-existing_surfaces : (xs : List SurfaceElement) → Exits P E (existing_surfaces ilm xs)
  unfolding existing_surfaces
  Exits-existing_surfaces [] = Exits-pure []
  Exits-existing_surfaces (x ∷ xs) =
      Exits-bind _ _ (k.surface_exists x.id)
        (λ e. Exits-bind _ _ (Exits-existing_surfaces xs) (λ ids. Exits-pure _))

  pub Exits-add_exists_surfaces_to_layer :
      (l : LayerElement) → Exits P E (add_exists_surfaces_to_layer ilm l)
  unfolding add_exists_surfaces_to_layer
  Exits-add_exists_surfaces_to_layer l =
      search (exits_rules, Exits-existing_surfaces, k.surface_order_sent)

  pub Exits-add_layers_to_screen : (s : ScreenElement) → Exits P E (add_layers_to_screen ilm s)
  unfolding add_layers_to_screen
  Exits-add_layers_to_screen s =
      search (exits_rules, k.layer_set, Exits-add_exists_surfaces_to_layer, k.layer_order_sent)
        depth 10

  Exits-add_new_layer :
      (screen_id : ℕ) (j : Option J) (layer_id : ℕ) (type : CmdType) (info : InsertInfo)
      → Exits P E (add_new_layer env screen_id j layer_id type info)
  unfolding add_new_layer add_layer
  Exits-add_new_layer screen_id j layer_id type info = record {
    at = λ s h.
        (Exits-bind _ _ (changed k _ (λ t. refl))
            (λ u. Exits-bind _ _ (changed k _ (λ t. refl)) (λ v. k.layer_set _ layer_id))).at
          s h;
  }

  pub Exits-decide_add_or_update_layer :
      (screen_id : ℕ) (j : Option J) (layer_id : ℕ) (type : CmdType) (info : InsertInfo)
      → Exits P E (decide_add_or_update_layer env screen_id j layer_id type info)
  unfolding decide_add_or_update_layer update_popped_layer
  Exits-decide_add_or_update_layer screen_id j layer_id type info = record {
    at = λ s h. elim (Option-cases (pop_layer s.screens layer_id)) [
      | inl e ↦
          rw (e, decide_add_or_update_layer)
            ((Exits-add_new_layer screen_id j layer_id type info).at s h)
      | inr ((l, screens), e) ↦
          rw (e, decide_add_or_update_layer)
            ((Exits-bind _ _ (changed k _ (λ t. refl)) (λ u. k.layer_set _ layer_id)).at s h)
    ];
  }

  Exits-add_new_surface :
      (layer_id : ℕ) (j : Option J) (surface_id : ℕ) (type : CmdType) (info : InsertInfo)
      → Exits P E (add_new_surface env layer_id j surface_id type info)
  unfolding add_new_surface add_surface
  Exits-add_new_surface layer_id j surface_id type info = record {
    at = λ s h.
        (Exits-bind _ _ (changed k _ (λ t. refl))
            (λ u. Exits-bind _ _ (changed k _ (λ t. refl)) (λ v. k.surface_set _ surface_id))).at
          s h;
  }

  Exits-update_popped_surface :
      (layer_id : ℕ) (j : Option J) (surface_id : ℕ) (type : CmdType) (info : InsertInfo)
      (elm : SurfaceElement) (rest : List SurfaceElement)
      → Exits P E (update_popped_surface env layer_id j surface_id type info elm rest)
  unfolding update_popped_surface
  Exits-update_popped_surface layer_id j surface_id type info elm rest = record {
    at = λ s h. elim (Option-cases (get_list_element s.surface_properties surface_id)) [
      | inl e ↦
          rw (e, update_popped_surface)
            ((Exits-bind _ _ (changed k _ (λ t. refl)) (λ u. Exits-fault)).at s h)
      | inr (x, e) ↦
          rw (e, update_popped_surface)
            ((Exits-bind _ _ (changed k _ (λ t. refl)) (λ u.
                Exits-bind _ _ (changed k _ (λ t. refl)) (λ v. k.surface_set _ surface_id))).at
              s h)
    ];
  }

  pub Exits-decide_add_or_update_surface :
      (layer_id : ℕ) (j : Option J) (surface_id : ℕ) (type : CmdType) (info : InsertInfo)
      → Exits P E (decide_add_or_update_surface env layer_id j surface_id type info)
  unfolding decide_add_or_update_surface
  Exits-decide_add_or_update_surface layer_id j surface_id type info = record {
    at = λ s h.
        elim (Option-cases
          (pop_list_element (surfaces_of (get_layer s.screens layer_id)) surface_id)) [
            | inl e ↦
                rw (e, decide_add_or_update_surface)
                  ((Exits-add_new_surface layer_id j surface_id type info).at s h)
            | inr ((elm, rest), e) ↦
                rw (e, decide_add_or_update_surface)
                  ((Exits-update_popped_surface layer_id j surface_id type info elm rest).at s h)
          ];
  }

  Exits-notify_surface :
      (l : LayerElement) (i : ℕ) (o : Option SurfacePropertiesElement)
      → Exits P E (notify_surface env l i o)
  Exits-notify_surface l i none = Exits-fault
  Exits-notify_surface l i (some elm) =
      Exits-bind _ _ (k.surface_set elm.prop i) (λ u. Exits-add_exists_surfaces_to_layer l)

  Exits-notify_layer : (i : ℕ) (l : LayerElement) → Exits P E (notify_layer env i l)
  unfolding notify_layer
  Exits-notify_layer i l = search (exits_rules, Exits-notify_surface)

  pub Exits-parser_add_ivi_surface_by_event_notification :
      (id : ℕ) → Exits P E (parser_add_ivi_surface_by_event_notification env id)
  unfolding parser_add_ivi_surface_by_event_notification
  Exits-parser_add_ivi_surface_by_event_notification id =
      search (exits_rules, Exits-notify_layer) depth 10

  pub Exits-wrap_ilm_set_surface_add_notification :
      (id : ℕ) → Exits P E (wrap_ilm_set_surface_add_notification env id)
  unfolding wrap_ilm_set_surface_add_notification
  Exits-wrap_ilm_set_surface_add_notification id = search (exits_rules, k.notification_added)
