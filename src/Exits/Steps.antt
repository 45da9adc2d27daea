-- ===== src/Exits/Steps.antt =====
-- The rules for how the handlers of app/comm_parser.c end: one for each kind of step that they take.
use uhmi_ivi_wm.Base.{arith, ℕ, String, Option, none, some, ◌≡◌, refl, inl, inr, Option-cases}
use uhmi_ivi_wm.Exec.{Exec, Status, success, failure, modify}
use uhmi_ivi_wm.Exec.Exits.{Exits, Exits-pure, Exits-bind, Exits-for_each, exits_rules}
use uhmi_ivi_wm.InsertOrder.{InsertInfo}
use uhmi_ivi_wm.Properties.{LayerProperties, SurfaceProperties}
use uhmi_ivi_wm.State.{State}
use uhmi_ivi_wm.Wrapper.{
  Unit₀, wrap_ilm_set_layer, wrap_ilm_set_surface, wrap_ilm_remove_layer, wrap_ilm_remove_surface,
  wrap_ilm_screen_exists, wrap_ilm_set_notification_callback,
}
use uhmi_ivi_wm.Json.{CmdType, get_json_string_value, parse_id}
use uhmi_ivi_wm.ElementList.{pop_list_element}
use uhmi_ivi_wm.Tree.{
  LayerElement, ScreenElement, get_layer, pop_layer, update_layer, surface_has_id,
}
use uhmi_ivi_wm.Store.{
  surfaces_of, remove_layer, remove_surface, remove_all, add_screen, add_layers_to_screen,
  add_exists_surfaces_to_layer,
}
use uhmi_ivi_wm.Decide.{set_properties, decide_add_or_update_layer, decide_add_or_update_surface}
use uhmi_ivi_wm.Commands.{
  set_layer_prop, when_some, or_fail, then_send, for_each_of, with_id, send_screen, send_layer,
}
use uhmi_ivi_wm.Init.{ensure_screen}
use uhmi_ivi_wm.Parser.{init_lists}
use uhmi_ivi_wm.Env.{Env}
use uhmi_ivi_wm.Exits.Calls.{CallsEnd, changed}
use uhmi_ivi_wm.Exits.Tree.{
  Exits-add_exists_surfaces_to_layer, Exits-add_layers_to_screen, Exits-decide_add_or_update_layer,
  Exits-decide_add_or_update_surface,
}

remove_layer-calls : (i : ℕ) (s : State) → (remove_layer i s).calls ≡ s.calls
unfolding remove_layer
remove_layer-calls i s = elim (Option-cases (pop_layer s.screens i)) [
  | inl e ↦ rw (e, remove_layer) refl
  | inr (popped, e) ↦ rw (e, remove_layer) refl
]

remove_surface-calls : (i j : ℕ) (s : State) → (remove_surface i j s).calls ≡ s.calls
unfolding remove_surface
remove_surface-calls i j s =
    elim (Option-cases (pop_list_element (surfaces_of (get_layer s.screens i)) j)) [
      | inl e ↦ rw (e, remove_surface) refl
      | inr (popped, e) ↦ rw (e, remove_surface) refl
    ]

ensure_screen-calls : (i : ℕ) (s : State) → (ensure_screen i s).calls ≡ s.calls
unfolding ensure_screen add_screen
ensure_screen-calls i s = ground arith

module _ {P E : State → Type 0} where
  pub Exits-when_some :
      {A : Type 0} (body : A → Exec State Unit₀) (o : Option A)
      → ((a : A) → Exits P E (body a))
      → Exits P E (when_some body o)
  Exits-when_some body (some a) eb = eb a
  Exits-when_some body none eb = Exits-pure tt

  pub Exits-or_fail :
      {A : Type 0} (body : A → Exec State Status) (o : Option A)
      → ((a : A) → Exits P E (body a))
      → Exits P E (or_fail body o)
  Exits-or_fail body (some a) eb = eb a
  Exits-or_fail body none eb = Exits-pure failure

  pub Exits-then_send :
      (send : Exec State Unit₀) (r : Status) → Exits P E send → Exits P E (then_send send r)
  Exits-then_send send success es = Exits-bind _ _ es (λ _. Exits-pure success)
  Exits-then_send send failure es = Exits-pure failure

module _ {J : Type 0} (env : Env J) {P E : State → Type 0} (k : CallsEnd env P E) where
  open env use {jansson, ilm}

  pub Exits-for_each_of :
      (o : Option (Option J)) (body : Option J → Exec State Status)
      → ((j : Option J) → Exits P E (body j))
      → Exits P E (for_each_of env o body)
  unfolding for_each_of
  Exits-for_each_of (some array) body eb = Exits-for_each _ (λ x. body (some x)) (λ x. eb (some x))
  Exits-for_each_of none body eb = Exits-pure failure

  pub Exits-with_id :
      (j : Option J) (body : ℕ → Exec State Status)
      → ((i : ℕ) → Exits P E (body i))
      → Exits P E (with_id env j body)
  Exits-with_id j body eb = Exits-or_fail body (parse_id jansson j) eb

  pub text_read :
      (j : Option J) (key : String) (size : ℕ)
      → Exits P E (get_json_string_value jansson j key size)
  unfolding get_json_string_value
  text_read j key size = search exits_rules

  pub decide_layer :
      (screen_id : ℕ) (j : Option J) (layer_id : ℕ) (type : CmdType) (info : InsertInfo)
      → Exits P E (decide_add_or_update_layer env screen_id j layer_id type info)
  decide_layer = Exits-decide_add_or_update_layer env k

  pub decide_surface :
      (layer_id : ℕ) (j : Option J) (surface_id : ℕ) (type : CmdType) (info : InsertInfo)
      → Exits P E (decide_add_or_update_surface env layer_id j surface_id type info)
  decide_surface = Exits-decide_add_or_update_surface env k

  pub layer_set : (p : LayerProperties) (i : ℕ) → Exits P E (wrap_ilm_set_layer ilm p i)
  layer_set = k.layer_set

  pub surface_set : (p : SurfaceProperties) (i : ℕ) → Exits P E (wrap_ilm_set_surface ilm p i)
  surface_set = k.surface_set

  pub layer_removed : (i : ℕ) → Exits P E (wrap_ilm_remove_layer ilm i)
  layer_removed = k.layer_removed

  pub surface_removed : (i j : ℕ) → Exits P E (wrap_ilm_remove_surface ilm i j)
  surface_removed = k.surface_removed

  pub screen_exists : (i : ℕ) → Exits P E (wrap_ilm_screen_exists ilm i)
  screen_exists = k.screen_exists

  pub callback_set : Exits P E (wrap_ilm_set_notification_callback ilm)
  callback_set = k.callback_set

  pub layer_out : (i : ℕ) → Exits P E (modify (remove_layer i))
  layer_out i = changed k _ (remove_layer-calls i)

  pub surface_out : (i j : ℕ) → Exits P E (modify (remove_surface i j))
  surface_out i j = changed k _ (remove_surface-calls i j)

  pub all_out : Exits P E (modify remove_all)
  unfolding remove_all
  all_out = changed k _ (λ s. refl)

  pub lists_initialized : Exits P E (modify init_lists)
  lists_initialized = changed k _ (λ s. refl)

  pub layer_prop_changed :
      (i : ℕ) (prop : LayerProperties)
      → Exits P E
          (modify (λ s. record s { screens = update_layer i (set_layer_prop prop) s.screens }))
  layer_prop_changed i prop = changed k _ (λ s. refl)

  pub surface_prop_changed :
      (i : ℕ) (prop : SurfaceProperties) → Exits P E (modify (set_properties i prop))
  surface_prop_changed i prop = changed k _ (λ s. refl)

  pub screen_in : (i : ℕ) → Exits P E (modify (add_screen i))
  unfolding add_screen
  screen_in i = changed k _ (λ s. refl)

  pub screen_ensured : (i : ℕ) → Exits P E (modify (ensure_screen i))
  screen_ensured i = changed k _ (ensure_screen-calls i)

  pub layers_sent : (s : ScreenElement) → Exits P E (add_layers_to_screen ilm s)
  layers_sent = Exits-add_layers_to_screen env k

  pub surfaces_sent : (l : LayerElement) → Exits P E (add_exists_surfaces_to_layer ilm l)
  surfaces_sent = Exits-add_exists_surfaces_to_layer env k

  pub Exits-send_screen : (i : ℕ) → Exits P E (send_screen env i)
  unfolding send_screen
  Exits-send_screen i = search (exits_rules, Exits-when_some, layers_sent)

  pub Exits-send_layer : (i : ℕ) → Exits P E (send_layer env i)
  unfolding send_layer
  Exits-send_layer i = search (exits_rules, Exits-when_some, surfaces_sent)

  pub ruleset handler_rules = (
    exits_rules, Exits-when_some, Exits-or_fail, Exits-then_send, Exits-for_each_of, Exits-with_id,
    text_read, layer_set, surface_set, layer_removed, surface_removed, screen_exists, callback_set,
    layer_out, surface_out, all_out, layer_prop_changed, surface_prop_changed, screen_ensured,
    decide_layer, decide_surface, Exits-send_screen, Exits-send_layer,
  )
