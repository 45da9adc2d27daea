-- ===== src/Commands/Keeps.antt =====
-- Properties of the state that the handlers of app/comm_parser.c keep: an interface of the facts
-- about single steps, and the rules for whole handlers that follow from it.
use uhmi_ivi_wm.Base.{ℕ, Option, none, some}
use uhmi_ivi_wm.Exec.{Exec, Status, success, failure}
use uhmi_ivi_wm.Exec.Keeps.{
  Keeps, Keeps-pure, Keeps-gets, Keeps-bind, Keeps-modify, Keeps-for_each, keeps_rules,
}
use uhmi_ivi_wm.InsertOrder.{InsertInfo}
use uhmi_ivi_wm.Properties.{LayerProperties, SurfaceProperties}
use uhmi_ivi_wm.Tree.{LayerElement, update_layer}
use uhmi_ivi_wm.State.{State}
use uhmi_ivi_wm.Wrapper.{Unit₀, wrap_ilm_set_layer, wrap_ilm_set_surface}
use uhmi_ivi_wm.Wrapper.Keeps.{
  IsQuiet, Answers, Keeps-wrap_ilm_set_layer, Keeps-wrap_ilm_set_surface,
}
use uhmi_ivi_wm.Json.{
  CmdType, get_json_string_value, parse_insert_info, parse_id, parse_screens, parse_layers,
  parse_surfaces,
}
use uhmi_ivi_wm.Json.Documents.{
  Part, PartIfAny, Keeps-for_each_element, screens-Part, layers-Part, surfaces-Part,
}
use uhmi_ivi_wm.Store.Keeps.{Keeps-add_exists_surfaces_to_layer, Keeps-add_layers_to_screen}
use uhmi_ivi_wm.Store.{remove_layer, remove_surface}
use uhmi_ivi_wm.Decide.{set_properties, decide_add_or_update_layer, decide_add_or_update_surface}
use uhmi_ivi_wm.Commands.{
  when_some, or_fail, then_send, set_layer_prop, for_each_of, with_id, send_screen, send_layer,
  add_layers, parse_add_layer_command, modify_layer, parse_modify_layer_command, add_surfaces,
  parse_add_surface_command, modify_surface, parse_modify_surface_command,
}
use uhmi_ivi_wm.Env.{Env}

-- What the handlers that add and modify read and send, on the values of a document. `F` holds where a
-- step faults.
pub record SendsKeep {J : Type 0} (env : Env J) (root : Option J) (P F : State → Type 0)
    : Type 0 where
  pub quiet : IsQuiet P
  pub answers : Answers env.ilm P F
  pub order_text :
      (j : Option J)
      → Part env.jansson root j
      → Keeps P F (get_json_string_value env.jansson {S = State} j "insert_order" 32)

-- What they do to the lists.
abbrev pub LayersKeep : {J : Type 0} → Env J → (P F : State → Type 0) → Type 0
LayersKeep {J} env P F =
    (screen_id : ℕ) (j : Option J) (layer_id : ℕ) (info : InsertInfo)
    → Keeps P F (decide_add_or_update_layer env screen_id j layer_id CmdType.add info)

abbrev pub SurfacesKeep : {J : Type 0} → Env J → (P F : State → Type 0) → Type 0
SurfacesKeep {J} env P F =
    (layer_id : ℕ) (j : Option J) (surface_id : ℕ) (info : InsertInfo)
    → Keeps P F (decide_add_or_update_surface env layer_id j surface_id CmdType.add info)

abbrev pub LayerPropKeeps : (State → Type 0) → Type 0
LayerPropKeeps P =
    (i : ℕ) (prop : LayerProperties) (s : State)
    → P s
    → P (record s { screens = update_layer i (set_layer_prop prop) s.screens })

abbrev pub SurfacePropKeeps : (State → Type 0) → Type 0
SurfacePropKeeps P =
    (i : ℕ) (prop : SurfaceProperties) (s : State) → P s → P (set_properties i prop s)

pub record StepsKeep {J : Type 0} (env : Env J) (root : Option J) (P F : State → Type 0)
    : Type 0 where
  pub sends : SendsKeep env root P F
  pub layer : LayersKeep env P F
  pub surface : SurfacesKeep env P F
  pub layer_prop : LayerPropKeeps P
  pub surface_prop : SurfacePropKeeps P

-- The steps that remove.
pub record RemovalsKeep (P : State → Type 0) : Type 0 where
  pub layer_removed : (i : ℕ) (s : State) → P s → P (remove_layer i s)
  pub surface_removed : (i k : ℕ) (s : State) → P s → P (remove_surface i k s)

module _ {P F : State → Type 0} where
  Keeps-when_some :
      {A : Type 0} (body : A → Exec State Unit₀) (o : Option A)
      → ((a : A) → Keeps P F (body a))
      → Keeps P F (when_some body o)
  Keeps-when_some body (some a) kb = kb a
  Keeps-when_some body none kb = Keeps-pure tt

  Keeps-or_fail :
      {A : Type 0} (body : A → Exec State Status) (o : Option A)
      → ((a : A) → Keeps P F (body a))
      → Keeps P F (or_fail body o)
  Keeps-or_fail body (some a) kb = kb a
  Keeps-or_fail body none kb = Keeps-pure failure

  Keeps-then_send :
      (send : Exec State Unit₀) (r : Status) → Keeps P F send → Keeps P F (then_send send r)
  Keeps-then_send send success ks = Keeps-bind _ _ ks (λ _. Keeps-pure success)
  Keeps-then_send send failure ks = Keeps-pure failure

module _ {J : Type 0} (env : Env J) {P F : State → Type 0} where
  pub Keeps-for_each_of :
      (o : Option (Option J)) (body : Option J → Exec State Status)
      → ((j : Option J) → Keeps P F (body j))
      → Keeps P F (for_each_of env o body)
  unfolding for_each_of
  Keeps-for_each_of (some array) body kb = Keeps-for_each _ (λ x. body (some x)) (λ x. kb (some x))
  Keeps-for_each_of none body kb = Keeps-pure failure

  Keeps-for_each-Part :
      (root : Option J) (o : Option (Option J)) (body : Option J → Exec State Status)
      → PartIfAny env.jansson root o
      → ((j : Option J) → Part env.jansson root j → Keeps P F (body j))
      → Keeps P F (for_each_of env o body)
  unfolding for_each_of
  Keeps-for_each-Part root (some array) body part kb =
      Keeps-for_each_element env.jansson root (some array) (λ x. body (some x)) part
        (λ x. kb (some x))
  Keeps-for_each-Part root none body part kb = Keeps-pure failure

  pub Keeps-with_id :
      (j : Option J) (body : ℕ → Exec State Status)
      → ((i : ℕ) → Keeps P F (body i))
      → Keeps P F (with_id env j body)
  Keeps-with_id j body kb = Keeps-or_fail body (parse_id env.jansson j) kb

module _ {J : Type 0} (env : Env J) {root : Option J} {P F : State → Type 0}
    (k : SendsKeep env root P F) where
  for_each_kept :
      (o : Option (Option J)) (body : Option J → Exec State Status)
      → PartIfAny env.jansson root o
      → ((j : Option J) → Part env.jansson root j → Keeps P F (body j))
      → Keeps P F (for_each_of env o body)
  for_each_kept = Keeps-for_each-Part env root

  screens_in :
      (j : Option J)
      → Part env.jansson root j
      → PartIfAny env.jansson root (parse_screens env.jansson j)
  screens_in = screens-Part env.jansson root

  layers_in :
      (j : Option J)
      → Part env.jansson root j
      → PartIfAny env.jansson root (parse_layers env.jansson j)
  layers_in = layers-Part env.jansson root

  surfaces_in :
      (j : Option J)
      → Part env.jansson root j
      → PartIfAny env.jansson root (parse_surfaces env.jansson j)
  surfaces_in = surfaces-Part env.jansson root

  id_kept :
      (j : Option J) (body : ℕ → Exec State Status)
      → ((i : ℕ) → Keeps P F (body i))
      → Keeps P F (with_id env j body)
  id_kept = Keeps-with_id env

  set_layer : (p : LayerProperties) (i : ℕ) → Keeps P F (wrap_ilm_set_layer env.ilm p i)
  set_layer p i = Keeps-wrap_ilm_set_layer env.ilm k.quiet k.answers p i

  set_surface : (p : SurfaceProperties) (i : ℕ) → Keeps P F (wrap_ilm_set_surface env.ilm p i)
  set_surface p i = Keeps-wrap_ilm_set_surface env.ilm k.quiet k.answers p i

  pub Keeps-send_screen : (i : ℕ) → Keeps P F (send_screen env i)
  unfolding send_screen
  Keeps-send_screen i =
      Keeps-bind _ _ (Keeps-gets _)
        (λ o. Keeps-when_some _ o (Keeps-add_layers_to_screen env.ilm k.quiet k.answers))

  pub Keeps-send_layer : (i : ℕ) → Keeps P F (send_layer env i)
  unfolding send_layer
  Keeps-send_layer i =
      Keeps-bind _ _ (Keeps-gets _)
        (λ o. Keeps-when_some _ o (Keeps-add_exists_surfaces_to_layer env.ilm k.quiet k.answers))

  ruleset handler_rules = (
    keeps_rules, for_each_kept, id_kept, Keeps-then_send, Keeps-send_screen, Keeps-send_layer,
    Keeps-when_some, Keeps-or_fail, screens_in, layers_in, surfaces_in,
  )

  Keeps-parse_insert_info :
      (info : InsertInfo) (j : Option J)
      → Part env.jansson root j
      → Keeps P F (parse_insert_info env.jansson info j)
  unfolding parse_insert_info
  Keeps-parse_insert_info info j part = Keeps-bind _ _ (k.order_text j part) (λ val. Keeps-pure _)

  module _ (layer : LayersKeep env P F) where
    Keeps-add_layers :
        (j : Option J) (screen_id : ℕ) (info : InsertInfo)
        → Part env.jansson root j
        → Keeps P F (add_layers env j screen_id info)
    unfolding add_layers
    Keeps-add_layers j screen_id info part = search (handler_rules, layer) depth 12

    pub Keeps-parse_add_layer_command :
        (j : Option J) → Part env.jansson root j → Keeps P F (parse_add_layer_command env j)
    unfolding parse_add_layer_command
    Keeps-parse_add_layer_command j part =
        search (handler_rules, Keeps-parse_insert_info, Keeps-add_layers) depth 12

  module _ (surface : SurfacesKeep env P F) where
    Keeps-add_surfaces :
        (j : Option J) (layer_id : ℕ) (info : InsertInfo)
        → Part env.jansson root j
        → Keeps P F (add_surfaces env j layer_id info)
    unfolding add_surfaces
    Keeps-add_surfaces j layer_id info part = search (handler_rules, surface) depth 12

    pub Keeps-parse_add_surface_command :
        (j : Option J) → Part env.jansson root j → Keeps P F (parse_add_surface_command env j)
    unfolding parse_add_surface_command
    Keeps-parse_add_surface_command j part =
        search (handler_rules, Keeps-parse_insert_info, Keeps-add_surfaces) depth 12

  module _ (layer_prop : LayerPropKeeps P) where
    Keeps-modify_layer :
        (j : Option J) (layer_id : ℕ) (l : LayerElement) → Keeps P F (modify_layer env j layer_id l)
    unfolding modify_layer
    Keeps-modify_layer j layer_id l =
        Keeps-bind _ _ (Keeps-modify _ (layer_prop layer_id _)) (λ _. set_layer _ layer_id)

    pub Keeps-parse_modify_layer_command :
        (j : Option J) → Part env.jansson root j → Keeps P F (parse_modify_layer_command env j)
    unfolding parse_modify_layer_command
    Keeps-parse_modify_layer_command j part = search (handler_rules, Keeps-modify_layer) depth 12

  module _ (surface_prop : SurfacePropKeeps P) where
    Keeps-modify_surface :
        (j : Option J) (surface_id : ℕ) (prop : SurfaceProperties)
        → Keeps P F (modify_surface env j surface_id prop)
    unfolding modify_surface
    Keeps-modify_surface j surface_id prop =
        Keeps-bind _ _ (Keeps-modify _ (surface_prop surface_id _)) (λ _. set_surface _ surface_id)

    pub Keeps-parse_modify_surface_command :
        (j : Option J) → Part env.jansson root j → Keeps P F (parse_modify_surface_command env j)
    unfolding parse_modify_surface_command
    Keeps-parse_modify_surface_command j part =
        search (handler_rules, Keeps-modify_surface) depth 12
