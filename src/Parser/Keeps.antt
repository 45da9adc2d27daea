-- ===== src/Parser/Keeps.antt =====
-- Properties of the state that the functions of app/comm_parser.h keep.
use uhmi_ivi_wm.Base.{ℕ, String, Option, none, some}
use uhmi_ivi_wm.Exec.{Exec, Status}
use uhmi_ivi_wm.Exec.Keeps.{
  Keeps, Keeps-pure, Keeps-gets, Keeps-bind, Keeps-if, Keeps-visit, Keeps-fault, keeps_rules,
}
use uhmi_ivi_wm.Tree.{LayerElement, SurfacePropertiesElement}
use uhmi_ivi_wm.State.{State}
use uhmi_ivi_wm.Ilm.{IlmCall}
use uhmi_ivi_wm.Wrapper.{call}
use uhmi_ivi_wm.Wrapper.Keeps.{IsQuiet, Answers, Keeps-call, Keeps-wrap_ilm_set_surface}
use uhmi_ivi_wm.Store.Keeps.{Keeps-add_exists_surfaces_to_layer}
use uhmi_ivi_wm.Json.{parse_command}
use uhmi_ivi_wm.Json.Documents.{Part, whole}
use uhmi_ivi_wm.Commands.Keeps.{
  StepsKeep, RemovalsKeep, Keeps-parse_add_surface_command, Keeps-parse_modify_surface_command,
  Keeps-parse_add_layer_command, Keeps-parse_modify_layer_command,
}
use uhmi_ivi_wm.Commands.Removals.{
  Keeps-parse_remove_surface_command, Keeps-parse_remove_layer_command,
}
use uhmi_ivi_wm.Init.Keeps.{BuildKeep, Keeps-parse_version, Keeps-parse_init_screen_command}
use uhmi_ivi_wm.Parser.{
  ignore, dispatch, dispatch_if_named, parser_parse_recv_command, notify_layer, notify_surface,
  parser_add_ivi_surface_by_event_notification, add_notification,
  wrap_ilm_set_surface_add_notification,
}
use uhmi_ivi_wm.Env.{Env}

module _ {J : Type 0} (env : Env J) {root : Option J} {P F : State → Type 0}
    (k : StepsKeep env root P F) (r : RemovalsKeep P) (b : BuildKeep env root P F) where
  Keeps-ignore : (m : Exec State Status) → Keeps P F m → Keeps P F (ignore m)
  Keeps-ignore m km = Keeps-bind m _ km (λ _. Keeps-pure tt)

  Keeps-dispatch :
      (cmd_name : String) (j : Option J)
      → Part env.jansson root j
      → Keeps P F (dispatch env cmd_name j)
  unfolding dispatch
  Keeps-dispatch cmd_name j part =
      Keeps-if _ _ _ (Keeps-ignore _ (Keeps-parse_add_surface_command env k.sends k.surface j part))
        (Keeps-if _ _ _
          (Keeps-ignore _ (
            Keeps-parse_remove_surface_command env k.sends.quiet k.sends.answers r.surface_removed
              j))
          (Keeps-if _ _ _
            (Keeps-ignore _ (Keeps-parse_modify_surface_command env k.sends k.surface_prop j part))
            (Keeps-if _ _ _
              (Keeps-ignore _ (Keeps-parse_add_layer_command env k.sends k.layer j part))
              (Keeps-if _ _ _
                (Keeps-ignore _ (
                  Keeps-parse_remove_layer_command env k.sends.quiet k.sends.answers r.layer_removed
                    j))
                (Keeps-if _ _ _
                  (Keeps-ignore _
                    (Keeps-parse_modify_layer_command env k.sends k.layer_prop j part))
                  (Keeps-if _ _ _ (Keeps-ignore _ (Keeps-parse_init_screen_command env k b j part))
                    (Keeps-pure tt)))))))

  Keeps-dispatch_if_named :
      (j : Option J)
      → Part env.jansson root j
      → (o : Option String) → Keeps P F (dispatch_if_named env j o)
  Keeps-dispatch_if_named j part (some cmd_name) = Keeps-dispatch cmd_name j part
  Keeps-dispatch_if_named j part none = Keeps-pure tt

-- The message's document is the one that the steps are about.
pub Keeps-parser_parse_recv_command :
    {J : Type 0} (env : Env J) {P F : State → Type 0} (msg : String)
    → StepsKeep env (env.jansson.json_loads msg) P F
    → RemovalsKeep P
    → BuildKeep env (env.jansson.json_loads msg) P F
    → Keeps P F (parser_parse_recv_command env msg)
unfolding parser_parse_recv_command parse_command
Keeps-parser_parse_recv_command env msg k r b =
    Keeps-bind _ _ (Keeps-parse_version env k b _ whole)
      (λ _. Keeps-bind _ _ (b.command_text _ whole) (Keeps-dispatch_if_named env k r b _ whole))

module _ {J : Type 0} (env : Env J) {P F : State → Type 0} (quiet : IsQuiet P) where
  -- A notification visits each layer.
  pub Keeps-parser_add_ivi_surface_by_event_notification :
      (surface_id : ℕ)
      → ((l : LayerElement) → Keeps P F (notify_layer env surface_id l))
      → Keeps P F (parser_add_ivi_surface_by_event_notification env surface_id)
  unfolding parser_add_ivi_surface_by_event_notification
  Keeps-parser_add_ivi_surface_by_event_notification surface_id layer_kept =
      Keeps-bind _ _ (Keeps-gets _) (λ screens.
        Keeps-visit screens _ (λ screen_elm. Keeps-visit screen_elm.layers _ layer_kept))

  called : (c : IlmCall) → Keeps P F (call env.ilm c)
  called = Keeps-call env.ilm quiet

  Keeps-add_notification : (id : ℕ) → Keeps P F (add_notification env id)
  unfolding add_notification
  Keeps-add_notification id = search (keeps_rules, called) depth 10

  pub Keeps-wrap_ilm_set_surface_add_notification :
      (id : ℕ) → Keeps P F (wrap_ilm_set_surface_add_notification env id)
  unfolding wrap_ilm_set_surface_add_notification
  Keeps-wrap_ilm_set_surface_add_notification id = search (keeps_rules, Keeps-add_notification)

-- A notification keeps what recorded calls do not change, wherever it ends.
module _ {J : Type 0} (env : Env J) {P : State → Type 0} (quiet : IsQuiet P)
    (answers : Answers env.ilm P P) where
  Keeps-notify_surface :
      (l : LayerElement) (i : ℕ) (o : Option SurfacePropertiesElement)
      → Keeps P P (notify_surface env l i o)
  Keeps-notify_surface l i none = Keeps-fault
  Keeps-notify_surface l i (some elm) =
      Keeps-bind _ _ (Keeps-wrap_ilm_set_surface env.ilm quiet answers elm.prop i)
        (λ _. Keeps-add_exists_surfaces_to_layer env.ilm quiet answers l)

  Keeps-notify_layer : (i : ℕ) (l : LayerElement) → Keeps P P (notify_layer env i l)
  unfolding notify_layer
  Keeps-notify_layer i l = search (keeps_rules, Keeps-notify_surface)

  pub Keeps-notification :
      (surface_id : ℕ) → Keeps P P (parser_add_ivi_surface_by_event_notification env surface_id)
  Keeps-notification surface_id =
      Keeps-parser_add_ivi_surface_by_event_notification env quiet surface_id
        (Keeps-notify_layer surface_id)
