-- ===== src/Safety/Commands.antt =====
-- No command faults from a state in which every surface that a layer holds is registered, and only
-- the commands that remove can leave one that is not (app/comm_parser.c).
use Prim.Native.String.{len}
use uhmi_ivi_wm.Base.{
  ℕ, ◌<◌, ◌≡◌, String, Option, none, some, true, false, arith, ltb, is_some, inl, inr, ◌⊎◌,
  Bool-cases, str_eq, eq_iff, ◌≢◌,
}
use uhmi_ivi_wm.Exec.{Exec, Status, Outcome, returned, exited, faulted}
use uhmi_ivi_wm.Exec.Keeps.{
  Keeps, Holds, Never, Keeps-pure, Keeps-bind, Keeps-if, Keeps-else, Holds-bind, Anything,
}
use uhmi_ivi_wm.Properties.{LayerProperties}
use uhmi_ivi_wm.ElementList.{get_list_element}
use uhmi_ivi_wm.Tree.{update_layer, screen_has_id}
use uhmi_ivi_wm.Tree.Layers.{AllLayers-update_layer}
use uhmi_ivi_wm.State.{State}
use uhmi_ivi_wm.Wrapper.Keeps.{IsQuiet, Answers}
use uhmi_ivi_wm.Json.{CmdType, get_json_string_value, parse_command}
use uhmi_ivi_wm.Store.{remove_all}
use uhmi_ivi_wm.Commands.{set_layer_prop}
use uhmi_ivi_wm.Commands.Keeps.{
  StepsKeep, RemovalsKeep, Keeps-parse_add_surface_command, Keeps-parse_modify_surface_command,
  Keeps-parse_add_layer_command, Keeps-parse_modify_layer_command,
}
use uhmi_ivi_wm.Commands.Removals.{
  Keeps-parse_remove_surface_command, Keeps-parse_remove_layer_command,
}
use uhmi_ivi_wm.Init.{ensure_screen}
use uhmi_ivi_wm.Init.Keeps.{BuildKeep, Keeps-parse_version, Keeps-parse_init_screen_command}
use uhmi_ivi_wm.Parser.{ignore, dispatch, dispatch_if_named, parser_parse_recv_command}
use uhmi_ivi_wm.Json.Documents.{Part, whole}
use uhmi_ivi_wm.Env.{Env}
use uhmi_ivi_wm.Safety.{ListedIn, IsRegistered, HasShortTexts, AnswersQueries}
use uhmi_ivi_wm.Safety.Steps.{set_properties-IsRegistered, add_screen-IsRegistered}
use uhmi_ivi_wm.Safety.Decide.{
  IsRegistered-quiet, Answers-Never, decide_add_or_update_layer-IsRegistered,
  decide_add_or_update_surface-IsRegistered,
}

layer_prop-IsRegistered :
    (i : ℕ) (prop : LayerProperties) (s : State)
    → IsRegistered s
    → IsRegistered (record s { screens = update_layer i (set_layer_prop prop) s.screens })
layer_prop-IsRegistered i prop s r = record {
  listed =
      AllLayers-update_layer (ListedIn s.surface_properties) i (set_layer_prop prop) s.screens
        (λ l a. a) r.listed;
}

ensure_screen-IsRegistered : (i : ℕ) (s : State) → IsRegistered s → IsRegistered (ensure_screen i s)
unfolding ensure_screen
ensure_screen-IsRegistered i s r = elim (Bool-cases (is_some (get_list_element s.screens i))) [
  | inl e ↦ rw e r
  | inr e ↦ rw e (add_screen-IsRegistered i s r)
]

-- An empty tree holds no surface.
remove_all-IsRegistered : (s : State) → IsRegistered (remove_all s)
unfolding remove_all
remove_all-IsRegistered s = record { listed = tt }

pub fits_ltb : (a b : ℕ) → a < b → ltb a b ≡ true
fits_ltb a b h = ground arith

-- Every state will do for a removal: it looks nothing up that must be there.
any_removals : RemovalsKeep Anything
any_removals = record { layer_removed = λ i s u. tt; surface_removed = λ i k s u. tt }

text_cases : (x y : String) → (x ≡ y) ⊎ (x ≢ y)
text_cases x y = elim (Bool-cases (str_eq x y)) [
  | inl e ↦ inl ((eq_iff x y).0 e)
  | inr e ↦ inr (λ p. cc (e, (eq_iff x y).1 p))
]

weaken : (o : Outcome State (Unit {0})) → Holds IsRegistered Never o → Holds Anything Never o
weaken (returned u s) h = tt
weaken (exited s) h = tt
weaken (faulted s) h = h

module _ {J : Type 0} (env : Env J) (a : AnswersQueries env.ilm) (root : Option J)
    (t : HasShortTexts env.jansson root) where
  open env use {jansson}

  get_json_string_value-Never :
      (P : State → Type 0) (j : Option J) (key : String) (size : ℕ)
      → len (jansson.json_string_value (jansson.json_object_get j key)) < size
      → Keeps P Never (get_json_string_value jansson {S = State} j key size)
  unfolding get_json_string_value
  get_json_string_value-Never P j key size fits = record {
    at = λ s p.
        ground
          (arith, fits_ltb (len (jansson.json_string_value (jansson.json_object_get j key))) size);
  }

  pub steps : StepsKeep env root IsRegistered Never
  steps = record {
    sends = record {
      quiet = IsRegistered-quiet;
      answers = Answers-Never env a IsRegistered;
      order_text = λ j part.
          get_json_string_value-Never IsRegistered j "insert_order" 32 (t.order_fits j part);
    };
    layer = λ screen_id j layer_id info.
        decide_add_or_update_layer-IsRegistered env a screen_id j layer_id CmdType.add info;
    surface = λ layer_id j surface_id info.
        decide_add_or_update_surface-IsRegistered env a layer_id j surface_id CmdType.add info;
    layer_prop = layer_prop-IsRegistered;
    surface_prop = set_properties-IsRegistered;
  }

  pub builds : BuildKeep env root IsRegistered Never
  builds = record {
    version_text =
        λ j part. get_json_string_value-Never IsRegistered j "version" 32 (t.version_fits j part);
    hostname_text =
        λ j part. get_json_string_value-Never IsRegistered j "hostname" 32 (t.hostname_fits j part);
    command_text =
        λ j part. get_json_string_value-Never IsRegistered j "command" 16 (t.command_fits j part);
    screen_ensured = ensure_screen-IsRegistered;
    all_removed = λ s r. remove_all-IsRegistered s;
  }

  Keeps-ignore :
      (P : State → Type 0) (m : Exec State Status) → Keeps P Never m → Keeps P Never (ignore m)
  Keeps-ignore P m km = Keeps-bind m _ km (λ _. Keeps-pure tt)

  -- A command that does not remove neither faults nor leaves a surface without properties in a
  -- layer, if there was none, if no text of its document is too long for its buffer, and if libilm
  -- answers queries.
  pub dispatch-IsRegistered :
      (cmd_name : String) (j : Option J)
      → Part env.jansson root j
      → cmd_name ≢ "remove_surface"
      → cmd_name ≢ "remove_layer"
      → Keeps IsRegistered Never (dispatch env cmd_name j)
  unfolding dispatch
  dispatch-IsRegistered cmd_name j part not_surface not_layer =
      Keeps-if _ _ _ (keep (Keeps-parse_add_surface_command env steps.sends steps.surface j part)) (
        Keeps-else _ _ _ (other "remove_surface" not_surface) (
          Keeps-if _ _ _
            (keep (Keeps-parse_modify_surface_command env steps.sends steps.surface_prop j part))
            (Keeps-if _ _ _
              (keep (Keeps-parse_add_layer_command env steps.sends steps.layer j part))
              (Keeps-else _ _ _ (other "remove_layer" not_layer) (
                Keeps-if _ _ _
                  (keep (Keeps-parse_modify_layer_command env steps.sends steps.layer_prop j part))
                  (Keeps-if _ _ _ (keep (Keeps-parse_init_screen_command env steps builds j part))
                    (Keeps-pure tt)))))))
    where
      keep :
          {m : Exec State Status} → Keeps IsRegistered Never m → Keeps IsRegistered Never (ignore m)
      keep {m} km = Keeps-ignore IsRegistered m km

      other : (name : String) → cmd_name ≢ name → str_eq name cmd_name ≡ false
      other name ne = ground (arith, eq_iff name cmd_name)

  -- The commands that remove, from any state.
  removal_safe :
      (cmd_name : String) (j : Option J) (s : State)
      → (cmd_name ≡ "remove_surface") ⊎ (cmd_name ≡ "remove_layer")
      → Holds Anything Never (dispatch env cmd_name j s)
  unfolding dispatch
  removal_safe cmd_name j s (inl e) = rw e (
      (Keeps-ignore Anything _
          (Keeps-parse_remove_surface_command env quiet answers any_removals.surface_removed j)).at
        s tt)
    where
      quiet : IsQuiet Anything
      quiet c t u = tt

      answers : Answers env.ilm Anything Never
      answers = Answers-Never env a Anything
  removal_safe cmd_name j s (inr e) = rw e (
      (Keeps-ignore Anything _
          (Keeps-parse_remove_layer_command env quiet answers any_removals.layer_removed j)).at
        s tt)
    where
      quiet : IsQuiet Anything
      quiet c t u = tt

      answers : Answers env.ilm Anything Never
      answers = Answers-Never env a Anything

  dispatch_safe :
      (cmd_name : String) (j : Option J)
      → Part env.jansson root j
      → (s : State) → IsRegistered s
      → Holds Anything Never (dispatch env cmd_name j s)
  dispatch_safe cmd_name j part s r = elim (text_cases cmd_name "remove_surface") [
    | inl e ↦ removal_safe cmd_name j s (inl e)
    | inr not_surface ↦ elim (text_cases cmd_name "remove_layer") [
      | inl e ↦ removal_safe cmd_name j s (inr e)
      | inr not_layer ↦
          weaken _ ((dispatch-IsRegistered cmd_name j part not_surface not_layer).at s r)
    ]
  ]

  dispatch_if_named_safe :
      (j : Option J)
      → Part env.jansson root j
      → (o : Option String) (s : State) → IsRegistered s
      → Holds Anything Never (dispatch_if_named env j o s)
  dispatch_if_named_safe j part (some cmd_name) s r = dispatch_safe cmd_name j part s r
  dispatch_if_named_safe j part none s r = tt

-- No message makes the handler of commands fault, where every surface that a layer holds has
-- properties, no text of the message is too long for its buffer, and libilm answers queries.
pub parser_parse_recv_command_safe :
    {J : Type 0} (env : Env J) (msg : String) (s : State)
    → AnswersQueries env.ilm
    → HasShortTexts env.jansson (env.jansson.json_loads msg)
    → IsRegistered s
    → Holds Anything Never (parser_parse_recv_command env msg s)
unfolding parser_parse_recv_command parse_command
parser_parse_recv_command_safe env msg s a short r =
    let k = steps env a _ short in
    let b = builds env a _ short in
    Holds-bind IsRegistered Anything Never _ _ s (λ t p. tt)
      ((Keeps-parse_version env k b _ whole).at s r)
      (λ u t p.
        Holds-bind IsRegistered Anything Never _ _ t (λ t p. tt) ((b.command_text _ whole).at t p)
          (dispatch_if_named_safe env a _ short _ whole))
