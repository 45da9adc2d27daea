-- ===== src/Init/Keeps.antt =====
-- Properties of the state that building a tree keeps (app/comm_parser.c, `parse_all_in_screen` and
-- its callers).
use uhmi_ivi_wm.Base.{ℕ, String, Option, none, some}
use uhmi_ivi_wm.Exec.{Exec, Status, success, failure, visit, for_each}
use uhmi_ivi_wm.Exec.Keeps.{
  Keeps, Keeps-pure, Keeps-gets, Keeps-exit, Keeps-fault, Keeps-if, Keeps-bind, Keeps-and_then,
  Keeps-modify,
}
use uhmi_ivi_wm.Json.Documents.{
  Part, PartIfAny, whole, Keeps-for_each_element, Keeps-visit_elements, target-Part, screens-Part,
  layers-Part, surfaces-Part,
}
use uhmi_ivi_wm.InsertOrder.{InsertInfo}
use uhmi_ivi_wm.State.{State}
use uhmi_ivi_wm.Wrapper.{wrap_ilm_screen_exists, wrap_ilm_set_notification_callback}
use uhmi_ivi_wm.Wrapper.Keeps.{
  Keeps-wrap_ilm_screen_exists, Keeps-wrap_ilm_set_notification_callback,
}
use uhmi_ivi_wm.Json.{
  CmdType, get_json_string_value, parse_version, parse_hostname, parse_target, parse_screens,
  parse_layers, parse_surfaces, elements_or_none,
}
use uhmi_ivi_wm.Store.{remove_all}
use uhmi_ivi_wm.Decide.{decide_add_or_update_layer, decide_add_or_update_surface}
use uhmi_ivi_wm.Commands.{send_screen}
use uhmi_ivi_wm.Commands.Keeps.{StepsKeep, Keeps-send_screen}
use uhmi_ivi_wm.Init.{
  ensure_screen, init_layer, init_screen, parse_all_in_screen, init_target, then_parse,
  parse_init_json_config, then_notify, parse_init_screen_command, load,
}
use uhmi_ivi_wm.Env.{Env}

-- The steps that build and drop a tree.
pub record BuildKeep {J : Type 0} (env : Env J) (root : Option J) (P F : State → Type 0)
    : Type 0 where
  pub version_text :
      (j : Option J)
      → Part env.jansson root j
      → Keeps P F (get_json_string_value env.jansson {S = State} j "version" 32)
  pub hostname_text :
      (j : Option J)
      → Part env.jansson root j
      → Keeps P F (get_json_string_value env.jansson {S = State} j "hostname" 32)
  pub command_text :
      (j : Option J)
      → Part env.jansson root j
      → Keeps P F (get_json_string_value env.jansson {S = State} j "command" 16)
  pub screen_ensured : (i : ℕ) (s : State) → P s → P (ensure_screen i s)
  pub all_removed : (s : State) → P s → P (remove_all s)

module _ {J : Type 0} (env : Env J) {root : Option J} {P F : State → Type 0}
    (k : StepsKeep env root P F) (b : BuildKeep env root P F) where
  decide_layer :
      (screen_id : ℕ) (j : Option J) (layer_id : ℕ) (info : InsertInfo)
      → Keeps P F (decide_add_or_update_layer env screen_id j layer_id CmdType.add info)
  decide_layer = k.layer

  decide_surface :
      (layer_id : ℕ) (j : Option J) (surface_id : ℕ) (info : InsertInfo)
      → Keeps P F (decide_add_or_update_surface env layer_id j surface_id CmdType.add info)
  decide_surface = k.surface

  screen_sent : (i : ℕ) → Keeps P F (send_screen env i)
  screen_sent = Keeps-send_screen env k.sends

  screen_exists : (i : ℕ) → Keeps P F (wrap_ilm_screen_exists env.ilm i)
  screen_exists = Keeps-wrap_ilm_screen_exists env.ilm k.sends.quiet

  callback_set : Keeps P F (wrap_ilm_set_notification_callback env.ilm)
  callback_set = Keeps-wrap_ilm_set_notification_callback env.ilm k.sends.quiet

  for_each_kept :
      (o : Option (Option J)) (body : J → Exec State Status)
      → PartIfAny env.jansson root o
      → ((x : J) → Part env.jansson root (some x) → Keeps P F (body x))
      → Keeps P F (for_each (elements_or_none env.jansson o) body)
  for_each_kept o = Keeps-for_each_element env.jansson root o

  visit_kept :
      (o : Option (Option J)) (body : J → Exec State (Unit {0}))
      → PartIfAny env.jansson root o
      → ((x : J) → Part env.jansson root (some x) → Keeps P F (body x))
      → Keeps P F (visit (elements_or_none env.jansson o) body)
  visit_kept o = Keeps-visit_elements env.jansson root o

  target_in :
      (j : Option J)
      → Part env.jansson root j
      → PartIfAny env.jansson root (parse_target env.jansson j)
  target_in = target-Part env.jansson root

  screens_in :
      (j : Option J)
      → Part env.jansson root j
      → PartIfAny env.jansson root (parse_screens env.jansson j)
  screens_in = screens-Part env.jansson root

  layers_in :
      (j : Option J)
      → Part env.jansson root j
      → PartIfAny env.jansson root (parse_layers env.jansson j)
  layers_in = layers-Part env.jansson root

  surfaces_in :
      (j : Option J)
      → Part env.jansson root j
      → PartIfAny env.jansson root (parse_surfaces env.jansson j)
  surfaces_in = surfaces-Part env.jansson root

  ruleset build_rules = (
    Keeps-pure, Keeps-gets, Keeps-exit, Keeps-fault, Keeps-if, Keeps-bind, Keeps-and_then,
    decide_layer, decide_surface, screen_sent, screen_exists, callback_set, for_each_kept,
    visit_kept, target_in, screens_in, layers_in, surfaces_in,
  )

  Keeps-init_layer :
      (i : ℕ) (j : Option J) → Part env.jansson root j → Keeps P F (init_layer env i j)
  unfolding init_layer
  Keeps-init_layer i j part = search build_rules depth 12

  Keeps-init_screen :
      (j : Option J) (i : ℕ) → Part env.jansson root j → Keeps P F (init_screen env j i)
  unfolding init_screen
  Keeps-init_screen j i part =
      Keeps-bind _ _ (Keeps-modify _ (b.screen_ensured i))
        (λ _. search (build_rules, Keeps-init_layer) depth 12)

  pub Keeps-parse_all_in_screen :
      (j : Option J) → Part env.jansson root j → Keeps P F (parse_all_in_screen env j)
  unfolding parse_all_in_screen
  Keeps-parse_all_in_screen j part = search (build_rules, Keeps-init_screen) depth 12

  pub Keeps-parse_version :
      (j : Option J) → Part env.jansson root j → Keeps P F (parse_version env.jansson {S = State} j)
  unfolding parse_version
  Keeps-parse_version j part = Keeps-bind _ _ (b.version_text j part) (λ val. Keeps-pure _)

  Keeps-parse_hostname :
      (host : String) (j : Option J)
      → Part env.jansson root j
      → Keeps P F (parse_hostname env.jansson {S = State} host j)
  unfolding parse_hostname
  Keeps-parse_hostname host j part = Keeps-bind _ _ (b.hostname_text j part) (λ val. Keeps-pure _)

  Keeps-then_parse :
      (j : Option J) (r : Status) → Part env.jansson root j → Keeps P F (then_parse env j r)
  Keeps-then_parse j success part = Keeps-parse_all_in_screen j part
  Keeps-then_parse j failure part = Keeps-pure success

  Keeps-init_target : (j : Option J) → Part env.jansson root j → Keeps P F (init_target env j)
  unfolding init_target
  Keeps-init_target j part = search (build_rules, Keeps-parse_hostname, Keeps-then_parse)

  pub Keeps-load : (o : Option J) → Part env.jansson root o → Keeps P F (load env o)
  Keeps-load (some j) part = search (build_rules, Keeps-parse_version, Keeps-init_target) depth 12
  Keeps-load none part = Keeps-pure failure

  Keeps-then_notify : (r : Status) → Keeps P F (then_notify env r)
  Keeps-then_notify success = search build_rules
  Keeps-then_notify failure = Keeps-pure failure

  pub Keeps-parse_init_screen_command :
      (j : Option J) → Part env.jansson root j → Keeps P F (parse_init_screen_command env j)
  unfolding parse_init_screen_command
  Keeps-parse_init_screen_command j part = Keeps-bind _ _ (Keeps-parse_version j part) (λ _.
      Keeps-bind _ _ (Keeps-modify _ b.all_removed)
        (λ _. Keeps-bind _ _ (Keeps-parse_all_in_screen j part) Keeps-then_notify))

-- The file's document is the one that the steps are about.
pub Keeps-parse_init_json_config :
    {J : Type 0} (env : Env J) {P F : State → Type 0} (path : String)
    → StepsKeep env (env.jansson.json_load_file path) P F
    → BuildKeep env (env.jansson.json_load_file path) P F
    → Keeps P F (parse_init_json_config env path)
unfolding parse_init_json_config
Keeps-parse_init_json_config env path k b =
    Keeps-load env k b (env.jansson.json_load_file path) whole
