-- ===== src/Safety/Start.antt =====
-- The program of app/ from its start on, as long as no command removes: no step has undefined
-- behaviour.
use Prim.Native.String.{len}
use uhmi_ivi_wm.Base.{◌≢◌, String, Option, none, some, inl, inr, Bool-cases, subst, sym}
use uhmi_ivi_wm.Exec.{Outcome, returned, exited, faulted, ◌>>=◌}
use uhmi_ivi_wm.Exec.Keeps.{
  Keeps, Holds, Never, Keeps-bind, Keeps-pure, Keeps-gets, Keeps-if, Keeps-visit, Keeps-modify,
  Holds-bind,
}
use uhmi_ivi_wm.Tree.Layers.{AllLayers}
use uhmi_ivi_wm.State.{State}
use uhmi_ivi_wm.Store.{add_screen}
use uhmi_ivi_wm.Wrapper.Keeps.{
  Keeps-wrap_ilm_set_notification_callback, Keeps-wrap_ilm_get_screen_ids,
}
use uhmi_ivi_wm.Json.{parse_command, get_json_string_value}
use uhmi_ivi_wm.Init.{init_default_config}
use uhmi_ivi_wm.Init.Keeps.{Keeps-parse_init_json_config, Keeps-parse_version}
use uhmi_ivi_wm.Parser.{
  init_lists, load_config, parser_init, parser_parse_recv_command, dispatch_if_named,
}
use uhmi_ivi_wm.Json.Documents.{whole}
use uhmi_ivi_wm.Env.{Env}
use uhmi_ivi_wm.Safety.{ListedIn, IsRegistered, HasShortTexts, HasShortConfig, AnswersQueries}
use uhmi_ivi_wm.Safety.Steps.{add_screen-IsRegistered}
use uhmi_ivi_wm.Safety.Decide.{IsRegistered-quiet}
use uhmi_ivi_wm.Safety.Commands.{fits_ltb, steps, builds, dispatch-IsRegistered}
use uhmi_ivi_wm.Safety.Notification.{HasLists}

module _ {J : Type 0} (env : Env J) where
  open env use {jansson}

  -- What the message gives for a command's name.
  abbrev pub name_in : String → String
  name_in msg =
      jansson.json_string_value (jansson.json_object_get (jansson.json_loads msg) "command")

module _ {J : Type 0} (env : Env J) (a : AnswersQueries env.ilm) where
  open env use {jansson, ilm}

  default_built : Keeps IsRegistered Never (init_default_config env)
  unfolding init_default_config
  default_built =
      Keeps-bind _ _ (Keeps-wrap_ilm_get_screen_ids ilm IsRegistered-quiet)
        (λ ids. Keeps-visit ids _ (λ i. Keeps-modify (add_screen i) (add_screen-IsRegistered i)))

  config_loaded :
      (path : Option String)
      → HasShortConfig jansson path
      → Keeps IsRegistered Never (load_config env path)
  config_loaded (some p) t =
      Keeps-bind _ _ (Keeps-parse_init_json_config env p (steps env a _ t) (builds env a _ t))
        (λ _. Keeps-pure tt)
  config_loaded none t = Keeps-pure tt

  -- From any state, with or without a configuration file, the start does not fault and leaves
  -- properties for every surface that a layer holds, if no text of the file is too long for its
  -- buffer and libilm answers queries.
  pub parser_init-IsRegistered :
      (path : Option String) (s : State)
      → HasShortConfig jansson path
      → Holds IsRegistered Never (parser_init env path s)
  unfolding parser_init ◌>>=◌
  parser_init-IsRegistered path s t =
      (Keeps-bind _ _ (config_loaded path t) (λ _.
          Keeps-bind _ _
            (Keeps-bind _ _ (Keeps-gets _) (λ e. Keeps-if e _ _ default_built (Keeps-pure tt)))
            (λ _. Keeps-wrap_ilm_set_notification_callback ilm IsRegistered-quiet))).at
        (init_lists s) (record { listed = tt })

  named_dispatch :
      (msg : String) (s : State)
      → HasShortTexts jansson (jansson.json_loads msg)
      → name_in env msg ≢ "remove_surface"
      → name_in env msg ≢ "remove_layer"
      → IsRegistered s
      → Holds IsRegistered Never (
          (parse_command jansson (jansson.json_loads msg)
              >>= dispatch_if_named env (jansson.json_loads msg))
            s)
  unfolding parse_command get_json_string_value ◌>>=◌
  named_dispatch msg s t n1 n2 r =
      elim (Bool-cases
        (jansson.json_is_string (jansson.json_object_get (jansson.json_loads msg) "command"))) [
          | inl e ↦
              rw
                (
                  e,
                  parse_command,
                  get_json_string_value,
                  fits_ltb (len (name_in env msg)) 16
                      (t.command_fits (jansson.json_loads msg) whole),
                )
                ((dispatch-IsRegistered env a _ t (name_in env msg) (jansson.json_loads msg) whole
                    n1 n2).at
                  s r)
          | inr e ↦ rw (e, parse_command, get_json_string_value) r
        ]

  pub growth :
      (msg : String) (s : State)
      → HasShortTexts jansson (jansson.json_loads msg)
      → name_in env msg ≢ "remove_surface"
      → name_in env msg ≢ "remove_layer"
      → IsRegistered s
      → Holds IsRegistered Never (parser_parse_recv_command env msg s)
  unfolding parser_parse_recv_command
  growth msg s t n1 n2 r =
      Holds-bind IsRegistered IsRegistered Never _ _ s (λ t p. p)
        ((Keeps-parse_version env (steps env a _ t) (builds env a _ t) (jansson.json_loads msg)
            whole).at
          s r)
        (λ u s' r'. named_dispatch msg s' t n1 n2 r')

lists-IsRegistered :
    (s t : State) → HasLists s.screens s.surface_properties t → IsRegistered s → IsRegistered t
lists-IsRegistered s t same r = record {
  listed =
      subst (λ screens. AllLayers (ListedIn t.surface_properties) screens) (sym same.1)
        (subst (λ list. AllLayers (ListedIn list) s.screens) (sym same.0) r.listed);
}

pub outcome-IsRegistered :
    (s : State) (o : Outcome State (Unit {0}))
    → Holds (HasLists s.screens s.surface_properties) Never o
    → IsRegistered s
    → Holds IsRegistered Never o
outcome-IsRegistered s (returned u t) h r = lists-IsRegistered s t h r
outcome-IsRegistered s (exited t) h r = lists-IsRegistered s t h r
outcome-IsRegistered s (faulted t) h r = h
