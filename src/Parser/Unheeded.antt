-- ===== src/Parser/Unheeded.antt =====
-- The messages that `parser_parse_recv_command` of app/comm_parser.c takes no notice of.
use Prim.Native.String.{len}
use uhmi_ivi_wm.Base.{
  ◌≡◌, ◌≢◌, ◌⊎◌, refl, String, List, [], ◌∷◌, Option, some, false, inl, inr, Bool-cases, str_eq,
  eq_iff, arith, All,
}
use uhmi_ivi_wm.Exec.{Status, failure, returned, ◌>>=◌}
use uhmi_ivi_wm.State.{State}
use uhmi_ivi_wm.Json.{text_matches, parse_command, parse_version, get_json_string_value}
use uhmi_ivi_wm.Parser.{dispatch, dispatch_if_named, parser_parse_recv_command}
use uhmi_ivi_wm.Json.Documents.{whole}
use uhmi_ivi_wm.Env.{Env}
use uhmi_ivi_wm.Safety.{HasShortTexts}
use uhmi_ivi_wm.Safety.Commands.{fits_ltb}
use uhmi_ivi_wm.Safety.Start.{name_in}

-- The commands that there are.
abbrev pub command_names : List String
command_names =
    "add_surface" ∷ "remove_surface" ∷ "modify_surface" ∷ "add_layer" ∷ "remove_layer"
    ∷ "modify_layer" ∷ "initial_screen" ∷ []

not_equal : (x y : String) → x ≢ y → str_eq y x ≡ false
not_equal x y ne = ground (arith, eq_iff y x)

module _ {J : Type 0} (env : Env J) where
  open env use {jansson}

  dispatch_unknown :
      (cmd_name : String) (j : Option J) (s : State)
      → All (λ name. cmd_name ≢ name) command_names
      → dispatch env cmd_name j s ≡ returned tt s
  unfolding dispatch
  dispatch_unknown cmd_name j s (n1, (n2, (n3, (n4, (n5, (n6, (n7, u))))))) =
      rw
        (
          dispatch,
          not_equal cmd_name _ n1,
          not_equal cmd_name _ n2,
          not_equal cmd_name _ n3,
          not_equal cmd_name _ n4,
          not_equal cmd_name _ n5,
          not_equal cmd_name _ n6,
          not_equal cmd_name _ n7,
        )
        refl

  -- The message has no text for a command (`none` where it is no JSON at all), or one that is no
  -- command's name.
  abbrev pub IsUnheeded : String → Type 0
  IsUnheeded msg =
      (jansson.json_is_string (jansson.json_object_get (jansson.json_loads msg) "command") ≡ false)
      ⊎ All (λ name. name_in env msg ≢ name) command_names

  command_unheeded :
      (msg : String) (s : State)
      → HasShortTexts jansson (jansson.json_loads msg)
      → IsUnheeded msg
      → (parse_command jansson (jansson.json_loads msg)
            >>= dispatch_if_named env (jansson.json_loads msg))
          s
        ≡ returned tt s
  unfolding parse_command get_json_string_value ◌>>=◌
  command_unheeded msg s t (inl e) = rw (e, parse_command, get_json_string_value) refl
  command_unheeded msg s t (inr unknown) =
      elim (Bool-cases
        (jansson.json_is_string (jansson.json_object_get (jansson.json_loads msg) "command"))) [
          | inl e ↦
              rw
                (
                  e,
                  parse_command,
                  get_json_string_value,
                  fits_ltb (len (name_in env msg)) 16
                      (t.command_fits (jansson.json_loads msg) whole),
                )
                (dispatch_unknown (name_in env msg) (jansson.json_loads msg) s unknown)
          | inr e ↦ rw (e, parse_command, get_json_string_value) refl
        ]

  version_read :
      (j : Option J) (s : State)
      → HasShortTexts jansson j
      → (status : Status) × (parse_version jansson j s ≡ returned status s)
  unfolding parse_version get_json_string_value ◌>>=◌
  version_read j s t =
      elim (Bool-cases (jansson.json_is_string (jansson.json_object_get j "version"))) [
        | inl e ↦ (
          text_matches jansson "1.0.0"
              (some (jansson.json_string_value (jansson.json_object_get j "version"))),
          rw
              (
                e,
                parse_version,
                fits_ltb (len (jansson.json_string_value (jansson.json_object_get j "version"))) 32
                    (t.version_fits j whole),
              )
              refl,
        )
        | inr e ↦ (failure, rw (e, parse_version) refl)
      ]

  -- A message that is no JSON, or that names no command or an unknown one, changes nothing and
  -- calls nothing, whatever its version, if its texts are not too long for their buffers.
  pub parser_parse_recv_command_unheeded :
      (msg : String) (s : State)
      → HasShortTexts jansson (jansson.json_loads msg)
      → IsUnheeded msg
      → parser_parse_recv_command env msg s ≡ returned tt s
  unfolding parser_parse_recv_command ◌>>=◌
  parser_parse_recv_command_unheeded msg s t unheeded =
      let (status, read) = version_read (jansson.json_loads msg) s t in
      rw (parser_parse_recv_command, read) (command_unheeded msg s t unheeded)
