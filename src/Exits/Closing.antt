-- ===== src/Exits/Closing.antt =====
-- How what app/main.c calls ends: the start, the commands and the notifications of app/comm_parser.c.
use uhmi_ivi_wm.Exec.{◌>>=◌, Exec, Outcome, returned, exited, faulted}
use uhmi_ivi_wm.Wrapper.{call, wrap_ilm_init, Unit₀}
use uhmi_ivi_wm.EventLoop.{
  initialize, NtfType, creation_delection, surface_prop_change, handle_notification,
}
use uhmi_ivi_wm.Base.{◌⊎◌, inl, inr, Bool-cases, false, ℕ, ◌≡◌, refl, String, List, ◌∷◌, Option}
use uhmi_ivi_wm.Exec.Keeps.{Holds, Never, Anything}
use uhmi_ivi_wm.Exec.Exits.{Exits, LeavesIn, exits_rules}
use uhmi_ivi_wm.Ilm.{IlmCall, Ilm}
use uhmi_ivi_wm.State.{State}
use uhmi_ivi_wm.Wrapper.Returns.{IsObliging}
use uhmi_ivi_wm.Parser.{parser_init, add_notification, parser_parse_recv_command}
use uhmi_ivi_wm.Parser.Keeps.{Keeps-wrap_ilm_set_surface_add_notification}
use uhmi_ivi_wm.Env.{Env}
use uhmi_ivi_wm.Safety.{IsRegistered, HasShortTexts, HasShortConfig, AnswersQueries}
use uhmi_ivi_wm.Safety.Decide.{IsRegistered-quiet}
use uhmi_ivi_wm.Safety.Commands.{parser_parse_recv_command_safe}
use uhmi_ivi_wm.Safety.Start.{parser_init-IsRegistered, outcome-IsRegistered}
use uhmi_ivi_wm.Safety.Notification.{notification_safe}
use uhmi_ivi_wm.Exits.{
  FailsIn, Exits-call, Exits-wrap_ilm_surface_exists, Exits-wrap_ilm_screen_exists,
  Exits-wrap_ilm_get_screen_ids, Exits-wrap_ilm_set_notification_callback, Exits-wrap_ilm_set_layer,
  Exits-wrap_ilm_set_surface, Exits-wrap_ilm_remove_layer, Exits-wrap_ilm_remove_surface,
  Exits-wrap_ilm_add_layer_to_screen, Exits-wrap_ilm_add_surface_to_layer,
}
use uhmi_ivi_wm.Exits.Calls.{CallsEnd}
use uhmi_ivi_wm.Exits.Tree.{
  Exits-parser_add_ivi_surface_by_event_notification, Exits-wrap_ilm_set_surface_add_notification,
}
use uhmi_ivi_wm.Exits.Commands.{Exits-parser_init, Exits-parser_parse_recv_command}

-- What `main` has the parser do: `parser_init`, a command or a notification.
pub data Work : Type 0 where
  begin : Option String → Work
  command : String → Work
  notify : NtfType → ℕ → Work

-- libilm was told to stop: the last two calls.
abbrev pub IsClosed : State → Type 0
IsClosed s = (h : List IlmCall) × (s.calls ≡ IlmCall.destroy ∷ IlmCall.unregister_notification ∷ h)

module _ {J : Type 0} (env : Env J) where
  abbrev pub perform : Work → Exec State Unit₀
  perform (begin path) = parser_init env path
  perform (command msg) = parser_parse_recv_command env msg
  perform (notify type id) = handle_notification env type id

  -- The texts of a document that is read fit.
  abbrev pub IsFit : Work → Type 0
  IsFit (begin path) = HasShortConfig env.jansson path
  IsFit (command msg) = HasShortTexts env.jansson (env.jansson.json_loads msg)
  IsFit (notify type id) = Unit

  pub Exits-perform : {P E : State → Type 0} → CallsEnd env P E → (w : Work) → Exits P E (perform w)
  unfolding handle_notification
  Exits-perform k (begin path) = Exits-parser_init env k path
  Exits-perform k (command msg) = Exits-parser_parse_recv_command env k msg
  Exits-perform k (notify creation_delection id) =
      Exits-wrap_ilm_set_surface_add_notification env k id
  Exits-perform k (notify surface_prop_change id) =
      Exits-parser_add_ivi_surface_by_event_notification env k id

  Exits-add_notification :
      {E : State → Type 0}
      → FailsIn env.ilm E
      → (id : ℕ) → Exits Anything E (add_notification env id)
  unfolding add_notification
  Exits-add_notification {E} fails id =
      search (exits_rules, Exits-call env.ilm {E = E} fails) depth 10

  failing : {E : State → Type 0} → FailsIn env.ilm E → CallsEnd env Anything E
  failing fails = record {
    of_calls = λ s t same h. h;
    surface_exists = Exits-wrap_ilm_surface_exists env.ilm fails;
    screen_exists = Exits-wrap_ilm_screen_exists env.ilm fails;
    screen_ids = Exits-wrap_ilm_get_screen_ids env.ilm fails;
    callback_set = Exits-wrap_ilm_set_notification_callback env.ilm fails;
    layer_set = Exits-wrap_ilm_set_layer env.ilm fails;
    surface_set = Exits-wrap_ilm_set_surface env.ilm fails;
    layer_removed = Exits-wrap_ilm_remove_layer env.ilm fails;
    surface_removed = Exits-wrap_ilm_remove_surface env.ilm fails;
    layer_order_sent = Exits-wrap_ilm_add_layer_to_screen env.ilm fails;
    surface_order_sent = Exits-wrap_ilm_add_surface_to_layer env.ilm fails;
    notification_added = Exits-add_notification fails;
  }

  -- What `main` does before its loop ends the process so too, or at once where `ilm_init` failed.
  abbrev pub IsClosedOrRefused : State → State → Type 0
  IsClosedOrRefused s t =
      IsClosed t
      ⊎ ((env.ilm.succeeds s.calls IlmCall.init ≡ false) × (t.calls ≡ IlmCall.init ∷ s.calls))

  initialize-IsClosedOrRefused :
      (path : Option String) (s : State) → LeavesIn (IsClosedOrRefused s) (initialize env path s)
  unfolding initialize wrap_ilm_init call ◌>>=◌
  initialize-IsClosedOrRefused path s = elim (Bool-cases (env.ilm.succeeds s.calls IlmCall.init)) [
    | inl ok ↦ rw ok (
        (Exits-perform (failing {E = IsClosedOrRefused s} (λ c t failed. inl (_, refl)))
            (begin path)).at
          _ tt)
    | inr failed ↦ rw failed (inr (failed, refl))
  ]

  -- Wherever `parser_init`, a command or a notification ends the process, from whatever state and
  -- whichever call of libilm failed, it has unregistered the notifications and then destroyed the
  -- connection to libilm as its last calls. The start with `wrap_ilm_init` before `parser_init` ends
  -- so too, unless `ilm_init` itself failed, which is then the last call.
  pub perform-IsClosed :
      ((w : Work) (s : State) → LeavesIn IsClosed (perform w s))
      × ((path : Option String) (s : State)
          → LeavesIn (IsClosedOrRefused s) (initialize env path s))
  perform-IsClosed = (
    λ w s. (Exits-perform (failing (λ c t failed. (_, refl))) w).at s tt,
    initialize-IsClosedOrRefused,
  )

pub obliging-AnswersQueries : (ilm : Ilm) → IsObliging ilm → AnswersQueries ilm
obliging-AnswersQueries ilm obliging = record {
  surfaces_answered = λ h. obliging h IlmCall.get_surface_ids;
  layers_answered = λ h. obliging h IlmCall.get_layer_ids;
}

any : (o : Outcome State Unit₀) → Holds IsRegistered Never o → Holds Anything Never o
any (returned u s) h = tt
any (exited s) h = tt
any (faulted s) h = h

returned_only :
    (o : Outcome State Unit₀)
    → LeavesIn Never o
    → Holds Anything Never o
    → (t : State) × (o ≡ returned tt t)
returned_only (returned u s) leaves holds = (s, refl)
returned_only (exited s) leaves holds = absurd leaves
returned_only (faulted s) leaves holds = absurd holds

module _ {J : Type 0} (env : Env J) (obliging : IsObliging env.ilm) where
  perform_safe :
      (w : Work) (s : State) → IsFit env w → IsRegistered s → Holds Anything Never (perform env w s)
  unfolding handle_notification
  perform_safe (begin path) s fit r =
      any _ (parser_init-IsRegistered env (obliging-AnswersQueries env.ilm obliging) path s fit)
  perform_safe (command msg) s fit r =
      parser_parse_recv_command_safe env msg s (obliging-AnswersQueries env.ilm obliging) fit r
  perform_safe (notify creation_delection id) s fit r =
      any _ ((Keeps-wrap_ilm_set_surface_add_notification env IsRegistered-quiet id).at s r)
  perform_safe (notify surface_prop_change id) s fit r = any _ (
      outcome-IsRegistered s _
        (notification_safe env (obliging-AnswersQueries env.ilm obliging) id s r) r)

  -- Where libilm does what it is asked for and no text is too long for its buffer, `parser_init`, every
  -- command and every notification return, from each state in which every surface that a layer holds
  -- has properties.
  pub perform_returns :
      (w : Work) (s : State)
      → IsFit env w
      → IsRegistered s
      → (t : State) × (perform env w s ≡ returned tt t)
  perform_returns w s fit r =
      returned_only _
        ((Exits-perform env (failing env (λ c t failed. cc (failed, obliging t.calls c))) w).at s
          tt)
        (perform_safe w s fit r)
