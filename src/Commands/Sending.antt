-- ===== src/Commands/Sending.antt =====
-- What the handler of add_layer (app/comm_parser.c) sends for a screen.
use uhmi_ivi_wm.Base.{ℕ, List, ◌∷◌, ◌≡◌, sym, ap, ◌∙◌, map, Option, some, inl, inr, Option-cases}
use mathlib.Core.Option.{some-injective}
use uhmi_ivi_wm.Exec.{
  Exec, Outcome, returned, exited, faulted, Status, success, failure, ◌>>=◌, continue,
}
use uhmi_ivi_wm.InsertOrder.{InsertInfo}
use uhmi_ivi_wm.ElementList.{get_list_element}
use uhmi_ivi_wm.Tree.{ScreenElement, screen_has_id}
use uhmi_ivi_wm.Ilm.{IlmCall}
use uhmi_ivi_wm.State.{State}
use uhmi_ivi_wm.Wrapper.{Unit₀}
use uhmi_ivi_wm.Wrapper.Returns.{IsObliging}
use uhmi_ivi_wm.Store.Sending.{add_layers_to_screen-sends}
use uhmi_ivi_wm.Commands.{then_send, send_screen, add_layers}
use uhmi_ivi_wm.Env.{Env}

-- The calls of libilm end with the render order of the screen, which is that of its layers.
abbrev pub IsSent : ScreenElement → List IlmCall → Type 0
IsSent scr calls =
    (h : List IlmCall) × (calls
      ≡ IlmCall.commit_changes
        ∷ IlmCall.display_set_render_order scr.id (map (λ l. l.id) scr.layers)
        ∷ h)

-- The screen, where there is one in the tree, is sent as it stands there.
abbrev pub IsShown : ℕ → State → Type 0
IsShown screen_id t =
    (scr : ScreenElement) → get_list_element t.screens screen_id ≡ some scr → IsSent scr t.calls

-- What holds where a handler succeeds.
abbrev pub Succeeds : (State → Type 0) → Outcome State Status → Type 0
Succeeds P (returned success t) = P t
Succeeds P _ = Unit

abbrev Sends : (State → Type 0) → Outcome State Unit₀ → Type 0
Sends P (returned u t) = P t
Sends P _ = Unit

then_send-Succeeds :
    (P : State → Type 0) (send : Exec State Unit₀) (o : Outcome State Status)
    → ((s : State) → Sends P (send s))
    → Succeeds P (continue (then_send send) o)
unfolding ◌>>=◌
then_send-Succeeds P send (returned success s) sends = go (send s) (sends s)
  where
    go : (o : Outcome State Unit₀) → Sends P o → Succeeds P (continue (λ u. returned success) o)
    go (returned u t) h = h
    go (exited t) h = tt
    go (faulted t) h = tt
then_send-Succeeds P send (returned failure s) sends = tt
then_send-Succeeds P send (exited s) sends = tt
then_send-Succeeds P send (faulted s) sends = tt

module _ {J : Type 0} (env : Env J) (obliging : IsObliging env.ilm) where
  send_screen-IsShown :
      (screen_id : ℕ) (s : State) → Sends (IsShown screen_id) (send_screen env screen_id s)
  unfolding send_screen ◌>>=◌
  send_screen-IsShown screen_id s = elim (Option-cases (get_list_element s.screens screen_id)) [
    | inl e ↦ rw e (λ scr found. cc (e, found))
    | inr (scr, e) ↦
        let (h, sent) = add_layers_to_screen-sends env.ilm obliging scr s in
        rw (e, sent)
          (λ scr' found. (
            h,
            ap
                (λ x.
                  IlmCall.commit_changes
                  ∷ IlmCall.display_set_render_order x.id (map (λ l. l.id) x.layers)
                  ∷ h)
                (some-injective scr scr' (sym e ∙ found)),
          ))
  ]

  -- Where libilm does what it is asked for and the layers of a screen in an add_layer command are
  -- added without an error, the last that libilm is told is the render order of that screen, with all
  -- layers that it then has in the tree, in the tree's order, and the commit of it.
  pub add_layers-IsShown :
      (screen_jobj : Option J) (screen_id : ℕ) (insert_info : InsertInfo) (s : State)
      → Succeeds (IsShown screen_id) (add_layers env screen_jobj screen_id insert_info s)
  unfolding add_layers ◌>>=◌
  add_layers-IsShown screen_jobj screen_id insert_info s =
      then_send-Succeeds (IsShown screen_id) (send_screen env screen_id) _
        (send_screen-IsShown screen_id)
