-- ===== src/Invariant/Start.antt =====
-- The start of app/comm_parser.c (`parser_init`) establishes the invariant, whatever the state was
-- before.
use uhmi_ivi_wm.Base.{
  ℕ, ◌+◌, ◌≤◌, ◌≡◌, refl, String, List, [], ◌∷◌, Option, none, some, true, arith, inl, inr,
  Bool-cases, if◌then◌else◌,
}
use uhmi_ivi_wm.Exec.{pure, gets, modify, ◌>>=◌, visit}
use uhmi_ivi_wm.Exec.Keeps.{Keeps, Holds, Keeps-bind, Keeps-pure}
use uhmi_ivi_wm.ElementList.{number_has_id, insert_list_element}
use uhmi_ivi_wm.ElementList.Count.{count, IsUnique, count-append}
use uhmi_ivi_wm.Tree.{ScreenElement, screen_has_id}
use uhmi_ivi_wm.Ilm.{IlmCall, Ilm}
use uhmi_ivi_wm.State.{State}
use uhmi_ivi_wm.Store.{add_screen}
use uhmi_ivi_wm.Wrapper.{call, query, wrap_ilm_exit, wrap_ilm_get_screen_ids}
use uhmi_ivi_wm.Wrapper.Keeps.{IsQuiet, logged, Keeps-wrap_ilm_set_notification_callback}
use uhmi_ivi_wm.Init.{init_default_config}
use uhmi_ivi_wm.Parser.{is_empty, init_lists, load_config, parser_init}
use uhmi_ivi_wm.Env.{Env}
use uhmi_ivi_wm.Invariant.{IsWellFormed}
use uhmi_ivi_wm.Invariant.Tree.{add_screen-IsWellFormed}
use uhmi_ivi_wm.Invariant.Decide.{IsWellFormed-quiet}
use uhmi_ivi_wm.Invariant.Commands.{parse_init_json_config-IsWellFormed}

-- libilm reports no screen twice.
abbrev pub HasUniqueScreens : Ilm → Type 0
HasUniqueScreens ilm = (h : List IlmCall) → IsUnique (ilm.screen_ids h)

-- The screens to come and those in the list are different.
abbrev AreApart : List ℕ → State → Type 0
AreApart ids s = (k : ℕ) → count k ids + count k s.screens ≤ 1

AreApart-add :
    (i : ℕ) (ids : List ℕ) (s : State) → AreApart (i ∷ ids) s → AreApart ids (add_screen i s)
unfolding add_screen insert_list_element
AreApart-add i ids s apart k =
    omega (arith, apart k, count-append k s.screens (record { id = i; layers = [] } ∷ []))

first_new : (i : ℕ) (ids : List ℕ) (s : State) → AreApart (i ∷ ids) s → count i s.screens ≡ 0
first_new i ids s apart = ground (arith, apart i)

add_screens-IsWellFormed :
    (ids : List ℕ) (s : State)
    → AreApart ids s
    → IsWellFormed s
    → Holds IsWellFormed IsWellFormed (visit ids (λ i. modify (add_screen i)) s)
unfolding visit ◌>>=◌
add_screens-IsWellFormed [] s apart w = w
add_screens-IsWellFormed (i ∷ ids) s apart w =
    add_screens-IsWellFormed ids (add_screen i s) (AreApart-add i ids s apart)
      (add_screen-IsWellFormed i s (first_new i ids s apart) w)

nothing : (xs : List ScreenElement) → is_empty xs ≡ true → xs ≡ []
nothing [] e = refl
nothing (x ∷ xs) e = cc

module _ {J : Type 0} (env : Env J) (unique : HasUniqueScreens env.ilm) where
  init_default_config-IsWellFormed :
      (s : State)
      → s.screens ≡ []
      → IsWellFormed s
      → Holds IsWellFormed IsWellFormed (init_default_config env s)
  unfolding init_default_config wrap_ilm_get_screen_ids query wrap_ilm_exit call ◌>>=◌
  init_default_config-IsWellFormed s e w =
      elim (Bool-cases (env.ilm.succeeds s.calls IlmCall.get_screen_ids)) [
        | inl succeeds ↦ rw succeeds (
            add_screens-IsWellFormed (env.ilm.screen_ids s.calls) (logged IlmCall.get_screen_ids s)
              (λ k. rw e (omega (arith, unique s.calls k)))
              (IsWellFormed-quiet IlmCall.get_screen_ids s w))
        | inr fails ↦ rw fails (
            quiet IlmCall.destroy _
              (quiet IlmCall.unregister_notification _ (quiet IlmCall.get_screen_ids s w)))
      ]
    where
      quiet : IsQuiet IsWellFormed
      quiet = IsWellFormed-quiet

  -- The default configuration is for an empty tree.
  fill_if_empty-IsWellFormed : Keeps IsWellFormed IsWellFormed (
      gets (λ s. is_empty s.screens) >>= λ empty.
      if empty then init_default_config env else pure tt)
  unfolding ◌>>=◌
  fill_if_empty-IsWellFormed = record {
    at = λ s w. elim (Bool-cases (is_empty s.screens)) [
      | inl empty ↦ rw empty (init_default_config-IsWellFormed s (nothing s.screens empty) w)
      | inr some_screen ↦ rw some_screen w
    ];
  }

  load_config-IsWellFormed :
      (path : Option String) → Keeps IsWellFormed IsWellFormed (load_config env path)
  load_config-IsWellFormed (some p) =
      Keeps-bind _ _ (parse_init_json_config-IsWellFormed env p) (λ _. Keeps-pure tt)
  load_config-IsWellFormed none = Keeps-pure tt

  init_lists-IsWellFormed : (s : State) → IsWellFormed (init_lists s)
  init_lists-IsWellFormed s = record {
    screens_unique = λ k. omega arith;
    layers_unique = λ k. omega arith;
    surfaces_unique = tt;
    properties_unique = λ k. omega arith;
  }

  -- From any state, with or without a configuration file, `parser_init` comes to a state in which
  -- no id stands twice, if libilm reports no screen twice.
  pub parser_init-IsWellFormed :
      (path : Option String) (s : State) → Holds IsWellFormed IsWellFormed (parser_init env path s)
  unfolding parser_init ◌>>=◌
  parser_init-IsWellFormed path s =
      (Keeps-bind _ _ (load_config-IsWellFormed path) (λ _.
          Keeps-bind _ _ fill_if_empty-IsWellFormed
            (λ _. Keeps-wrap_ilm_set_notification_callback env.ilm IsWellFormed-quiet))).at
        (init_lists s) (init_lists-IsWellFormed s)
