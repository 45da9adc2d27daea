-- ===== src/Safety/Notification.antt =====
-- Notifications of app/comm_parser.c for surfaces.
use uhmi_ivi_wm.Base.{
  ℕ, ◌≤◌, ◌≡◌, refl, List, [], ◌∷◌, some, arith, ◌==◌, inl, inr, Bool-cases, Option-cases, All,
}
use uhmi_ivi_wm.Exec.{Exec, gets, ◌>>=◌, visit}
use uhmi_ivi_wm.Exec.Keeps.{Keeps, Holds, Never, Keeps-pure, Keeps-bind}
use uhmi_ivi_wm.ElementList.{get_list_element}
use uhmi_ivi_wm.ElementList.Count.{count, count-get_none}
use uhmi_ivi_wm.Tree.{
  LayerElement, ScreenElement, SurfacePropertiesElement, surface_has_id, surface_properties_has_id,
}
use uhmi_ivi_wm.Tree.Layers.{AllLayers}
use uhmi_ivi_wm.State.{State}
use uhmi_ivi_wm.Wrapper.Keeps.{IsQuiet, Answers, Keeps-wrap_ilm_set_surface}
use uhmi_ivi_wm.Store.Keeps.{Keeps-add_exists_surfaces_to_layer}
use uhmi_ivi_wm.Parser.{notify_surface, notify_layer, parser_add_ivi_surface_by_event_notification}
use uhmi_ivi_wm.Env.{Env}
use uhmi_ivi_wm.Safety.{ListedIn, IsRegistered, AnswersQueries}
use uhmi_ivi_wm.Safety.Decide.{Answers-Never}

module _ {S : Type 0} {P F : S → Type 0} where
  Keeps-visit-All :
      {J : Type 0} (Q : J → Type 0) (xs : List J) (body : J → Exec S (Unit {0}))
      → ((x : J) → Q x → Keeps P F (body x))
      → All Q xs
      → Keeps P F (visit xs body)
  unfolding visit
  Keeps-visit-All Q [] body kb a = Keeps-pure tt
  Keeps-visit-All Q (x ∷ xs) body kb a =
      Keeps-bind (body x) (λ _. visit xs body) (kb x a.0) (λ _. Keeps-visit-All Q xs body kb a.1)

-- The lists are still these.
abbrev pub HasLists : List ScreenElement → List SurfacePropertiesElement → State → Type 0
HasLists tree list s = (s.surface_properties ≡ list) × (s.screens ≡ tree)

module _ {J : Type 0} (env : Env J) (a : AnswersQueries env.ilm) (tree : List ScreenElement)
    (list : List SurfacePropertiesElement) where
  quiet : IsQuiet (HasLists tree list)
  quiet c s e = e

  answers : Answers env.ilm (HasLists tree list) Never
  answers = Answers-Never env a (HasLists tree list)

  surface_notified :
      (l : LayerElement) (i : ℕ)
      → 1 ≤ count i list
      → Keeps
          (HasLists tree list)
          Never
          (gets (λ s. get_list_element s.surface_properties i) >>= notify_surface env l i)
  unfolding ◌>>=◌
  surface_notified l i listed = record {
    at = λ s e. elim (Option-cases (get_list_element s.surface_properties i)) [
      | inl absent ↦ ground (arith, count-get_none i list (rw e.0 at absent))
      | inr (elm, found) ↦ rw found ((go elm).at s e)
    ];
  }
    where
      go :
          (elm : SurfacePropertiesElement)
          → Keeps (HasLists tree list) Never (notify_surface env l i (some elm))
      go elm =
          Keeps-bind _ _ (Keeps-wrap_ilm_set_surface env.ilm quiet answers elm.prop i)
            (λ _. Keeps-add_exists_surfaces_to_layer env.ilm quiet answers l)

  layer_notified :
      (i : ℕ) (l : LayerElement)
      → ListedIn list l
      → Keeps (HasLists tree list) Never (notify_layer env i l)
  unfolding notify_layer
  layer_notified i l listed =
      Keeps-visit-All (λ x. 1 ≤ count x.id list) l.surfaces _
        (λ x in_list. elim (Bool-cases (i == x.id)) [
          | inl e ↦ rw e (surface_notified l i (ground arith))
          | inr e ↦ rw e (Keeps-pure tt)
        ])
        listed

  all_notified :
      (i : ℕ) (screens : List ScreenElement)
      → AllLayers (ListedIn list) screens
      → Keeps
          (HasLists tree list)
          Never
          (visit screens λ screen_elm. visit screen_elm.layers (notify_layer env i))
  all_notified i screens listed =
      Keeps-visit-All (λ s. All (ListedIn list) s.layers) screens _
        (λ s in_list. Keeps-visit-All (ListedIn list) s.layers _ (layer_notified i) in_list) listed

module _ {J : Type 0} (env : Env J) (a : AnswersQueries env.ilm) where
  -- A notification that a surface was configured never faults and leaves the lists as they were,
  -- where every surface that a layer holds has properties and libilm answers queries.
  pub notification_safe :
      (surface_id : ℕ) (s : State)
      → IsRegistered s
      → Holds
          (HasLists s.screens s.surface_properties)
          Never
          (parser_add_ivi_surface_by_event_notification env surface_id s)
  unfolding parser_add_ivi_surface_by_event_notification ◌>>=◌
  notification_safe surface_id s r =
      (all_notified env a s.screens s.surface_properties surface_id s.screens r.listed).at s
        (refl, refl)
