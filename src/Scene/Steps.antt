-- ===== src/Scene/Steps.antt =====
-- The changes that app/comm_parser.c makes to its lists are steps of the scene, or are not seen in it.
use uhmi_ivi_wm.Base.{
  ℕ, ◌≡◌, refl, sym, ap, subst, List, [], ◌∷◌, ◌++◌, map, inl, inr, Option-cases,
}
use uhmi_ivi_wm.Exec.{Outcome, returned, exited, faulted}
use uhmi_ivi_wm.Exec.Keeps.{Holds, Anything}
use uhmi_ivi_wm.InsertOrder.{InsertInfo}
use uhmi_ivi_wm.Properties.{LayerProperties}
use uhmi_ivi_wm.ElementList.{get_list_element, insert_list_element}
use uhmi_ivi_wm.Tree.{ScreenElement, surface_has_id, screen_has_id, update_layer}
use uhmi_ivi_wm.State.{State}
use uhmi_ivi_wm.Wrapper.Keeps.{IsQuiet}
use uhmi_ivi_wm.Json.{CmdType}
use uhmi_ivi_wm.Store.{add_screen, remove_all}
use uhmi_ivi_wm.Commands.{set_layer_prop}
use uhmi_ivi_wm.Commands.Keeps.{LayersKeep, SurfacesKeep}
use uhmi_ivi_wm.Init.{ensure_screen}
use uhmi_ivi_wm.Env.{Env}
use uhmi_ivi_wm.Invariant.{IsWellFormed}
use uhmi_ivi_wm.Invariant.Tree.{remove_all-IsWellFormed}
use uhmi_ivi_wm.Invariant.Decide.{
  IsWellFormed-quiet, decide_add_or_update_layer-IsWellFormed,
  decide_add_or_update_surface-IsWellFormed,
}
use uhmi_ivi_wm.Invariant.Commands.{layer_prop-IsWellFormed, ensure_screen-IsWellFormed}
use uhmi_ivi_wm.Scene.{
  Scene, view, screen_view, Move, apply, Moves, then_move, layer_placed, surface_placed,
  screen_added, cleared,
}
use uhmi_ivi_wm.Scene.Surfaces.{update_layer_unseen}
use uhmi_ivi_wm.Scene.Placement.{
  decide_add_or_update_layer-places, decide_add_or_update_surface-places,
}

-- The state is well formed, and its scene comes from `a` by moves of the kinds allowed.
pub record Refines (Allowed : Move → Type 0) (a : Scene) (t : State) : Type 0 where
  pub well_formed : IsWellFormed t
  pub moves : Moves Allowed a (view t)

view-add_screen :
    (i : ℕ) (xs : List ScreenElement)
    → map screen_view (xs ++ record { id = i; layers = [] } ∷ [])
      ≡ map screen_view xs ++ record { id = i; layers = [] } ∷ []
view-add_screen i [] = refl
view-add_screen i (x ∷ xs) = ap (◌∷◌ (screen_view x)) (view-add_screen i xs)

module _ {Allowed : Move → Type 0} {a : Scene} where
  pub Refines-quiet : IsQuiet (Refines Allowed a)
  Refines-quiet c s r = record {
    well_formed = IsWellFormed-quiet c s r.well_formed;
    moves = r.moves;
  }

  -- One more move.
  moved :
      {s t : State} (m : Move)
      → Refines Allowed a s
      → IsWellFormed t
      → Allowed m
      → view t ≡ apply m (view s)
      → Refines Allowed a t
  moved m r w allowed e = record {
    well_formed = w;
    moves = subst (Moves Allowed a) (sym e) (then_move m r.moves allowed);
  }

  pub unseen :
      {s t : State} → Refines Allowed a s → IsWellFormed t → view t ≡ view s → Refines Allowed a t
  unseen r w e = record { well_formed = w; moves = subst (Moves Allowed a) (sym e) r.moves }

  outcome-Refines :
      {A : Type 0} (Q G : State → Type 0) (o : Outcome State A)
      → Holds IsWellFormed IsWellFormed o
      → Holds Q G o
      → ((t : State) → IsWellFormed t → Q t → Refines Allowed a t)
      → Holds (Refines Allowed a) Anything o
  outcome-Refines Q G (returned x t) w q f = f t w q
  outcome-Refines Q G (exited t) w q f = f t w q
  outcome-Refines Q G (faulted t) w q f = tt

  module _ {J : Type 0} (env : Env J) where
    pub layer-Refines :
        ((screen_id layer_id : ℕ) (info : InsertInfo)
          → Allowed (layer_placed screen_id layer_id info))
        → LayersKeep env (Refines Allowed a) Anything
    layer-Refines allowed screen_id j layer_id info = record {
      at = λ s r.
          outcome-Refines _ _ _
            ((decide_add_or_update_layer-IsWellFormed env screen_id j layer_id CmdType.add info).at
              s r.well_formed)
            (decide_add_or_update_layer-places env screen_id j layer_id CmdType.add info s
              r.well_formed)
            (λ t w e.
              moved {s = s} (layer_placed screen_id layer_id info) r w
                (allowed screen_id layer_id info) e);
    }

    pub surface-Refines :
        ((layer_id surface_id : ℕ) (info : InsertInfo)
          → Allowed (surface_placed layer_id surface_id info))
        → SurfacesKeep env (Refines Allowed a) Anything
    surface-Refines allowed layer_id j surface_id info = record {
      at = λ s r.
          outcome-Refines _ _ _
            ((decide_add_or_update_surface-IsWellFormed env layer_id j surface_id CmdType.add
                info).at
              s r.well_formed)
            (decide_add_or_update_surface-places env layer_id j surface_id CmdType.add info s
              r.well_formed)
            (λ t w e.
              moved {s = s} (surface_placed layer_id surface_id info) r w
                (allowed layer_id surface_id info) e);
    }

  pub layer_prop-Refines :
      (i : ℕ) (prop : LayerProperties) (s : State)
      → Refines Allowed a s
      → Refines Allowed a (record s { screens = update_layer i (set_layer_prop prop) s.screens })
  layer_prop-Refines i prop s r =
      unseen {s = s} r (layer_prop-IsWellFormed i prop s r.well_formed)
        (update_layer_unseen i (set_layer_prop prop) s.screens (λ l. refl))

  pub screen_ensured :
      ((screen_id : ℕ) → Allowed (screen_added screen_id))
      → (i : ℕ) (s : State) → Refines Allowed a s
      → Refines Allowed a (ensure_screen i s)
  unfolding ensure_screen add_screen insert_list_element
  screen_ensured allowed i s r =
      let w : IsWellFormed (ensure_screen i s) = ensure_screen-IsWellFormed i s r.well_formed in
      elim (Option-cases (get_list_element s.screens i)) [
        | inl e ↦
            moved {s = s} (screen_added i) r w (allowed i) (rw e (view-add_screen i s.screens))
        | inr (x, e) ↦ rw e r
      ]

  pub all_removed :
      Allowed cleared → (s : State) → Refines Allowed a s → Refines Allowed a (remove_all s)
  unfolding remove_all
  all_removed allowed s r =
      moved {s = s} cleared r (remove_all-IsWellFormed s r.well_formed) allowed refl
