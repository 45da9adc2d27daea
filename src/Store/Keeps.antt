-- ===== src/Store/Keeps.antt =====
-- What sending render orders keeps (app/comm_parser.c): every property of the state that does not
-- look at the recorded calls.
use uhmi_ivi_wm.Base.{ℕ, List, [], ◌∷◌}
use uhmi_ivi_wm.Exec.Keeps.{Keeps, Keeps-pure, Keeps-bind, keeps_rules}
use uhmi_ivi_wm.Properties.{LayerProperties}
use uhmi_ivi_wm.Tree.{SurfaceElement, LayerElement, ScreenElement}
use uhmi_ivi_wm.Ilm.{Ilm}
use uhmi_ivi_wm.State.{State}
use uhmi_ivi_wm.Wrapper.{wrap_ilm_set_layer}
use uhmi_ivi_wm.Wrapper.Keeps.{
  IsQuiet, Answers, Keeps-wrap_ilm_surface_exists, Keeps-wrap_ilm_set_layer,
  Keeps-wrap_ilm_add_surface_to_layer, Keeps-wrap_ilm_add_layer_to_screen,
}
use uhmi_ivi_wm.Store.{existing_surfaces, add_exists_surfaces_to_layer, add_layers_to_screen}

module _ (ilm : Ilm) {P F : State → Type 0} (quiet : IsQuiet P) (answers : Answers ilm P F) where
  Keeps-existing_surfaces : (xs : List SurfaceElement) → Keeps P F (existing_surfaces ilm xs)
  unfolding existing_surfaces
  Keeps-existing_surfaces [] = Keeps-pure []
  Keeps-existing_surfaces (x ∷ xs) =
      Keeps-bind _ _ (Keeps-wrap_ilm_surface_exists ilm quiet answers x.id)
        (λ e. Keeps-bind _ _ (Keeps-existing_surfaces xs) (λ ids. Keeps-pure _))

  pub Keeps-add_exists_surfaces_to_layer :
      (l : LayerElement) → Keeps P F (add_exists_surfaces_to_layer ilm l)
  unfolding add_exists_surfaces_to_layer
  Keeps-add_exists_surfaces_to_layer l = search (
    keeps_rules,
    Keeps-existing_surfaces,
    Keeps-wrap_ilm_add_surface_to_layer ilm {P = P} {F = F} quiet,
  )

  layer_set : (p : LayerProperties) (i : ℕ) → Keeps P F (wrap_ilm_set_layer ilm p i)
  layer_set p i = Keeps-wrap_ilm_set_layer ilm quiet answers p i

  pub Keeps-add_layers_to_screen : (s : ScreenElement) → Keeps P F (add_layers_to_screen ilm s)
  unfolding add_layers_to_screen
  Keeps-add_layers_to_screen s =
      search
        (
          keeps_rules,
          layer_set,
          Keeps-add_exists_surfaces_to_layer,
          Keeps-wrap_ilm_add_layer_to_screen ilm {P = P} {F = F} quiet,
        )
        depth 10
