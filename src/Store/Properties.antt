-- ===== src/Store/Properties.antt =====
-- The list of surface properties of app/comm_parser.c: what the reference counts do to it.
use uhmi_ivi_wm.Base.{
  ℕ, ◌≤◌, refl, List, [], ◌∷◌, Option, none, some, arith, ◌==◌, inl, inr, Bool-cases, Option-cases,
}
use uhmi_ivi_wm.Properties.{SurfaceProperties}
use uhmi_ivi_wm.InsertOrder.{insert_info_default}
use uhmi_ivi_wm.ElementList.{pop_list_element, get_list_element}
use uhmi_ivi_wm.ElementList.Count.{
  count, IsUnique, IsUnique-insert, PopCounts, pop-PopCounts, count-get_none,
}
use uhmi_ivi_wm.Tree.{
  SurfaceElement, LayerElement, ScreenElement, SurfacePropertiesElement, update_element,
  surface_properties_has_id,
}
use uhmi_ivi_wm.Tree.Layers.{count-update_element}
use uhmi_ivi_wm.Store.{
  with_prop, one_less_reference, list_surface_properties, add_surface_properties, rest_or,
  release_properties, remove_surface_properties, remove_all_surface, remove_layers, remove_screens,
}

IsUnique-with_prop :
    (i : ℕ) (prop : SurfaceProperties) (list : List SurfacePropertiesElement)
    → IsUnique list
    → IsUnique (update_element i (with_prop prop) list)
IsUnique-with_prop i prop list u k =
    rw (count-update_element k i (with_prop prop) list (λ x. refl)) (u k)

IsUnique-list :
    (i : ℕ) (list : List SurfacePropertiesElement)
    → IsUnique list
    → IsUnique (list_surface_properties i list)
unfolding list_surface_properties
IsUnique-list i list u = elim (Option-cases (get_list_element list i)) [
  | inl e ↦
      rw (e, list_surface_properties)
        (IsUnique-insert list _ insert_info_default (count-get_none i list e) u)
  | inr (x, e) ↦ rw (e, list_surface_properties) u
]

pub IsUnique-add :
    (prop : SurfaceProperties) (i : ℕ) (list : List SurfacePropertiesElement)
    → IsUnique list
    → IsUnique (add_surface_properties prop i list)
unfolding add_surface_properties
IsUnique-add prop i list u = IsUnique-with_prop i _ _ (IsUnique-list i list u)

rest_or-le :
    (k i : ℕ) (list : List SurfacePropertiesElement)
    (o : Option (SurfacePropertiesElement × List SurfacePropertiesElement))
    → PopCounts k i list o
    → count k (rest_or list o) ≤ count k list
rest_or-le k i list none c = omega arith
rest_or-le k i list (some (x, ys)) c = omega (arith, c.0)

IsUnique-release :
    (i : ℕ) (prop : SurfaceProperties) (list : List SurfacePropertiesElement)
    → IsUnique list
    → IsUnique (release_properties i prop list)
unfolding release_properties
IsUnique-release i prop list u k = elim (Bool-cases (prop.referred_cnt == 0)) [
  | inl e ↦
      rw e
        (omega (arith, u k, rest_or-le k i list (pop_list_element list i) (pop-PopCounts k i list)))
  | inr ne ↦ rw ne (IsUnique-with_prop i prop list u k)
]

pub IsUnique-remove :
    (i : ℕ) (list : List SurfacePropertiesElement)
    → IsUnique list
    → IsUnique (remove_surface_properties i list)
unfolding remove_surface_properties
IsUnique-remove i list u = elim (Option-cases (get_list_element list i)) [
  | inl e ↦ rw (e, remove_surface_properties) u
  | inr (x, e) ↦
      rw (e, remove_surface_properties) (IsUnique-release i (one_less_reference x.prop) list u)
]

pub IsUnique-remove_all_surface :
    (surfaces : List SurfaceElement) (list : List SurfacePropertiesElement)
    → IsUnique list
    → IsUnique (remove_all_surface surfaces list)
unfolding remove_all_surface
IsUnique-remove_all_surface [] list u = u
IsUnique-remove_all_surface (x ∷ xs) list u =
    IsUnique-remove_all_surface xs _ (IsUnique-remove x.id list u)

IsUnique-remove_layers :
    (layers : List LayerElement) (list : List SurfacePropertiesElement)
    → IsUnique list
    → IsUnique (remove_layers layers list)
unfolding remove_layers
IsUnique-remove_layers [] list u = u
IsUnique-remove_layers (x ∷ xs) list u =
    IsUnique-remove_layers xs _ (IsUnique-remove_all_surface x.surfaces list u)

pub IsUnique-remove_screens :
    (screens : List ScreenElement) (list : List SurfacePropertiesElement)
    → IsUnique list
    → IsUnique (remove_screens screens list)
unfolding remove_screens
IsUnique-remove_screens [] list u = u
IsUnique-remove_screens (x ∷ xs) list u =
    IsUnique-remove_screens xs _ (IsUnique-remove_layers x.layers list u)
