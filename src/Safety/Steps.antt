-- ===== src/Safety/Steps.antt =====
-- The steps of app/comm_parser.c that add and modify keep every surface registered, and never
-- fault.
use uhmi_ivi_wm.Base.{
  ℕ, ◌≤◌, ◌≡◌, refl, List, [], ◌∷◌, Option, none, some, arith, inl, inr, Option-cases, subst, All,
}
use uhmi_ivi_wm.InsertOrder.{InsertInfo}
use uhmi_ivi_wm.Properties.{LayerProperties, SurfaceProperties}
use uhmi_ivi_wm.ElementList.{pop_list_element, get_list_element, insert_list_element}
use uhmi_ivi_wm.ElementList.Count.{
  count, count-append, count-get_some, All-map, All-insert, All-append, PopAll, pop-PopAll,
  PopCounts, pop-PopCounts,
}
use uhmi_ivi_wm.Tree.{
  SurfaceElement, LayerElement, ScreenElement, SurfacePropertiesElement, update_element, get_layer,
  pop_layer, update_layer, surface_has_id, layer_has_id, screen_has_id, surface_properties_has_id,
}
use uhmi_ivi_wm.Tree.Layers.{
  AllLayers, count-update_element, All-update_element, AllLayers-get, AllLayers-update_found,
  update_layer_missing, LayerPop, pop_layer-LayerPop,
}
use uhmi_ivi_wm.State.{State}
use uhmi_ivi_wm.Store.{
  zero_layout, with_prop, one_more_reference, list_surface_properties, add_surface_properties,
  with_surfaces, surfaces_of, add_surface, insert_layer, add_layer, add_screen,
}
use uhmi_ivi_wm.Decide.{reinsert_layer, set_surfaces, set_properties}
use uhmi_ivi_wm.Safety.{ListedIn, IsRegistered}

-- A longer list of properties does as well.
AllLayers-ListedIn-mono :
    (list list' : List SurfacePropertiesElement) (screens : List ScreenElement)
    → ((k : ℕ) → count k list ≤ count k list')
    → AllLayers (ListedIn list) screens
    → AllLayers (ListedIn list') screens
AllLayers-ListedIn-mono list list' screens grows a =
    All-map _ _ screens
      (λ s.
        All-map _ _ s.layers (λ l. All-map _ _ l.surfaces (λ x h. omega (arith, h, grows x.id))))
      a

abbrev calloc_element : ℕ → SurfacePropertiesElement
calloc_element i = record { id = i; prop = record { referred_cnt = 0; lp = zero_layout } }

list_surface_properties_counts :
    (k i : ℕ) (list : List SurfacePropertiesElement)
    → (count k list ≤ count k (list_surface_properties i list))
      × (1 ≤ count i (list_surface_properties i list))
unfolding list_surface_properties insert_list_element
list_surface_properties_counts k i list = elim (Option-cases (get_list_element list i)) [
  | inl e ↦
      rw (e, list_surface_properties)
        (
          omega (arith, count-append k list (calloc_element i ∷ [])),
          ground (arith, count-append i list (calloc_element i ∷ [])),
        )
  | inr (x, e) ↦ rw (e, list_surface_properties) (omega arith, count-get_some i list x e)
]

-- Adding properties removes none, and lists those of the surface.
pub add_surface_properties_counts :
    (k i : ℕ) (prop : SurfaceProperties) (list : List SurfacePropertiesElement)
    → (count k list ≤ count k (add_surface_properties prop i list))
      × (1 ≤ count i (add_surface_properties prop i list))
unfolding add_surface_properties
add_surface_properties_counts k i prop list = (
  rw (kept k) (list_surface_properties_counts k i list).0,
  rw (kept i) (list_surface_properties_counts k i list).1,
)
  where
    kept :
        (j : ℕ)
        → count j (
            update_element i (with_prop (one_more_reference prop)) (list_surface_properties i list))
          ≡ count j (list_surface_properties i list)
    kept j = count-update_element j i _ (list_surface_properties i list) (λ x. refl)

-- A write to a layer whose new surfaces are all listed.
write_layer-listed :
    (list : List SurfacePropertiesElement) (i : ℕ) (f : LayerElement → LayerElement)
    (screens : List ScreenElement)
    → ((l : LayerElement) → get_layer screens i ≡ some l → ListedIn list (f l))
    → AllLayers (ListedIn list) screens
    → AllLayers (ListedIn list) (update_layer i f screens)
write_layer-listed list i f screens new a = elim (Option-cases (get_layer screens i)) [
  | inl missing ↦ rw (update_layer_missing i f screens missing) a
  | inr (l, found) ↦ AllLayers-update_found (ListedIn list) i f screens l found (new l found) a
]

pub add_surface-IsRegistered :
    (layer_id : ℕ) (prop : SurfaceProperties) (surface_id : ℕ) (info : InsertInfo) (s : State)
    → IsRegistered s
    → IsRegistered (add_surface layer_id prop surface_id info s)
unfolding add_surface
add_surface-IsRegistered layer_id prop surface_id info s r = record {
  listed =
      write_layer-listed list layer_id
        (λ l. with_surfaces (insert_list_element l.surfaces (record { id = surface_id }) info) l)
        s.screens
        (λ l found.
          All-insert (λ x. 1 ≤ count x.id list) l.surfaces (record { id = surface_id }) info
            (AllLayers-get (ListedIn list) layer_id s.screens l old found)
            (add_surface_properties_counts 0 surface_id prop s.surface_properties).1)
        old;
}
  where
    list : List SurfacePropertiesElement
    list = add_surface_properties prop surface_id s.surface_properties

    old : AllLayers (ListedIn list) s.screens
    old =
        AllLayers-ListedIn-mono s.surface_properties list s.screens
          (λ k. (add_surface_properties_counts k surface_id prop s.surface_properties).0) r.listed

pub set_properties-IsRegistered :
    (i : ℕ) (prop : SurfaceProperties) (s : State)
    → IsRegistered s
    → IsRegistered (set_properties i prop s)
set_properties-IsRegistered i prop s r = record {
  listed =
      AllLayers-ListedIn-mono s.surface_properties _ s.screens
        (λ k.
          omega (arith, count-update_element k i (with_prop prop) s.surface_properties (λ x. refl)))
        r.listed;
}

-- The surfaces of the layer that the code holds are listed.
surfaces_listed :
    (layer_id : ℕ) (s : State)
    → IsRegistered s
    → All (λ x. 1 ≤ count x.id s.surface_properties) (surfaces_of (get_layer s.screens layer_id))
surfaces_listed layer_id s r = go (get_layer s.screens layer_id) refl
  where
    go :
        (o : Option LayerElement)
        → get_layer s.screens layer_id ≡ o
        → All (λ x. 1 ≤ count x.id s.surface_properties) (surfaces_of o)
    go none missing = tt
    go (some l) found =
        AllLayers-get (ListedIn s.surface_properties) layer_id s.screens l r.listed found

module _ (layer_id surface_id : ℕ) (elm : SurfaceElement) (rest : List SurfaceElement) (s : State)
    (e : pop_list_element (surfaces_of (get_layer s.screens layer_id)) surface_id
      ≡ some (elm, rest))
    (r : IsRegistered s) where
  popped_listed : PopAll (λ x. 1 ≤ count x.id s.surface_properties) (some (elm, rest))
  popped_listed =
      subst (PopAll (λ x. 1 ≤ count x.id s.surface_properties)) e
        (pop-PopAll _ surface_id _ (surfaces_listed layer_id s r))

  -- A popped surface has properties.
  pub popped_is_listed : 1 ≤ count surface_id s.surface_properties
  popped_is_listed =
      let c : PopCounts 0 surface_id (surfaces_of (get_layer s.screens layer_id))
          (some (elm, rest)) =
        rw e at (pop-PopCounts 0 surface_id (surfaces_of (get_layer s.screens layer_id))) in
      subst (λ i. 1 ≤ count i s.surface_properties) c.1 popped_listed.0

  -- It may be put back.
  pub set_surfaces-IsRegistered :
      (info : InsertInfo)
      → IsRegistered (set_surfaces layer_id (insert_list_element rest elm info) s)
  set_surfaces-IsRegistered info = record {
    listed =
        write_layer-listed s.surface_properties layer_id _ s.screens
          (λ l found. All-insert _ rest elm info popped_listed.1 popped_listed.0) r.listed;
  }

-- A layer with listed surfaces comes into a screen.
insert_layer-listed :
    (list : List SurfacePropertiesElement) (screen_id : ℕ) (l : LayerElement) (info : InsertInfo)
    (screens : List ScreenElement)
    → ListedIn list l
    → AllLayers (ListedIn list) screens
    → AllLayers (ListedIn list) (update_element screen_id (insert_layer l info) screens)
insert_layer-listed list screen_id l info screens new a =
    All-update_element (λ x. All (ListedIn list) x.layers) screen_id (insert_layer l info) screens
      (λ x b. All-insert (ListedIn list) x.layers l info b new) a

pub add_layer-IsRegistered :
    (screen_id : ℕ) (prop : LayerProperties) (layer_id : ℕ) (info : InsertInfo) (s : State)
    → IsRegistered s
    → IsRegistered (add_layer screen_id prop layer_id info s)
unfolding add_layer
add_layer-IsRegistered screen_id prop layer_id info s r = record {
  listed = insert_layer-listed s.surface_properties screen_id _ info s.screens tt r.listed;
}

pub reinsert_layer-IsRegistered :
    (screen_id layer_id : ℕ) (prop : LayerProperties) (info : InsertInfo) (s : State)
    (l : LayerElement) (screens : List ScreenElement)
    → pop_layer s.screens layer_id ≡ some (l, screens)
    → IsRegistered s
    → IsRegistered (reinsert_layer screen_id (record l { prop = prop }) info screens s)
reinsert_layer-IsRegistered screen_id layer_id prop info s l screens e r =
    let parts : LayerPop 0 layer_id (ListedIn s.surface_properties) s.screens (some (l, screens)) =
      subst (LayerPop 0 layer_id (ListedIn s.surface_properties) s.screens) e
        (pop_layer-LayerPop 0 layer_id (ListedIn s.surface_properties) s.screens r.listed) in
    record {
      listed = insert_layer-listed s.surface_properties screen_id _ info screens parts.3 parts.4;
    }

pub add_screen-IsRegistered :
    (screen_id : ℕ) (s : State) → IsRegistered s → IsRegistered (add_screen screen_id s)
unfolding add_screen insert_list_element
add_screen-IsRegistered screen_id s r = record {
  listed =
      All-append (λ x. All (ListedIn s.surface_properties) x.layers) s.screens
        (record { id = screen_id; layers = [] } ∷ []) r.listed (tt, tt);
}
