-- ===== src/Invariant/Tree.antt =====
-- The changes of app/comm_parser.c to screens and to their layers keep the invariant.
use uhmi_ivi_wm.Base.{
  ℕ, ◌+◌, ◌≤◌, ◌≡◌, refl, List, [], ◌∷◌, ◌++◌, Option, none, some, arith, inl, inr, Option-cases,
  Bool-cases, subst, sym, ◌==◌, ==_iff, All,
}
use uhmi_ivi_wm.InsertOrder.{InsertInfo, insert_info_default}
use uhmi_ivi_wm.Properties.{LayerProperties}
use uhmi_ivi_wm.ElementList.{insert_list_element}
use uhmi_ivi_wm.ElementList.Count.{count, IsUnique-insert, count-insert, All-insert, All-append}
use uhmi_ivi_wm.Tree.{
  LayerElement, ScreenElement, update_element, pop_layer, surface_has_id, layer_has_id,
  screen_has_id, surface_properties_has_id,
}
use uhmi_ivi_wm.Tree.Layers.{
  layer_count, count-update_element, All-update_element, layer_count-update_element, LayerPop,
  pop_layer-LayerPop,
}
use uhmi_ivi_wm.State.{State}
use uhmi_ivi_wm.Store.{insert_layer, add_layer, remove_layer, add_screen, remove_all}
use uhmi_ivi_wm.Store.Properties.{IsUnique-remove_all_surface, IsUnique-remove_screens}
use uhmi_ivi_wm.Decide.{reinsert_layer}
use uhmi_ivi_wm.Invariant.{IsWellFormed, HasUniqueSurfaces}
use uhmi_ivi_wm.Invariant.Store.{with_properties-IsWellFormed}

-- One more layer in a screen, with an id that no layer has.
insert_layer-IsWellFormed :
    (screen_id : ℕ) (l : LayerElement) (info : InsertInfo) (s : State)
    → layer_count l.id s.screens ≡ 0
    → HasUniqueSurfaces l
    → IsWellFormed s
    → IsWellFormed (record s { screens = update_element screen_id (insert_layer l info) s.screens })
insert_layer-IsWellFormed screen_id l info s new u w = record {
  screens_unique = λ k. omega (
    arith,
    count-update_element k screen_id (insert_layer l info) s.screens (λ x. refl),
    w.screens_unique k,
  );
  layers_unique = λ k. at_most_one k;
  surfaces_unique =
      All-update_element (λ x. All HasUniqueSurfaces x.layers) screen_id (insert_layer l info)
        s.screens (λ x a. All-insert HasUniqueSurfaces x.layers l info a u) w.surfaces_unique;
  properties_unique = w.properties_unique;
}
  where
    grows :
        (k : ℕ)
        → layer_count k (update_element screen_id (insert_layer l info) s.screens)
          ≤ count k (l ∷ []) + layer_count k s.screens
    grows k =
        layer_count-update_element k (count k (l ∷ [])) screen_id (insert_layer l info) s.screens
          (λ x. count-insert k x.layers l info)

    at_most_one :
        (k : ℕ) → layer_count k (update_element screen_id (insert_layer l info) s.screens) ≤ 1
    at_most_one k = elim (Bool-cases (l.id == k)) [
      | inl e ↦
          let none_yet : layer_count k s.screens ≡ 0 =
            subst (λ j. layer_count j s.screens ≡ 0) ((==_iff l.id k).0 e) new in
          ground (arith, grows k)
      | inr ne ↦ ground (arith, grows k, w.layers_unique k)
    ]

-- The facts about a pop of a layer, from a well-formed state.
pop_facts :
    (k i : ℕ) (s : State) (o : Option (LayerElement × List ScreenElement))
    → pop_layer s.screens i ≡ o
    → IsWellFormed s
    → LayerPop k i HasUniqueSurfaces s.screens o
pop_facts k i s o e w =
    subst (LayerPop k i HasUniqueSurfaces s.screens) e
      (pop_layer-LayerPop k i HasUniqueSurfaces s.screens w.surfaces_unique)

-- After a pop the tree is well formed, and has no layer with the popped id.
pub popped-IsWellFormed :
    (i : ℕ) (s : State) (l : LayerElement) (screens : List ScreenElement)
    → pop_layer s.screens i ≡ some (l, screens)
    → IsWellFormed s
    → IsWellFormed (record s { screens = screens })
popped-IsWellFormed i s l screens e w = record {
  screens_unique = λ k. omega (arith, w.screens_unique k, (pop_facts k i s _ e w).2);
  layers_unique = λ k. omega (arith, w.layers_unique k, (pop_facts k i s _ e w).0);
  surfaces_unique = (pop_facts 0 i s _ e w).4;
  properties_unique = w.properties_unique;
}

pub popped_gone :
    (i : ℕ) (s : State) (l : LayerElement) (screens : List ScreenElement)
    → pop_layer s.screens i ≡ some (l, screens)
    → IsWellFormed s
    → layer_count i screens ≡ 0
popped_gone i s l screens e w =
    ground (arith, w.layers_unique i, (pop_facts i i s _ e w).0, (pop_facts i i s _ e w).1)

pub add_layer-IsWellFormed :
    (screen_id : ℕ) (prop : LayerProperties) (layer_id : ℕ) (info : InsertInfo) (s : State)
    → pop_layer s.screens layer_id ≡ none
    → IsWellFormed s
    → IsWellFormed (add_layer screen_id prop layer_id info s)
unfolding add_layer
add_layer-IsWellFormed screen_id prop layer_id info s e w =
    insert_layer-IsWellFormed screen_id (record { id = layer_id; prop = prop; surfaces = [] }) info
      s (pop_facts layer_id layer_id s none e w) (λ k. omega arith) w

pub reinsert_layer-IsWellFormed :
    (screen_id layer_id : ℕ) (prop : LayerProperties) (info : InsertInfo) (s : State)
    (l : LayerElement) (screens : List ScreenElement)
    → pop_layer s.screens layer_id ≡ some (l, screens)
    → IsWellFormed s
    → IsWellFormed (reinsert_layer screen_id (record l { prop = prop }) info screens s)
reinsert_layer-IsWellFormed screen_id layer_id prop info s l screens e w =
    insert_layer-IsWellFormed screen_id (record l { prop = prop }) info
      (record s { screens = screens })
      (subst (λ j. layer_count j screens ≡ 0) (sym (pop_facts 0 layer_id s _ e w).1)
        (popped_gone layer_id s l screens e w))
      (pop_facts 0 layer_id s _ e w).3 (popped-IsWellFormed layer_id s l screens e w)

pub remove_layer-IsWellFormed :
    (layer_id : ℕ) (s : State) → IsWellFormed s → IsWellFormed (remove_layer layer_id s)
unfolding remove_layer
remove_layer-IsWellFormed layer_id s w = elim (Option-cases (pop_layer s.screens layer_id)) [
  | inl e ↦ rw (e, remove_layer) w
  | inr ((l, screens), e) ↦
      rw (e, remove_layer)
        (with_properties-IsWellFormed s screens _ (popped-IsWellFormed layer_id s l screens e w)
          (IsUnique-remove_all_surface l.surfaces s.surface_properties w.properties_unique))
]

pub remove_all-IsWellFormed : (s : State) → IsWellFormed s → IsWellFormed (remove_all s)
unfolding remove_all
remove_all-IsWellFormed s w = record {
  screens_unique = λ k. omega arith;
  layers_unique = λ k. omega arith;
  surfaces_unique = tt;
  properties_unique = IsUnique-remove_screens s.screens s.surface_properties w.properties_unique;
}

layer_count-append :
    (k : ℕ) (xs ys : List ScreenElement)
    → layer_count k (xs ++ ys) ≡ layer_count k xs + layer_count k ys
layer_count-append k [] ys = omega arith
layer_count-append k (x ∷ xs) ys = omega (arith, layer_count-append k xs ys)

pub add_screen-IsWellFormed :
    (screen_id : ℕ) (s : State)
    → count screen_id s.screens ≡ 0
    → IsWellFormed s
    → IsWellFormed (add_screen screen_id s)
unfolding add_screen insert_list_element
add_screen-IsWellFormed screen_id s new w = record {
  screens_unique =
      IsUnique-insert s.screens (record { id = screen_id; layers = [] }) insert_info_default new
        w.screens_unique;
  layers_unique = λ k. omega (
    arith,
    w.layers_unique k,
    layer_count-append k s.screens (record { id = screen_id; layers = [] } ∷ []),
  );
  surfaces_unique =
      All-append (λ x. All HasUniqueSurfaces x.layers) s.screens
        (record { id = screen_id; layers = [] } ∷ []) w.surfaces_unique (tt, tt);
  properties_unique = w.properties_unique;
}
