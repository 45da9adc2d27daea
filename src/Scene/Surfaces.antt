-- ===== src/Scene/Surfaces.antt =====
-- What a write to a layer of the tree looks like in the scene, where no layer stands twice.
use uhmi_ivi_wm.Base.{
  ℕ, ◌≤◌, ◌≡◌, refl, sym, ap, ◌∙◌, List, [], ◌∷◌, map, some, some-eq-some, ◌==◌, if◌then◌else◌, inl,
  inr, Bool-cases, Option-cases, arith,
}
use uhmi_ivi_wm.ElementList.{get_list_element}
use uhmi_ivi_wm.ElementList.Count.{count, count-get_none, count-get_some}
use uhmi_ivi_wm.Tree.{
  LayerElement, ScreenElement, layer_has_id, update_element, get_layer, with_layers, update_layer,
}
use uhmi_ivi_wm.Tree.Layers.{layer_count}
use uhmi_ivi_wm.Scene.{LayerView, layer_view, screen_view, on_layer}
use uhmi_ivi_wm.Scene.Queue.{update_element-map, update_element-found}

-- Only what is written to the layer that is found matters.
pub update_layer-found :
    (i : ℕ) (f g : LayerElement → LayerElement) (xs : List ScreenElement) (l : LayerElement)
    → get_layer xs i ≡ some l
    → f l ≡ g l
    → update_layer i f xs ≡ update_layer i g xs
unfolding get_layer update_layer
update_layer-found i f g [] l e same = refl
update_layer-found i f g (x ∷ xs) l e same = elim (Option-cases (get_list_element x.layers i)) [
  | inl absent ↦
      rw (absent, update_layer)
        (ap (◌∷◌ x) (update_layer-found i f g xs l (rw (absent, get_layer) at e) same))
  | inr (m, found) ↦
      let m_is : m ≡ l = some-eq-some (rw (found, get_layer) at e) in
      rw (found, update_layer)
        (ap (λ ls. with_layers x ls ∷ xs)
          (update_element-found i f g x.layers m found (ap f m_is ∙ (same ∙ ap g (sym m_is)))))
]

element_unseen :
    (i : ℕ) (f : LayerElement → LayerElement) (ls : List LayerElement)
    → ((l : LayerElement) → layer_view (f l) ≡ layer_view l)
    → map layer_view (update_element i f ls) ≡ map layer_view ls
unfolding update_element
element_unseen i f [] same = refl
element_unseen i f (l ∷ ls) same = elim (Bool-cases (l.id == i)) [
  | inl e ↦ rw e (ap (λ v. v ∷ map layer_view ls) (same l))
  | inr ne ↦ rw ne (ap (◌∷◌ (layer_view l)) (element_unseen i f ls same))
]

-- A write that a view does not show.
pub update_layer_unseen :
    (i : ℕ) (f : LayerElement → LayerElement) (xs : List ScreenElement)
    → ((l : LayerElement) → layer_view (f l) ≡ layer_view l)
    → map screen_view (update_layer i f xs) ≡ map screen_view xs
unfolding update_layer
update_layer_unseen i f [] same = refl
update_layer_unseen i f (x ∷ xs) same = elim (Option-cases (get_list_element x.layers i)) [
  | inl absent ↦
      rw (absent, update_layer) (ap (◌∷◌ (screen_view x)) (update_layer_unseen i f xs same))
  | inr (m, found) ↦
      rw (found, update_layer)
        (ap (λ vs. record { id = x.id; layers = vs } ∷ map screen_view xs)
          (element_unseen i f x.layers same))
]

module _ (i : ℕ) (fs : List ℕ → List ℕ) where
  changed : LayerView → LayerView
  changed l = if l.id == i then record l { surfaces = fs l.surfaces } else l

  changed_absent :
      (ls : List LayerElement)
      → count i ls ≡ 0
      → map changed (map layer_view ls) ≡ map layer_view ls
  unfolding changed
  changed_absent [] c = refl
  changed_absent (l ∷ ls) c = ground (arith, changed_absent ls)

  on_layer_uncounted :
      (xs : List ScreenElement)
      → layer_count i xs ≡ 0
      → on_layer i fs (map screen_view xs) ≡ map screen_view xs
  unfolding changed
  on_layer_uncounted [] c = refl
  on_layer_uncounted (x ∷ xs) c =
      rw (changed_absent x.layers (omega (arith, c)), on_layer_uncounted xs (omega (arith, c))) refl

  module _ (f : LayerElement → LayerElement)
      (shows : (l : LayerElement)
        → layer_view (f l) ≡ record { id = l.id; surfaces = fs (map (λ x. x.id) l.surfaces) }) where
    changed_all :
        (ls : List LayerElement)
        → map layer_view (map (λ l. if l.id == i then f l else l) ls)
          ≡ map changed (map layer_view ls)
    unfolding changed
    changed_all [] = refl
    changed_all (l ∷ ls) = elim (Bool-cases (l.id == i)) [
      | inl e ↦ rw (e, shows l, changed_all ls) refl
      | inr ne ↦ rw (ne, changed_all ls) refl
    ]

    -- A write to the surfaces of a layer is a change of that layer in the scene.
    pub update_layer-on_layer :
        (xs : List ScreenElement)
        → layer_count i xs ≤ 1
        → map screen_view (update_layer i f xs) ≡ on_layer i fs (map screen_view xs)
    unfolding update_layer changed
    update_layer-on_layer [] u = refl
    update_layer-on_layer (x ∷ xs) u = elim (Option-cases (get_list_element x.layers i)) [
      | inl absent ↦
          rw
            (
              absent,
              update_layer,
              changed_absent x.layers (count-get_none i x.layers absent),
              update_layer-on_layer xs (omega (arith, u)),
            )
            refl
      | inr (m, found) ↦
          let rest : layer_count i xs ≡ 0 = omega (arith, u, count-get_some i x.layers m found) in
          rw
            (
              found,
              update_layer,
              update_element-map i f x.layers (omega (arith, u)),
              changed_all x.layers,
              on_layer_uncounted xs rest,
            )
            refl
    ]
