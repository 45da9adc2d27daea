-- ===== src/Store/Sending.antt =====
-- The render orders that app/comm_parser.c sends for a layer and for a screen.
use uhmi_ivi_wm.Base.{
  Among, Bool-cases, inl, inr, true, ==_iff, ◌==◌, arith, ℕ, List, [], ◌∷◌, ◌≡◌, refl,
  if◌then◌else◌, map,
}
use uhmi_ivi_wm.Exec.{returned, ◌>>=◌, ◌>>◌, visit}
use uhmi_ivi_wm.Tree.{SurfaceElement, LayerElement, ScreenElement}
use uhmi_ivi_wm.Ilm.{IlmCall, Ilm}
use uhmi_ivi_wm.State.{State}
use uhmi_ivi_wm.Wrapper.{
  call, query, call_or_exit, contains_id, wrap_ilm_module_exists, wrap_ilm_surface_exists,
  wrap_ilm_set_layer, wrap_ilm_add_layer_to_screen, wrap_ilm_add_surface_to_layer,
}
use uhmi_ivi_wm.Wrapper.Returns.{
  Returns, Returns-pure, Returns-bind, Returns-visit, IsObliging, Returns-wrap_ilm_surface_exists,
  Returns-wrap_ilm_set_layer, Returns-wrap_ilm_add_surface_to_layer,
}
use uhmi_ivi_wm.Store.{existing_surfaces, add_exists_surfaces_to_layer, add_layers_to_screen}

-- The surfaces do not come and go.
abbrev pub IsSteady : Ilm → List ℕ → Type 0
IsSteady ilm ids = (h : List IlmCall) → ilm.surface_ids h ≡ ids

-- One query for each surface.
abbrev pub queried : List SurfaceElement → List IlmCall → List IlmCall
queried [] h = h
queried (x ∷ xs) h = queried xs (IlmCall.get_surface_ids ∷ h)

-- The surfaces of a layer that are among `ids`, in the layer's order.
pub data Shown (ids : List ℕ) : List SurfaceElement → List ℕ → Type 0 where
  no_more : Shown ids [] []
  exists_there :
      {xs : List SurfaceElement} {out : List ℕ} (x : SurfaceElement)
      → Among x.id ids
      → Shown ids xs out
      → Shown ids (x ∷ xs) (x.id ∷ out)
  not_there :
      {xs : List SurfaceElement} {out : List ℕ} (x : SurfaceElement)
      → ¬ Among x.id ids
      → Shown ids xs out
      → Shown ids (x ∷ xs) out

module _ (ilm : Ilm) where
  contains_id-Among : (ids : List ℕ) (i : ℕ) → contains_id ilm ids i ≡ true → Among i ids
  unfolding contains_id
  contains_id-Among [] i e = cc
  contains_id-Among (x ∷ ids) i e = elim (Bool-cases (x == i)) [
    | inl here ↦ inl ((==_iff x i).0 here)
    | inr other ↦ inr (contains_id-Among ids i (ground (arith, e, other)))
  ]

  Among-contains_id : (ids : List ℕ) (i : ℕ) → Among i ids → contains_id ilm ids i ≡ true
  unfolding contains_id
  Among-contains_id [] i among = absurd among
  Among-contains_id (x ∷ ids) i (inl e) = ground (arith, e)
  Among-contains_id (x ∷ ids) i (inr later) = ground (arith, Among-contains_id ids i later)

  abbrev shown : List ℕ → List SurfaceElement → List ℕ
  shown ids [] = []
  shown ids (x ∷ xs) = if contains_id ilm ids x.id then x.id ∷ shown ids xs else shown ids xs

  shown-Shown : (ids : List ℕ) (xs : List SurfaceElement) → Shown ids xs (shown ids xs)
  shown-Shown ids [] = no_more
  shown-Shown ids (x ∷ xs) = elim (Bool-cases (contains_id ilm ids x.id)) [
    | inl e ↦ rw e (exists_there x (contains_id-Among ids x.id e) (shown-Shown ids xs))
    | inr e ↦
        rw e (not_there x (λ among. cc (e, Among-contains_id ids x.id among)) (shown-Shown ids xs))
  ]

module _ (ilm : Ilm) (obliging : IsObliging ilm) where
  existing_surfaces-shown :
      (ids : List ℕ) (xs : List SurfaceElement) (s : State)
      → IsSteady ilm ids
      → existing_surfaces ilm xs s
        ≡ returned (shown ilm ids xs) (record s { calls = queried xs s.calls })
  unfolding existing_surfaces wrap_ilm_surface_exists wrap_ilm_module_exists query ◌>>=◌
  existing_surfaces-shown ids [] s steady = refl
  existing_surfaces-shown ids (x ∷ xs) s steady =
      rw
        (
          obliging s.calls IlmCall.get_surface_ids,
          steady s.calls,
          existing_surfaces-shown ids xs (record s { calls = IlmCall.get_surface_ids ∷ s.calls })
              steady,
        )
        refl

  -- Where every call succeeds and the surfaces `ids` exist throughout, the render order that is
  -- sent for a layer holds its surfaces that are among `ids` and no others, in the layer's order, after
  -- one query for each of its surfaces; the lists stay as they were.
  pub add_exists_surfaces_to_layer-Shown :
      (ids : List ℕ) (l : LayerElement) (s : State)
      → IsSteady ilm ids
      → (sent : List ℕ) × Shown ids l.surfaces sent
        × (add_exists_surfaces_to_layer ilm l s
            ≡ returned tt (record s {
              calls =
                  IlmCall.commit_changes
                  ∷ IlmCall.layer_set_render_order l.id sent
                  ∷ queried l.surfaces s.calls;
            }))
  unfolding add_exists_surfaces_to_layer wrap_ilm_add_surface_to_layer call_or_exit call ◌>>=◌
  add_exists_surfaces_to_layer-Shown ids l s steady = (
    shown ilm ids l.surfaces,
    shown-Shown ilm ids l.surfaces,
    rw
        (
          existing_surfaces-shown ids l.surfaces s steady,
          obliging (queried l.surfaces s.calls)
              (IlmCall.layer_set_render_order l.id (shown ilm ids l.surfaces)),
        )
        refl,
  )

  Returns-existing_surfaces : (xs : List SurfaceElement) → Returns (existing_surfaces ilm xs)
  unfolding existing_surfaces
  Returns-existing_surfaces [] = Returns-pure []
  Returns-existing_surfaces (x ∷ xs) =
      Returns-bind _ _ (Returns-wrap_ilm_surface_exists ilm obliging x.id)
        (λ e. Returns-bind _ _ (Returns-existing_surfaces xs) (λ ids. Returns-pure _))

  Returns-add_exists_surfaces_to_layer :
      (l : LayerElement) → Returns (add_exists_surfaces_to_layer ilm l)
  unfolding add_exists_surfaces_to_layer
  Returns-add_exists_surfaces_to_layer l =
      Returns-bind _ _ (Returns-existing_surfaces l.surfaces)
        (λ ids. Returns-wrap_ilm_add_surface_to_layer ilm obliging l.id ids)

  -- Where every call succeeds, the function that sends a screen returns with the lists as they
  -- were, and the last that it sends is the render order of all layers of the screen, which it
  -- commits.
  pub add_layers_to_screen-sends :
      (scr : ScreenElement) (s : State)
      → (h : List IlmCall) × (add_layers_to_screen ilm scr s
          ≡ returned tt (record s {
            calls =
                IlmCall.commit_changes
                ∷ IlmCall.display_set_render_order scr.id (map (λ l. l.id) scr.layers)
                ∷ h;
          }))
  unfolding add_layers_to_screen wrap_ilm_add_layer_to_screen call_or_exit call ◌>>=◌
  add_layers_to_screen-sends scr s = (
    layers_sent.calls s,
    rw
        (
          layers_sent.at s,
          obliging (layers_sent.calls s)
              (IlmCall.display_set_render_order scr.id (map (λ l. l.id) scr.layers)),
        )
        refl,
  )
    where
      layers_sent : Returns (
          visit scr.layers
            (λ l. wrap_ilm_set_layer ilm l.prop l.id >> add_exists_surfaces_to_layer ilm l))
      layers_sent = Returns-visit scr.layers _ (λ l.
          Returns-bind _ _ (Returns-wrap_ilm_set_layer ilm obliging l.prop l.id)
            (λ _. Returns-add_exists_surfaces_to_layer l))
