-- ===== src/Commands/Modify.antt =====
-- What the commands `modify_layer` and `modify_surface` of app/comm_parser.c change, and what not.
use uhmi_ivi_wm.Base.{
  ℕ, ◌≡◌, refl, Option, some, arith, inl, inr, Bool-cases, if◌then◌else◌, ◌==◌, ==_iff,
}
use uhmi_ivi_wm.Exec.{◌>>=◌}
use uhmi_ivi_wm.Exec.Keeps.{Holds, Holds-weaken}
use uhmi_ivi_wm.ElementList.{get_list_element}
use uhmi_ivi_wm.Tree.{LayerElement, SurfacePropertiesElement, get_layer, surface_properties_has_id}
use uhmi_ivi_wm.Tree.Lookup.{
  get-update_same, get-update_other, get_layer-update_same, get_layer-update_other,
}
use uhmi_ivi_wm.State.{State}
use uhmi_ivi_wm.Wrapper.Keeps.{IsQuiet, Keeps-wrap_ilm_set_layer, Keeps-wrap_ilm_set_surface}
use uhmi_ivi_wm.Json.{CmdType}
use uhmi_ivi_wm.Json.Properties.{parse_surface_properties, parse_mod_properties}
use uhmi_ivi_wm.Json.Fields.{
  IsChanged, IsLayerChanged, parse_mod-IsChanged, parse_layer_properties-IsLayerChanged,
}
use uhmi_ivi_wm.Properties.{LayoutProperties, LayerProperties}
use uhmi_ivi_wm.Store.{with_prop}
use uhmi_ivi_wm.Decide.{parsed_layer}
use uhmi_ivi_wm.Commands.{set_layer_prop, modify_layer, modify_surface}
use uhmi_ivi_wm.Env.{Env}

-- The layer `i` is `l`, and every other layer and the surface properties are as in `s`.
pub record HasLayer (s : State) (i : ℕ) (l : LayerElement) (t : State) : Type 0 where
  pub layers : (k : ℕ) → get_layer t.screens k ≡ (if k == i then some l else get_layer s.screens k)
  pub properties : t.surface_properties ≡ s.surface_properties

-- The surface `i` has the properties `elm`, and every other surface and the tree are as in `s`.
pub record HasSurfaceProperties (s : State) (i : ℕ) (elm : SurfacePropertiesElement) (t : State)
    : Type 0 where
  pub properties :
      (k : ℕ)
      → get_list_element t.surface_properties k
        ≡ (if k == i then some elm else get_list_element s.surface_properties k)
  pub tree : t.screens ≡ s.screens

HasLayer-quiet : (s : State) (i : ℕ) (l : LayerElement) → IsQuiet (HasLayer s i l)
HasLayer-quiet s i l c t h = record { layers = h.layers; properties = h.properties }

HasSurfaceProperties-quiet :
    (s : State) (i : ℕ) (elm : SurfacePropertiesElement) → IsQuiet (HasSurfaceProperties s i elm)
HasSurfaceProperties-quiet s i elm c t h = record { properties = h.properties; tree = h.tree }

module _ {J : Type 0} (env : Env J) where
  modify_layer-prop :
      (j : Option J) (i : ℕ) (l : LayerElement) (s : State)
      → get_layer s.screens i ≡ some l
      → Holds
          (HasLayer s i (set_layer_prop (parsed_layer env l.prop j CmdType.modify) l))
          (HasLayer s i (set_layer_prop (parsed_layer env l.prop j CmdType.modify) l))
          (modify_layer env j i l s)
  unfolding modify_layer ◌>>=◌
  modify_layer-prop j i l s e =
      (Keeps-wrap_ilm_set_layer env.ilm (HasLayer-quiet s i _)
          (λ c t q fails h. HasLayer-quiet s i _ c t h) _ i).at
        _
        (record {
          layers = λ k. elim (Bool-cases (k == i)) [
            | inl eq ↦
                rw (eq, (==_iff k i).0 eq) (get_layer-update_same i _ s.screens l (λ y. refl) e)
            | inr ne ↦
                rw ne (get_layer-update_other k i _ s.screens (λ y. refl) (λ p. ground (arith, p)))
          ];
          properties = refl;
        })

  -- The layer `i` has properties that are taken from the JSON, and its other fields as in `l`.
  abbrev pub LayerChanges : Option J → ℕ → LayerElement → State → State → Type 0
  LayerChanges j i l s t =
      (prop : LayerProperties) × IsLayerChanged env.jansson j l.prop prop
      × HasLayer s i (record l { prop = prop }) t

  -- However it ends, a change of a layer in the tree gives each of its properties the value in the JSON,
  -- and leaves it as it was where the JSON has none of its type; it leaves the layer's surfaces, every
  -- other layer and all surface properties as they were.
  pub modify_layer-HasLayer :
      (j : Option J) (i : ℕ) (l : LayerElement) (s : State)
      → get_layer s.screens i ≡ some l
      → Holds (LayerChanges j i l s) (LayerChanges j i l s) (modify_layer env j i l s)
  unfolding parsed_layer
  modify_layer-HasLayer j i l s e =
      let changed : IsLayerChanged env.jansson j l.prop (parsed_layer env l.prop j CmdType.modify) =
        parse_layer_properties-IsLayerChanged env.jansson j l.prop in
      let weaken : (t : State)
          → HasLayer s i (set_layer_prop (parsed_layer env l.prop j CmdType.modify) l) t
          → LayerChanges j i l s t =
        λ t h. (parsed_layer env l.prop j CmdType.modify, changed, h) in
      Holds-weaken _ (LayerChanges j i l s) _ (LayerChanges j i l s) (modify_layer env j i l s)
        weaken weaken (modify_layer-prop j i l s e)

  modify_surface-prop :
      (j : Option J) (i : ℕ) (elm : SurfacePropertiesElement) (s : State)
      → get_list_element s.surface_properties i ≡ some elm
      → Holds
          (HasSurfaceProperties s i
            (with_prop (parse_surface_properties env.jansson elm.prop j CmdType.modify) elm))
          (HasSurfaceProperties s i
            (with_prop (parse_surface_properties env.jansson elm.prop j CmdType.modify) elm))
          (modify_surface env j i elm.prop s)
  unfolding modify_surface ◌>>=◌
  modify_surface-prop j i elm s e =
      (Keeps-wrap_ilm_set_surface env.ilm (HasSurfaceProperties-quiet s i _)
          (λ c t q fails h. HasSurfaceProperties-quiet s i _ c t h) _ i).at
        _
        (record {
          properties = λ k. elim (Bool-cases (k == i)) [
            | inl eq ↦
                rw (eq, (==_iff k i).0 eq)
                  (get-update_same i _ s.surface_properties elm (λ y. refl) e)
            | inr ne ↦
                rw ne
                  (get-update_other k i _ s.surface_properties (λ y. refl) (λ p. ground (arith, p)))
          ];
          tree = refl;
        })

  -- The surface `i` has a layout that is taken from the JSON, and its other properties as in `elm`.
  abbrev pub SurfaceChanges : Option J → ℕ → SurfacePropertiesElement → State → State → Type 0
  SurfaceChanges j i elm s t =
      (lp : LayoutProperties) × IsChanged env.jansson j elm.prop.lp lp
      × HasSurfaceProperties s i
          (record elm { prop = record { referred_cnt = elm.prop.referred_cnt; lp = lp } }) t

  -- However it ends, a change of a surface that has properties gives each of them the value in the JSON,
  -- and leaves it as it was where the JSON has none of its type; it leaves the reference count, every
  -- other surface's properties and the whole tree as they were.
  pub modify_surface-HasSurfaceProperties :
      (j : Option J) (i : ℕ) (elm : SurfacePropertiesElement) (s : State)
      → get_list_element s.surface_properties i ≡ some elm
      → Holds
          (SurfaceChanges j i elm s)
          (SurfaceChanges j i elm s)
          (modify_surface env j i elm.prop s)
  unfolding parse_surface_properties
  modify_surface-HasSurfaceProperties j i elm s e =
      let lp = parse_mod_properties env.jansson elm.prop.lp j in
      let weaken : (t : State)
          → HasSurfaceProperties s i
              (with_prop (parse_surface_properties env.jansson elm.prop j CmdType.modify) elm) t
          → SurfaceChanges j i elm s t =
        λ t h. (lp, parse_mod-IsChanged env.jansson j elm.prop.lp, h) in
      Holds-weaken _ (SurfaceChanges j i elm s) _ (SurfaceChanges j i elm s)
        (modify_surface env j i elm.prop s) weaken weaken (modify_surface-prop j i elm s e)
