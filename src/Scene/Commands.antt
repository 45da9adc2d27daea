-- ===== src/Scene/Commands.antt =====
-- The handlers of app/comm_parser.c do to the scene what `Scene.Spec` says.
use uhmi_ivi_wm.Base.{ℕ, refl, String, Option, none, some, inl, inr, Bool-cases, ltb}
use uhmi_ivi_wm.Exec.{Exec, Status, success, pure, modify, ◌>>=◌, ◌>>◌, fault}
use uhmi_ivi_wm.Exec.Keeps.{Keeps, Keeps-pure, Anything, Keeps-if}
use uhmi_ivi_wm.InsertOrder.{InsertInfo, insert_info_default}
use uhmi_ivi_wm.Tree.{layer_has_id, screen_has_id, surface_has_id}
use uhmi_ivi_wm.State.{State}
use uhmi_ivi_wm.Wrapper.{wrap_ilm_remove_layer, wrap_ilm_remove_surface}
use uhmi_ivi_wm.Wrapper.Keeps.{Keeps-wrap_ilm_remove_layer, Keeps-wrap_ilm_remove_surface}
use uhmi_ivi_wm.Store.{remove_surface, remove_layer}
use uhmi_ivi_wm.Commands.{
  send_screen, send_layer, add_layers, parse_add_layer_command, parse_remove_layer_command,
  add_surfaces, parse_add_surface_command, remove_surfaces, parse_remove_surface_command,
}
use Prim.Native.String.{len}
use uhmi_ivi_wm.Json.{
  CmdType, parse_insert_info, get_json_string_value, parse_layers, parse_surfaces, parse_screens,
  parse_id,
}
use uhmi_ivi_wm.Json.Properties.{integer_or}
use uhmi_ivi_wm.Json.Reading.{integer_or-TakesInteger}
use uhmi_ivi_wm.Commands.Keeps.{SendsKeep, Keeps-send_screen, Keeps-send_layer}
use uhmi_ivi_wm.Invariant.Decide.{
  decide_add_or_update_layer-IsWellFormed, decide_add_or_update_surface-IsWellFormed,
}
use uhmi_ivi_wm.Scene.Placement.{
  decide_add_or_update_layer-places, decide_add_or_update_surface-places,
}
use uhmi_ivi_wm.Scene.Spec.{
  LayersOnto, SurfacesOnto, SurfacesOntoScreen, HasInfo, Change, Becomes, EachOf, WithId, HasScreen,
  HasLayer, If, RemovesLayers, RemovesSurfaces, AddsLayers, AddsSurfaces,
}
use uhmi_ivi_wm.Env.{Env}
use uhmi_ivi_wm.Invariant.Commands.{removals as removals-IsWellFormed}
use uhmi_ivi_wm.Scene.{Scene, take_layer, take_surface, place_layer, place_surface}
use uhmi_ivi_wm.Scene.Sim.{
  Seen, Sim, IsUnseen, Sim-change, Sim-for_each_of, Sim-with_id, Sim-then_send,
}
use uhmi_ivi_wm.Scene.Effects.{
  Seen-quiet, view-remove_layer, view-remove_surface, Sim-becomes, both, Sim-becomes_only,
  Sim-layer_there, Sim-screen_there, order_of-Names,
}

module _ {J : Type 0} (env : Env J) where
  open env use {jansson, ilm}

  -- The place that is asked for is read, where its text fits its buffer.
  Sim-info :
      (j : Option J) (R : Change) (f : InsertInfo → Exec State Status)
      → ((info : InsertInfo) → HasInfo jansson j info → Sim R (f info))
      → Sim R (parse_insert_info jansson insert_info_default j >>= f)
  unfolding parse_insert_info get_json_string_value ◌>>=◌
  Sim-info j R f next =
      let refid = integer_or-TakesInteger jansson j "referenceID" 0 in
      let value = jansson.json_object_get j "insert_order" in
      elim (Bool-cases (jansson.json_is_string value)) [
        | inl e ↦ elim (Bool-cases (ltb (len (jansson.json_string_value value)) 32)) [
          | inl short ↦
              rw (e, short)
                (record {
                  at =
                      (next _ (record {
                        text = some (jansson.json_string_value value);
                        has_text = (e, refl);
                        order = order_of-Names jansson _;
                        refid = refid;
                      })).at;
                })
          | inr long ↦ rw (e, long) (record { at = λ s w. tt })
        ]
        | inr e ↦ rw e (record {
          at =
              (next _ (record {
                text = none;
                has_text = e;
                order = order_of-Names jansson _;
                refid = refid;
              })).at;
        })
      ]

  pub text_read :
      (a : Scene) (j : Option J) (key : String) (size : ℕ)
      → Keeps (Seen a) Anything (get_json_string_value jansson {S = State} j key size)
  unfolding get_json_string_value
  text_read a j key size = search (Keeps-pure, Keeps-if, faults)
    where
      faults : {A : Type 0} → Keeps (Seen a) Anything (fault {A = A})
      faults = record { at = λ s r. tt }

  layer_removed : (i : ℕ) → IsUnseen (wrap_ilm_remove_layer ilm i)
  layer_removed i a = Keeps-wrap_ilm_remove_layer ilm (Seen-quiet a) (λ c s which fails h. tt) i

  surface_removed : (i k : ℕ) → IsUnseen (wrap_ilm_remove_surface ilm i k)
  surface_removed i k a =
      Keeps-wrap_ilm_remove_surface ilm (Seen-quiet a) (λ c s which fails h. tt) i k

  pub Sim-parse_remove_layer_command :
      (j : Option J) → Sim (RemovesLayers jansson j) (parse_remove_layer_command env j)
  unfolding parse_remove_layer_command parse_layers
  Sim-parse_remove_layer_command j = Sim-for_each_of env j "layers" _ _ (λ layer.
      Sim-with_id env layer _ _ (λ i.
        Sim-becomes (take_layer i) (modify (remove_layer i)) _
          (λ s w. (removals-IsWellFormed.layer_removed i s w, view-remove_layer i s w))
          (layer_removed i)))

  remove_one :
      (layer_id i : ℕ)
      → Sim (Becomes (take_surface layer_id i)) (
          modify (remove_surface layer_id i)
          >> (wrap_ilm_remove_surface ilm layer_id i >> pure success))
  remove_one layer_id i =
      Sim-becomes (take_surface layer_id i) (modify (remove_surface layer_id i)) _
        (λ s w. (
          removals-IsWellFormed.surface_removed layer_id i s w,
          view-remove_surface layer_id i s w,
        ))
        (surface_removed layer_id i)

  Sim-remove_surfaces :
      (layer : Option J) (layer_id : ℕ)
      → Sim
          (EachOf jansson layer "surfaces"
            (λ surface. WithId jansson surface (λ i. Becomes (take_surface layer_id i))))
          (remove_surfaces env layer layer_id)
  unfolding remove_surfaces parse_surfaces
  Sim-remove_surfaces layer layer_id =
      Sim-for_each_of env layer "surfaces" _ _
        (λ surface. Sim-with_id env surface _ _ (remove_one layer_id))

  pub Sim-parse_remove_surface_command :
      (j : Option J) → Sim (RemovesSurfaces jansson j) (parse_remove_surface_command env j)
  unfolding parse_remove_surface_command parse_layers
  Sim-parse_remove_surface_command j = Sim-for_each_of env j "layers" _ _ (λ layer.
      Sim-with_id env layer _ _ (λ layer_id.
        Sim-layer_there layer_id _ (remove_surfaces env layer layer_id)
          (Sim-remove_surfaces layer layer_id)))

  pub sends_unseen : (a : Scene) (root : Option J) → SendsKeep env root (Seen a) Anything
  sends_unseen a root = record {
    quiet = Seen-quiet a;
    answers = λ c s which fails h. tt;
    order_text = λ j part. text_read a j "insert_order" 32;
  }

  Sim-add_layers :
      (screen : Option J) (screen_id : ℕ) (info : InsertInfo)
      → Sim
          (EachOf jansson screen "layers"
            (λ layer. WithId jansson layer (λ i. Becomes (place_layer screen_id i info))))
          (add_layers env screen screen_id info)
  unfolding add_layers parse_layers
  Sim-add_layers screen screen_id info =
      Sim-then_send _ _ (send_screen env screen_id)
        (Sim-for_each_of env screen "layers" _ _ (λ layer. Sim-with_id env layer _ _ (λ i.
          Sim-becomes_only (place_layer screen_id i info) _ (λ s w.
            both _ _ _ _
              ((decide_add_or_update_layer-IsWellFormed env screen_id layer i CmdType.add info).at s
                w)
              (decide_add_or_update_layer-places env screen_id layer i CmdType.add info s w)
              (λ t e. e)))))
        (λ a. Keeps-send_screen env (sends_unseen a none) screen_id)

  Sim-add_surfaces :
      (layer : Option J) (layer_id : ℕ) (info : InsertInfo)
      → Sim
          (EachOf jansson layer "surfaces"
            (λ surface. WithId jansson surface (λ i. Becomes (place_surface layer_id i info))))
          (add_surfaces env layer layer_id info)
  unfolding add_surfaces parse_surfaces
  Sim-add_surfaces layer layer_id info =
      Sim-then_send _ _ (send_layer env layer_id)
        (Sim-for_each_of env layer "surfaces" _ _ (λ surface. Sim-with_id env surface _ _ (λ i.
          Sim-becomes_only (place_surface layer_id i info) _ (λ s w.
            both _ _ _ _
              ((decide_add_or_update_surface-IsWellFormed env layer_id surface i CmdType.add
                  info).at
                s w)
              (decide_add_or_update_surface-places env layer_id surface i CmdType.add info s w)
              (λ t e. e)))))
        (λ a. Keeps-send_layer env (sends_unseen a none) layer_id)

  layers_onto :
      (screen : Option J) (info : InsertInfo)
      → HasInfo jansson screen info
      → (a : Scene) (st : Status) (b : Scene)
      → If
          (HasScreen (integer_or jansson screen "id" 0))
          (EachOf jansson screen "layers" (λ layer.
            WithId jansson layer
              (λ i. Becomes (place_layer (integer_or jansson screen "id" 0) i info))))
          a
          st
          b
      → LayersOnto jansson screen a st b
  layers_onto screen info has a st b r = (
    integer_or jansson screen "id" 0,
    info,
    integer_or-TakesInteger jansson screen "id" 0,
    has,
    r,
  )

  surfaces_onto :
      (layer : Option J) (info : InsertInfo) (a : Scene) (st : Status) (b : Scene)
      → If
          (HasLayer (integer_or jansson layer "id" 0))
          (EachOf jansson layer "surfaces" (λ surface.
            WithId jansson surface
              (λ i. Becomes (place_surface (integer_or jansson layer "id" 0) i info))))
          a
          st
          b
      → SurfacesOnto jansson info layer a st b
  surfaces_onto layer info a st b r =
      (integer_or jansson layer "id" 0, integer_or-TakesInteger jansson layer "id" 0, r)

  surfaces_onto_screen :
      (screen : Option J) (info : InsertInfo)
      → HasInfo jansson screen info
      → (a : Scene) (st : Status) (b : Scene)
      → EachOf jansson screen "layers" (SurfacesOnto jansson info) a st b
      → SurfacesOntoScreen jansson screen a st b
  surfaces_onto_screen screen info has a st b r = (info, has, r)

  pub Sim-parse_add_layer_command :
      (j : Option J) → Sim (AddsLayers jansson j) (parse_add_layer_command env j)
  unfolding parse_add_layer_command parse_screens parse_id
  Sim-parse_add_layer_command j = Sim-for_each_of env j "screens" (LayersOnto jansson) _ (λ screen.
      Sim-info screen _ _ (λ info has.
        Sim-change _ (LayersOnto jansson screen) _ (layers_onto screen info has)
          (Sim-screen_there _ _ _ (Sim-add_layers screen _ info))))

  pub Sim-parse_add_surface_command :
      (j : Option J) → Sim (AddsSurfaces jansson j) (parse_add_surface_command env j)
  unfolding parse_add_surface_command parse_screens parse_layers parse_id
  Sim-parse_add_surface_command j =
      Sim-for_each_of env j "screens" (SurfacesOntoScreen jansson) _ (λ screen.
        Sim-info screen _ _ (λ info has.
          Sim-change _ (SurfacesOntoScreen jansson screen) _ (surfaces_onto_screen screen info has)
            (Sim-for_each_of env screen "layers" (SurfacesOnto jansson info) _ (λ layer.
              Sim-change _ (SurfacesOnto jansson info layer) _ (surfaces_onto layer info)
                (Sim-layer_there _ _ _ (Sim-add_surfaces layer _ info))))))
