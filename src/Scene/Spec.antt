-- ===== src/Scene/Spec.antt =====
-- What each command does to the scene, written from the JSON alone: which values are read, in which
-- order, and where the reading stops. No function of app/comm_parser.c stands in it.
use uhmi_ivi_wm.Base.{
  map, Among, ℕ, ◌≡◌, ◌≢◌, ◌⊎◌, String, List, [], ◌∷◌, true, false, Option, none, some,
}
use uhmi_ivi_wm.Exec.{Status, success, failure}
use uhmi_ivi_wm.InsertOrder.{InsertOrder, InsertInfo}
use uhmi_ivi_wm.Jansson.{Jansson}
use uhmi_ivi_wm.Json.Reading.{HasInteger, TakesInteger}
use uhmi_ivi_wm.Scene.{
  Scene, Move, cleared, screen_added, layer_placed, surface_placed, Moves, take_layer, take_surface,
  place_layer, place_surface,
}

-- From a scene, with 0 or -1, to a scene.
abbrev pub Change : Type 1
Change = Scene → Status → Scene → Type 0

abbrev pub Stays : Change
Stays a st b = (st ≡ success) × (b ≡ a)

abbrev pub Fails : Change
Fails a st b = (st ≡ failure) × (b ≡ a)

-- The scene becomes what `f` makes of it.
abbrev pub Becomes : (Scene → Scene) → Change
Becomes f a st b = (st ≡ success) × (b ≡ f a)

-- One after the other, up to the first that fails.
pub data Each {J : Type 0} (step : J → Change) : List J → Scene → Status → Scene → Type 0 where
  none_left : {a : Scene} → Each step [] a success a
  stopped :
      {a b : Scene} {x : J} {xs : List J} → step x a failure b → Each step (x ∷ xs) a failure b
  went_on :
      {a b c : Scene} {x : J} {xs : List J} {st : Status}
      → step x a success b
      → Each step xs b st c
      → Each step (x ∷ xs) a st c

-- Which order a text names.
pub data Names : Option String → InsertOrder → Type 0 where
  no_text : Names none InsertOrder.unordered
  append : Names (some "append") InsertOrder.append
  prepend : Names (some "prepend") InsertOrder.prepend
  before : Names (some "before") InsertOrder.before
  after : Names (some "after") InsertOrder.after
  other :
      (val : String)
      → val ≢ "append"
      → val ≢ "prepend"
      → val ≢ "before"
      → val ≢ "after"
      → Names (some val) InsertOrder.unordered

abbrev pub HasScreen : ℕ → Scene → Type 0
HasScreen i a = Among i (map (λ s. s.id) a)

abbrev pub HasLayer : ℕ → Scene → Type 0
HasLayer i [] = ⊥
HasLayer i (s ∷ rest) = Among i (map (λ l. l.id) s.layers) ⊎ HasLayer i rest

-- Where it is there the step, otherwise nothing.
abbrev pub If : (Scene → Type 0) → Change → Change
If There step a st b = (There a × step a st b) ⊎ ((¬ There a) × Stays a st b)

-- The moves that `initial_screen` may make.
pub data Builds : Move → Type 0 where
  clears : Builds cleared
  adds_screen : (screen_id : ℕ) → Builds (screen_added screen_id)
  places_layer :
      (screen_id layer_id : ℕ) (info : InsertInfo) → Builds (layer_placed screen_id layer_id info)
  places_surface :
      (layer_id surface_id : ℕ) (info : InsertInfo)
      → Builds (surface_placed layer_id surface_id info)

module _ {J : Type 0} (js : Jansson J) where
  open js use {
    json_object_get, json_is_string, json_is_array, json_is_integer, json_string_value,
    json_array_elements,
  }

  -- Each value of the array under the key; without one the command fails.
  abbrev pub EachOf : Option J → String → (Option J → Change) → Change
  EachOf j key step a st b =
      ((json_is_array (json_object_get j key) ≡ true)
        × Each (λ x. step (some x)) (json_array_elements (json_object_get j key)) a st b)
      ⊎ ((json_is_array (json_object_get j key) ≡ false) × Fails a st b)

  -- With the id that the value has; without one the command fails.
  abbrev pub WithId : Option J → (ℕ → Change) → Change
  WithId j step a st b =
      ((i : ℕ) × HasInteger js j "id" i × step i a st b)
      ⊎ ((json_is_integer (json_object_get j "id") ≡ false) × Fails a st b)

  abbrev pub HasText : Option J → String → Option String → Type 0
  HasText j key none = json_is_string (json_object_get j key) ≡ false
  HasText j key (some text) =
      (json_is_string (json_object_get j key) ≡ true)
      × (json_string_value (json_object_get j key) ≡ text)

  -- The place that is asked for.
  pub record HasInfo (j : Option J) (info : InsertInfo) : Type 0 where
    pub text : Option String
    pub has_text : HasText j "insert_order" text
    pub order : Names text info.order
    pub refid : TakesInteger js j "referenceID" 0 info.refid

  abbrev pub LayersOnto : Option J → Change
  LayersOnto screen a st b =
      (screen_id : ℕ) × (info : InsertInfo) × TakesInteger js screen "id" 0 screen_id
      × HasInfo screen info
      × If (HasScreen screen_id)
          (EachOf screen "layers"
            (λ layer. WithId layer (λ i. Becomes (place_layer screen_id i info))))
          a st b

  abbrev pub AddsLayers : Option J → Change
  AddsLayers j = EachOf j "screens" LayersOnto

  abbrev pub SurfacesOnto : InsertInfo → Option J → Change
  SurfacesOnto info layer a st b =
      (layer_id : ℕ) × TakesInteger js layer "id" 0 layer_id
      × If (HasLayer layer_id)
          (EachOf layer "surfaces"
            (λ surface. WithId surface (λ i. Becomes (place_surface layer_id i info))))
          a st b

  abbrev pub SurfacesOntoScreen : Option J → Change
  SurfacesOntoScreen screen a st b =
      (info : InsertInfo) × HasInfo screen info × EachOf screen "layers" (SurfacesOnto info) a st b

  abbrev pub AddsSurfaces : Option J → Change
  AddsSurfaces j = EachOf j "screens" SurfacesOntoScreen

  abbrev pub RemovesLayers : Option J → Change
  RemovesLayers j = EachOf j "layers" (λ layer. WithId layer (λ i. Becomes (take_layer i)))

  abbrev pub RemovesSurfaces : Option J → Change
  RemovesSurfaces j = EachOf j "layers" (λ layer. WithId layer (λ layer_id. If (HasLayer layer_id) (
      EachOf layer "surfaces"
        (λ surface. WithId surface (λ i. Becomes (take_surface layer_id i))))))

  -- What a command does. Of `initial_screen` only the kinds of its moves are said.
  pub data Does (j : Option J) (a : Scene) : String → Scene → Type 0 where
    adds_layers : {st : Status} {b : Scene} → AddsLayers j a st b → Does j a "add_layer" b
    adds_surfaces : {st : Status} {b : Scene} → AddsSurfaces j a st b → Does j a "add_surface" b
    removes_layers : {st : Status} {b : Scene} → RemovesLayers j a st b → Does j a "remove_layer" b
    removes_surfaces :
        {st : Status} {b : Scene} → RemovesSurfaces j a st b → Does j a "remove_surface" b
    builds : {b : Scene} → Moves Builds a b → Does j a "initial_screen" b
    moves_nothing :
        (name : String)
        → name ≢ "add_layer"
        → name ≢ "add_surface"
        → name ≢ "remove_layer"
        → name ≢ "remove_surface"
        → name ≢ "initial_screen"
        → Does j a name a
