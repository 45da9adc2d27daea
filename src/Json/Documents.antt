-- ===== src/Json/Documents.antt =====
-- The values within a document that app/comm_parser.c comes to: through members of objects and
-- through the loops over arrays.
use uhmi_ivi_wm.Base.{
  ◌≡◌, refl, sym, ◌∙◌, String, List, [], ◌∷◌, ◌++◌, append_assoc, Option, none, some, All, inl, inr,
  Bool-cases,
}
use uhmi_ivi_wm.Exec.{Exec, Status, visit, for_each}
use uhmi_ivi_wm.Exec.Keeps.{Keeps, Keeps-visit-All, Keeps-for_each-All}
use uhmi_ivi_wm.Jansson.{Jansson}
use uhmi_ivi_wm.Json.{
  get_json_array, parse_target, parse_screens, parse_layers, parse_surfaces, elements_or_none,
}

pub data Part {J : Type 0} (js : Jansson J) (root : Option J) : Option J → Type 0 where
  whole : Part js root root
  null : Part js root none
  member : {j : Option J} (key : String) → Part js root j → Part js root (js.json_object_get j key)
  element :
      {j : Option J} (front : List J) (x : J) (back : List J)
      → Part js root j
      → js.json_array_elements j ≡ front ++ x ∷ back
      → Part js root (some x)

-- A value that was parsed, where there is one.
abbrev pub PartIfAny : {J : Type 0} → Jansson J → Option J → Option (Option J) → Type 0
PartIfAny js root none = Unit
PartIfAny js root (some j) = Part js root j

module _ {J : Type 0} (js : Jansson J) (root : Option J) where
  array-Part :
      (j : Option J) (key : String) → Part js root j → PartIfAny js root (get_json_array js j key)
  unfolding get_json_array
  array-Part j key part = elim (Bool-cases (js.json_is_array (js.json_object_get j key))) [
    | inl e ↦ rw e (member key part)
    | inr e ↦ rw e tt
  ]

  pub target-Part : (j : Option J) → Part js root j → PartIfAny js root (parse_target js j)
  unfolding parse_target
  target-Part j part = array-Part j "target" part

  pub screens-Part : (j : Option J) → Part js root j → PartIfAny js root (parse_screens js j)
  unfolding parse_screens
  screens-Part j part = array-Part j "screens" part

  pub layers-Part : (j : Option J) → Part js root j → PartIfAny js root (parse_layers js j)
  unfolding parse_layers
  layers-Part j part = array-Part j "layers" part

  pub surfaces-Part : (j : Option J) → Part js root j → PartIfAny js root (parse_surfaces js j)
  unfolding parse_surfaces
  surfaces-Part j part = array-Part j "surfaces" part

  elements-All :
      (j : Option J) → Part js root j → All (λ x. Part js root (some x)) (js.json_array_elements j)
  elements-All j part = go [] (js.json_array_elements j) refl
    where
      go :
          (front back : List J)
          → js.json_array_elements j ≡ front ++ back
          → All (λ x. Part js root (some x)) back
      go front [] e = tt
      go front (x ∷ back) e = (
        element front x back part e,
        go (front ++ x ∷ []) back (e ∙ sym (append_assoc front (x ∷ []) back)),
      )

  elements_or_none-All :
      (o : Option (Option J))
      → PartIfAny js root o
      → All (λ x. Part js root (some x)) (elements_or_none js o)
  unfolding elements_or_none
  elements_or_none-All none part = elements-All none null
  elements_or_none-All (some j) part = elements-All j part

  module _ {S : Type 0} {P F : S → Type 0} (o : Option (Option J)) where
    -- The loops over an array of the document.
    pub Keeps-visit_elements :
        (body : J → Exec S (Unit {0}))
        → PartIfAny js root o
        → ((x : J) → Part js root (some x) → Keeps P F (body x))
        → Keeps P F (visit (elements_or_none js o) body)
    Keeps-visit_elements body part kb =
        Keeps-visit-All _ (elements_or_none js o) body (elements_or_none-All o part) kb

    pub Keeps-for_each_element :
        (body : J → Exec S Status)
        → PartIfAny js root o
        → ((x : J) → Part js root (some x) → Keeps P F (body x))
        → Keeps P F (for_each (elements_or_none js o) body)
    Keeps-for_each_element body part kb =
        Keeps-for_each-All _ (elements_or_none js o) body (elements_or_none-All o part) kb
