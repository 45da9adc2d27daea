-- ===== src/Json/Fields.antt =====
-- What app/comm_parser.c reads from JSON into the properties of layers and surfaces: which values
-- there must be, and what is written where there are none.
use uhmi_ivi_wm.Json.Reading.{
  HasInteger, HasReal, HasInteger-get, HasReal-get, get_json_integer_value-some,
  get_json_real_value-some, TakesInteger, TakesReal, integer_or-TakesInteger, real_or-TakesReal,
}
use uhmi_ivi_wm.Base.{
  ◌⊎◌, ◌≡◌, refl, ◌↔◌, Option, none, some, inl, inr, Option-cases, some-eq-some, subst,
}
use uhmi_ivi_wm.Properties.{LayerProperties, LayoutProperties, SurfaceProperties}
use uhmi_ivi_wm.Jansson.{Jansson}
use uhmi_ivi_wm.Json.{or_else, CmdType}
use uhmi_ivi_wm.Json.Properties.{
  ◌>>=◌, parse_add_properties, parse_mod_properties, add_layout, parse_surface_properties,
  parse_layer_properties,
}

bind_some :
    {A B : Type 0} (o : Option A) (f : A → Option B) (b : B)
    → (o >>= f) ≡ some b
    → (a : A) × (o ≡ some a) × (f a ≡ some b)
bind_some none f b e = cc
bind_some (some a) f b e = (a, refl, e)

module _ {J : Type 0} (js : Jansson J) where
  -- Each field of `lp` is the value that stands in `j`.
  pub record IsRead (j : Option J) (lp : LayoutProperties) : Type 0 where
    pub src_x : HasInteger js j "src_x" lp.src_x
    pub src_y : HasInteger js j "src_y" lp.src_y
    pub src_w : HasInteger js j "src_w" lp.src_w
    pub src_h : HasInteger js j "src_h" lp.src_h
    pub dst_x : HasInteger js j "dst_x" lp.dst_x
    pub dst_y : HasInteger js j "dst_y" lp.dst_y
    pub dst_w : HasInteger js j "dst_w" lp.dst_w
    pub dst_h : HasInteger js j "dst_h" lp.dst_h
    pub opacity : HasReal js j "opacity" lp.opacity
    pub visibility : HasInteger js j "visibility" lp.visibility

  parse_add-IsRead :
      (j : Option J) (lp old : LayoutProperties)
      → IsRead j lp
      → (parse_add_properties js j ≡ some lp) × (parse_mod_properties js old j ≡ lp)
  unfolding parse_add_properties parse_mod_properties
  parse_add-IsRead j lp old r = (
    rw
        (
          HasInteger-get js j "src_x" lp.src_x r.src_x,
          HasInteger-get js j "src_y" lp.src_y r.src_y,
          HasInteger-get js j "src_w" lp.src_w r.src_w,
          HasInteger-get js j "src_h" lp.src_h r.src_h,
          HasInteger-get js j "dst_x" lp.dst_x r.dst_x,
          HasInteger-get js j "dst_y" lp.dst_y r.dst_y,
          HasInteger-get js j "dst_w" lp.dst_w r.dst_w,
          HasInteger-get js j "dst_h" lp.dst_h r.dst_h,
          HasReal-get js j "opacity" lp.opacity r.opacity,
          HasInteger-get js j "visibility" lp.visibility r.visibility,
        )
        refl,
    rw
        (
          HasInteger-get js j "src_x" lp.src_x r.src_x,
          HasInteger-get js j "src_y" lp.src_y r.src_y,
          HasInteger-get js j "src_w" lp.src_w r.src_w,
          HasInteger-get js j "src_h" lp.src_h r.src_h,
          HasInteger-get js j "dst_x" lp.dst_x r.dst_x,
          HasInteger-get js j "dst_y" lp.dst_y r.dst_y,
          HasInteger-get js j "dst_w" lp.dst_w r.dst_w,
          HasInteger-get js j "dst_h" lp.dst_h r.dst_h,
          HasReal-get js j "opacity" lp.opacity r.opacity,
          HasInteger-get js j "visibility" lp.visibility r.visibility,
        )
        refl,
  )

  IsRead-parse_add :
      (j : Option J) (lp : LayoutProperties) → parse_add_properties js j ≡ some lp → IsRead j lp
  unfolding parse_add_properties
  IsRead-parse_add j lp e =
      let (v0, read0, e0) = bind_some _ _ lp e in
      let (v1, read1, e1) = bind_some _ _ lp e0 in
      let (v2, read2, e2) = bind_some _ _ lp e1 in
      let (v3, read3, e3) = bind_some _ _ lp e2 in
      let (v4, read4, e4) = bind_some _ _ lp e3 in
      let (v5, read5, e5) = bind_some _ _ lp e4 in
      let (v6, read6, e6) = bind_some _ _ lp e5 in
      let (v7, read7, e7) = bind_some _ _ lp e6 in
      let (v8, read8, e8) = bind_some _ _ lp e7 in
      let (v9, read9, e9) = bind_some _ _ lp e8 in
      let same = some-eq-some e9 in
      record {
        src_x =
            subst (λ z. HasInteger js j "src_x" z.src_x) same
              (get_json_integer_value-some js j "src_x" v0 read0);
        src_y =
            subst (λ z. HasInteger js j "src_y" z.src_y) same
              (get_json_integer_value-some js j "src_y" v1 read1);
        src_w =
            subst (λ z. HasInteger js j "src_w" z.src_w) same
              (get_json_integer_value-some js j "src_w" v2 read2);
        src_h =
            subst (λ z. HasInteger js j "src_h" z.src_h) same
              (get_json_integer_value-some js j "src_h" v3 read3);
        dst_x =
            subst (λ z. HasInteger js j "dst_x" z.dst_x) same
              (get_json_integer_value-some js j "dst_x" v4 read4);
        dst_y =
            subst (λ z. HasInteger js j "dst_y" z.dst_y) same
              (get_json_integer_value-some js j "dst_y" v5 read5);
        dst_w =
            subst (λ z. HasInteger js j "dst_w" z.dst_w) same
              (get_json_integer_value-some js j "dst_w" v6 read6);
        dst_h =
            subst (λ z. HasInteger js j "dst_h" z.dst_h) same
              (get_json_integer_value-some js j "dst_h" v7 read7);
        opacity =
            subst (λ z. HasReal js j "opacity" z.opacity) same
              (get_json_real_value-some js j "opacity" v8 read8);
        visibility =
            subst (λ z. HasInteger js j "visibility" z.visibility) same
              (get_json_integer_value-some js j "visibility" v9 read9);
      }

  -- New properties are parsed exactly when all ten values stand in the JSON, nine integers and a number
  -- for the opacity, and they are then those values, the integers reduced modulo 2 ^ 32.
  pub parse_add_properties-IsRead :
      (j : Option J) (lp : LayoutProperties) → (parse_add_properties js j ≡ some lp) ↔ IsRead j lp
  parse_add_properties-IsRead j lp = (IsRead-parse_add j lp, λ r. (parse_add-IsRead j lp lp r).0)

  -- Where new properties can be parsed, a change of any old ones reads the same.
  pub parse_mod_properties-parse_add :
      (j : Option J) (lp old : LayoutProperties)
      → parse_add_properties js j ≡ some lp
      → parse_mod_properties js old j ≡ lp
  parse_mod_properties-parse_add j lp old e =
      (parse_add-IsRead j lp old (IsRead-parse_add j lp e)).1

module _ {J : Type 0} (js : Jansson J) where
  -- Each field of `lp` is the value that stands in `j`, and that of `old` where none does.
  pub record IsChanged (j : Option J) (old lp : LayoutProperties) : Type 0 where
    pub src_x : TakesInteger js j "src_x" old.src_x lp.src_x
    pub src_y : TakesInteger js j "src_y" old.src_y lp.src_y
    pub src_w : TakesInteger js j "src_w" old.src_w lp.src_w
    pub src_h : TakesInteger js j "src_h" old.src_h lp.src_h
    pub dst_x : TakesInteger js j "dst_x" old.dst_x lp.dst_x
    pub dst_y : TakesInteger js j "dst_y" old.dst_y lp.dst_y
    pub dst_w : TakesInteger js j "dst_w" old.dst_w lp.dst_w
    pub dst_h : TakesInteger js j "dst_h" old.dst_h lp.dst_h
    pub opacity : TakesReal js j "opacity" old.opacity lp.opacity
    pub visibility : TakesInteger js j "visibility" old.visibility lp.visibility

  pub parse_mod-IsChanged :
      (j : Option J) (old : LayoutProperties) → IsChanged j old (parse_mod_properties js old j)
  unfolding parse_mod_properties
  parse_mod-IsChanged j old = record {
    src_x = integer_or-TakesInteger js j "src_x" old.src_x;
    src_y = integer_or-TakesInteger js j "src_y" old.src_y;
    src_w = integer_or-TakesInteger js j "src_w" old.src_w;
    src_h = integer_or-TakesInteger js j "src_h" old.src_h;
    dst_x = integer_or-TakesInteger js j "dst_x" old.dst_x;
    dst_y = integer_or-TakesInteger js j "dst_y" old.dst_y;
    dst_w = integer_or-TakesInteger js j "dst_w" old.dst_w;
    dst_h = integer_or-TakesInteger js j "dst_h" old.dst_h;
    opacity = real_or-TakesReal js j "opacity" old.opacity;
    visibility = integer_or-TakesInteger js j "visibility" old.visibility;
  }

  -- What becomes of the layout: for `add` all of it or nothing, otherwise each field by itself.
  abbrev pub IsTaken : CmdType → Option J → LayoutProperties → LayoutProperties → Type 0
  IsTaken CmdType.add j old lp =
      IsRead js j lp ⊎ (((new : LayoutProperties) → ¬ IsRead js j new) × (lp ≡ old))
  IsTaken CmdType.modify j old lp = IsChanged j old lp
  IsTaken CmdType.no_type j old lp = IsChanged j old lp

  pub add_layout-IsTaken :
      (j : Option J) (old : LayoutProperties) → IsTaken CmdType.add j old (add_layout js old j)
  unfolding add_layout
  add_layout-IsTaken j old = elim (Option-cases (parse_add_properties js j)) [
    | inl e ↦
        rw e (inr ((λ new r. let read = (parse_add-IsRead js j new old r).0 in cc (e, read)), refl))
    | inr (new, e) ↦ rw e (inl (IsRead-parse_add js j new e))
  ]

  -- A surface's properties after they were parsed: to add it, the layout is that of the JSON where all
  -- ten values stand there, and the old one otherwise; to change it, each field is the value in the JSON,
  -- where there is one of its type, and the old one otherwise. An integer, however large or negative,
  -- becomes the unsigned int that is congruent to it modulo 2 ^ 32, and the reference count stays.
  pub parse_surface_properties-IsTaken :
      (prop : SurfaceProperties) (j : Option J) (type : CmdType)
      → IsTaken type j prop.lp (parse_surface_properties js prop j type).lp
        × ((parse_surface_properties js prop j type).referred_cnt ≡ prop.referred_cnt)
  unfolding parse_surface_properties
  parse_surface_properties-IsTaken prop j CmdType.add = (add_layout-IsTaken j prop.lp, refl)
  parse_surface_properties-IsTaken prop j CmdType.modify = (parse_mod-IsChanged j prop.lp, refl)
  parse_surface_properties-IsTaken prop j CmdType.no_type = (parse_mod-IsChanged j prop.lp, refl)

  -- A layer's properties after they were parsed to change it.
  pub record IsLayerChanged (j : Option J) (old new : LayerProperties) : Type 0 where
    pub width : TakesInteger js j "width" old.width new.width
    pub height : TakesInteger js j "height" old.height new.height
    pub lp : IsChanged j old.lp new.lp

  pub parse_layer_properties-IsLayerChanged :
      (j : Option J) (old : LayerProperties)
      → IsLayerChanged j old (or_else (parse_layer_properties js old j CmdType.modify) old)
  unfolding parse_layer_properties
  parse_layer_properties-IsLayerChanged j old = record {
    width = integer_or-TakesInteger js j "width" old.width;
    height = integer_or-TakesInteger js j "height" old.height;
    lp = parse_mod-IsChanged j old.lp;
  }
