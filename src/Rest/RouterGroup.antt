-- ===== src/Rest/RouterGroup.antt =====
-- rest/gin_routergroup.go and rest/gin_routergroup_internal.go: groups of routes whose routes carry
-- metadata. gin's own groups are a parameter, but for the routes that they are asked to serve; `join`
-- is Go's path.Join and `base_of` the base path that gin gives a group.
pub mod Metadata
use go_fw.Prelude.{ℕ, Bool, Option, none, some, List, [], ◌∷◌, ◌++◌, map, if◌then◌else◌}
use go_fw.Prelude.Text.{Text, codes, eqb_text}

-- The metadata by path and method; a missing map reads as an empty one.
abbrev pub Methods : Type 0
Methods = Text → Option (List ℕ)

abbrev pub MetaMapping : Type 0
MetaMapping = Text → Option Methods

abbrev pub put {V} : {A : Type V} → (Text → A) → Text → A → (Text → A)
put f k v t = if eqb_text t k then v else f t

-- A route that gin is asked for: the method, the base path of the group and the relative path.
pub record Route : Type 0 where
  pub method : Text
  pub base : Text
  pub relative : Text

-- What the groups of one tree share: the field `byPath`, and gin's routes.
pub record Router : Type 0 where
  pub by_path : MetaMapping
  pub routes : List Route

pub record Group : Type 0 where
  pub base_path : Text
  pub group_metadata : List ℕ

abbrev pub path_mapping : Option Methods → Methods
path_mapping none = λ m. none
path_mapping (some ms) = ms

abbrev pub or_group : Option (List ℕ) → List ℕ → List ℕ
or_group none group = group
or_group (some own) group = own

-- `append` of the metadata, if it is not nil.
abbrev pub optional : Option ℕ → List ℕ
optional none = []
optional (some d) = d ∷ []

module _ (join base_of : Text → Text → Text) where
  unfoldable pub add_meta : Text → Text → Option ℕ → Group → Router → Router
  add_meta relative method metadata g r =
      let path = join g.base_path relative in
      let mapping = path_mapping (r.by_path path) in
      let metas = or_group (mapping method) g.group_metadata ++ optional metadata in
      record r { by_path = put r.by_path path (some (put mapping method (some metas))) }

  unfoldable pub get_meta_by_full_path : Text → Text → Router → Option (List ℕ)
  get_meta_by_full_path path method r = path_mapping (r.by_path path) method

  abbrev route : Text → Group → Text → Route
  route relative g method = record { method = method; base = g.base_path; relative = relative }

  abbrev pub serve : List Route → Router → Router
  serve new r = record r { routes = r.routes ++ new }

  abbrev pub handle_with_meta : Text → Text → Option ℕ → Group → Router → Router
  handle_with_meta method relative metadata g r =
      serve (route relative g method ∷ []) (add_meta relative method metadata g r)

  abbrev pub handle_route : Text → Text → Group → Router → Router
  handle_route method relative g r = handle_with_meta method relative none g r

  -- `Match` hands the methods to gin.
  abbrev pub match : List Text → Text → Group → Router → Router
  match methods relative g r = serve (map (route relative g) methods) r

  -- The body of the loop returns.
  abbrev pub match_with_meta : List Text → Text → Option ℕ → Group → Router → Router
  match_with_meta [] relative metadata g r = r
  match_with_meta (m ∷ ms) relative metadata g r = handle_with_meta m relative metadata g r

  abbrev pub group_with_meta : Text → Option ℕ → Group → Group
  group_with_meta relative metadata g = record {
    base_path = base_of g.base_path relative;
    group_metadata = g.group_metadata ++ optional metadata;
  }

  abbrev pub get_with_meta : Text → Option ℕ → Group → Router → Router
  get_with_meta = handle_with_meta (codes "GET")

  abbrev pub post_with_meta : Text → Option ℕ → Group → Router → Router
  post_with_meta = handle_with_meta (codes "POST")

  abbrev pub put_with_meta : Text → Option ℕ → Group → Router → Router
  put_with_meta = handle_with_meta (codes "PUT")

  abbrev pub patch_with_meta : Text → Option ℕ → Group → Router → Router
  patch_with_meta = handle_with_meta (codes "PATCH")

  abbrev pub delete_with_meta : Text → Option ℕ → Group → Router → Router
  delete_with_meta = handle_with_meta (codes "DELETE")

  abbrev pub options_with_meta : Text → Option ℕ → Group → Router → Router
  options_with_meta = handle_with_meta (codes "OPTIONS")

  abbrev pub head_with_meta : Text → Option ℕ → Group → Router → Router
  head_with_meta = handle_with_meta (codes "HEAD")

-- `NewGinRouterGroup`: the router, and the group at gin's base path.
abbrev pub new_gin_router_group : Text → Router × Group
new_gin_router_group base =
    (record { by_path = λ p. none; routes = [] }, record { base_path = base; group_metadata = [] })
