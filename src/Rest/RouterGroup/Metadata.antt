-- ===== src/Rest/RouterGroup/Metadata.antt =====
-- Which metadata the routes of a tree of groups have.
use go_fw.Prelude.{ℕ, Bool, ◌&&◌, Option, none, some, List, [], ◌∷◌, ◌++◌, if◌then◌else◌}
use go_fw.Prelude.Text.{Text, eqb_text}
use go_fw.Rest.RouterGroup.{Router, Group, optional, handle_with_meta, match, match_with_meta}

-- A call of `HandleWithMeta` in a group.
pub record MetaCall : Type 0 where
  pub group : Group
  pub method : Text
  pub relative : Text
  pub metadata : Option ℕ

-- A registration in a group: `HandleWithMeta`, `Match` or `MatchWithMeta`.
pub data Registration : Type 0 where
  by_handle : MetaCall → Registration
  by_match : Group → List Text → Text → Registration
  by_match_with_meta : Group → List Text → Text → Option ℕ → Registration

-- The calls of `HandleWithMeta` that registrations come to: none of `Match`, and that of the first
-- method of `MatchWithMeta`.
abbrev pub meta_calls : List Registration → List MetaCall
meta_calls [] = []
meta_calls (by_handle c ∷ cs) = c ∷ meta_calls cs
meta_calls (by_match g ms relative ∷ cs) = meta_calls cs
meta_calls (by_match_with_meta g [] relative metadata ∷ cs) = meta_calls cs
meta_calls (by_match_with_meta g (m ∷ ms) relative metadata ∷ cs) =
    record { group = g; method = m; relative = relative; metadata = metadata } ∷ meta_calls cs

module _ (join base_of : Text → Text → Text) where
  abbrev pub register : Registration → Router → Router
  register (by_handle c) r = handle_with_meta join base_of c.method c.relative c.metadata c.group r
  register (by_match g ms relative) r = match join base_of ms relative g r
  register (by_match_with_meta g ms relative metadata) r =
      match_with_meta join base_of ms relative metadata g r

  abbrev pub register_all : List Registration → Router → Router
  register_all [] r = r
  register_all (c ∷ cs) r = register_all cs (register c r)

  -- The call is for the path and the method.
  abbrev pub is_for : Text → Text → MetaCall → Bool
  is_for path method c =
      eqb_text path (join c.group.base_path c.relative) && eqb_text method c.method

  -- What the calls for the route were given, in their order.
  abbrev pub given : Text → Text → List MetaCall → List ℕ
  given path method [] = []
  given path method (c ∷ cs) =
      let rest = given path method cs in
      if is_for path method c then optional c.metadata ++ rest else rest

  -- The group of the first call for the route.
  abbrev pub first_group : Text → Text → List MetaCall → Option Group
  first_group path method [] = none
  first_group path method (c ∷ cs) =
      let rest = first_group path method cs in if is_for path method c then some c.group else rest

  -- What a route has in the end that had `o` at first.
  abbrev pub told : Option (List ℕ) → Option Group → List ℕ → Option (List ℕ)
  told (some own) g new = some (own ++ new)
  told none (some g) new = some (g.group_metadata ++ new)
  told none none new = none
