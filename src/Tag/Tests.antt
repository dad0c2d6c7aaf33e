-- ===== src/Tag/Tests.antt =====
-- The names of the fields of a struct with an embedded one.
use go_fw.Prelude.{◌≡◌, List, [], ◌∷◌, Returns}
use go_fw.Prelude.Text.{Text, codes}
use go_fw.Tag.{Struct, end, field, embedded, of_struct, lookup, field_names}
use go_fw.Tag.Names.{all_names, field_names-lookup}

abbrev inner : Struct
inner =
    field (codes "ID") ((codes "db", codes "id") ∷ [])
      (field (codes "At") ((codes "json", codes "at,omitempty") ∷ []) end)

abbrev user : Struct
user = field (codes "Key") ((codes "json", codes "id") ∷ []) (embedded (of_struct inner) end)

abbrev tags : List Text
tags = codes "db" ∷ codes "json" ∷ []

field_names-lookup_example :
    Returns (λ r. (n : Text) → lookup n r ≡ lookup n (all_names tags user)) (field_names user tags)
field_names-lookup_example = field_names-lookup tags user (tt, tt)
