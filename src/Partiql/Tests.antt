-- ===== src/Partiql/Tests.antt =====
-- The encoder at a struct with a number and a bag.
use go_fw.Prelude.{◌≡◌, refl, true, false, some, List, [], ◌∷◌, ◌++◌, ◌||◌}
use go_fw.Prelude.Int.{negsuc}
use go_fw.Prelude.Text.{Text, codes}
use go_fw.Partiql.Builder.{new_builder, quoted, double_quotes, format_int}
use go_fw.Partiql.Value.{
  Value, uint, int, string, slice, struct, nil, cons, end, field, FieldInfo, no_tag, tag_of,
  field_use, field_name,
}
use go_fw.Partiql.Encoder.{wrote, marshal, default_tag_names}
use go_fw.Partiql.Parts.{lead, parts}
use go_fw.Partiql.Refines.{any, marshal-parts}
use go_fw.Partiql.Quoting.{read_literal, read_literal-quoted}

abbrev id_info : FieldInfo
id_info = record {
  name = codes "ID";
  exported = true;
  promoted = false;
  tags = (codes "json", codes "id") ∷ [];
}

abbrev names_info : FieldInfo
names_info = record {
  name = codes "Names";
  exported = true;
  promoted = false;
  tags = (codes "partiql", codes "names,bag") ∷ [];
}

abbrev sample : Value
sample = struct (
    field id_info (int (negsuc 6))
      (field names_info (slice false (cons (string (codes "it's")) (cons (uint 12) nil))) end))

abbrev sample_parts : List Text
sample_parts = codes "{'id':-7,'names':<<'it''s',12>>}" ∷ []

marshal-parts_example :
    marshal sample default_tag_names no_tag new_builder
    ≡ wrote (record new_builder {
      out = new_builder.out ++ lead new_builder.write_sep sample_parts;
      write_sep = any sample_parts || new_builder.write_sep;
    })
unfolding parts tag_of field_use field_name format_int quoted double_quotes
marshal-parts_example = marshal-parts sample default_tag_names no_tag new_builder sample_parts refl

read_literal-quoted_example :
    read_literal (quoted (codes "it's") ++ codes ",") ≡ some (codes "it's", codes ",")
read_literal-quoted_example = read_literal-quoted (codes "it's") (codes ",") refl
