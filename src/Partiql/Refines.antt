-- ===== src/Partiql/Refines.antt =====
-- The encoder writes the parts of a value, whatever the builder holds.
use go_fw.Prelude.{
  ℕ, suc, ◌≡◌, refl, sym, ap, ◌∙◌, Bool, true, false, ◌||◌, Option, none, some, List, [], ◌∷◌, ◌++◌,
  arith, if◌then◌else◌,
}
use mathlib.Core.List.{append_assoc, append-nil}
use go_fw.Prelude.Text.{Text, codes, format_uint}
use go_fw.Partiql.Builder.{
  Builder, separator, write_text, write_key, write_integer, write_uinteger, write_float,
  write_boolean, write_string, write_begin_tuple, write_end_tuple, write_begin_bag, write_end_bag,
  write_begin_array, write_end_array, quoted, format_int, format_bool,
}
use go_fw.Partiql.Value.{
  Value, invalid, unsupported, pointer, custom, custom_failed, time, int, uint, float, bool, string,
  slice, array, dictionary, struct, Items, nil, cons, Entries, none_left, entry, Fields, end, field,
  FieldUse, skipped, written, broken, no_tag, tag_of, field_name, field_use, TagValue,
}
use go_fw.Partiql.Encoder.{
  Outcome, wrote, begin_collection, end_collection, begin_tuple, end_tuple, begin_field, if_written,
  marshal, marshal_items, marshal_entries, marshal_fields,
}
use go_fw.Partiql.Parts.{
  lead, only, collection_part, tuple_parts, keyed, field_parts, used, parts, parts_items,
  parts_entries, parts_fields, ◌>>=◌ as bind,
}

-- The parts written one after another.
emit : List Text → Builder → Builder
emit [] b = b
emit (p ∷ ps) b = emit ps (write_text p b)

emit-append : (ps qs : List Text) (b : Builder) → emit (ps ++ qs) b ≡ emit qs (emit ps b)
unfolding emit
emit-append [] qs b = refl
emit-append (p ∷ ps) qs b = emit-append ps qs (write_text p b)

abbrev pub any : List Text → Bool
any [] = false
any (p ∷ ps) = true

or_true : (a : Bool) → a || true ≡ true
or_true true = refl
or_true false = refl

emit_lem :
    (ps : List Text) (out : Text) (depth : ℕ) (sep : Bool)
    → emit ps (record { out = out; tuple_depth = depth; write_sep = sep })
      ≡ record { out = out ++ lead sep ps; tuple_depth = depth; write_sep = any ps || sep }
unfolding emit write_text
emit_lem [] out depth sep = rw append-nil
emit_lem (p ∷ ps) out depth sep =
    emit_lem ps ((out ++ separator sep) ++ p) depth true ∙ simp (append_assoc, or_true)

collection_lem :
    (bag : Bool) (ps : List Text) (b : Builder)
    → end_collection bag (emit ps (begin_collection bag b)) ≡ write_text (collection_part bag ps) b
unfolding write_begin_bag write_begin_array write_end_bag write_end_array write_text
collection_lem true ps b = simp (emit_lem, append_assoc)
collection_lem false ps b = simp (emit_lem, append_assoc)

end_tuple_lem :
    (out : Text) (depth : ℕ) (sep : Bool)
    → end_tuple false (record { out = out; tuple_depth = suc depth; write_sep = sep })
      ≡ wrote (record { out = out ++ codes "}"; tuple_depth = depth; write_sep = true })
unfolding write_end_tuple
end_tuple_lem out depth sep = ground arith

tuple_lem :
    (squash : Bool) (ps : List Text) (b : Builder)
    → end_tuple squash (emit ps (begin_tuple squash b)) ≡ wrote (emit (tuple_parts squash ps) b)
unfolding write_begin_tuple write_text emit
tuple_lem true ps b = refl
tuple_lem false ps b =
    let shape =
      emit_lem ps ((b.out ++ separator b.write_sep) ++ codes "{") (suc b.tuple_depth) false in
    rw (shape, end_tuple_lem) (simp append_assoc)

key_lem : (k p : Text) (b : Builder) → write_text p (write_key k b) ≡ write_text (keyed k p) b
unfolding write_text write_key
key_lem k p b = simp (append_assoc, append-nil)

-- A successful `>>=` of parts, taken apart.
bound :
    {A B : Type 0} (m : Option A) (f : A → Option B) {y : B}
    → bind m f ≡ some y
    → (a : A) × (m ≡ some a) × (f a ≡ some y)
bound none f h = absurd cc
bound (some a) f h = (a, refl, h)

only_lem : (ps : List Text) (p : Text) → only ps ≡ some p → ps ≡ p ∷ []
only_lem [] p h = absurd cc
only_lem (q ∷ []) p h = cc
only_lem (q ∷ r ∷ ps) p h = absurd cc

-- What follows a key makes it one part.
keyed_lem :
    (k : Text) (ps qs : List Text) (b : Builder)
    → field_parts false k ps ≡ some qs
    → emit ps (write_key k b) ≡ emit qs b
unfolding emit
keyed_lem k ps qs b h =
    let (p, e, f) = bound (only ps) (λ p. some (keyed k p ∷ [])) h in
    let q : qs ≡ keyed k p ∷ [] = cc in rw (only_lem ps p e, q) (key_lem k p b)

field_lem :
    (squash : Bool) (k : Text) (ps qs : List Text) (b : Builder)
    → field_parts squash k ps ≡ some qs
    → emit ps (if squash then b else write_key k b) ≡ emit qs b
field_lem true k ps qs b h = ap (λ rs. emit rs b) (cc)
field_lem false k ps qs b h = keyed_lem k ps qs b h

same_emit :
    (qs ps : List Text) (b : Builder) → some qs ≡ some ps → wrote (emit qs b) ≡ wrote (emit ps b)
same_emit qs ps b h = let e : qs ≡ ps = cc in rw e

-- The parts of a sequence, its first part and the others.
append_emit :
    (qs rs ps : List Text) (b : Builder)
    → some (qs ++ rs) ≡ some ps
    → wrote (emit rs (emit qs b)) ≡ wrote (emit ps b)
append_emit qs rs ps b h = ap wrote (sym (emit-append qs rs b)) ∙ same_emit (qs ++ rs) ps b h

used_lem :
    (u : FieldUse) (m : Option (List Text)) (out : Outcome) (b : Builder) (qs : List Text)
    → used u m ≡ some qs
    → (m ≡ some qs → out ≡ wrote (emit qs b))
    → if_written u b out ≡ wrote (emit qs b)
unfolding emit
used_lem skipped m out b qs h f = same_emit [] qs b h
used_lem written m out b qs h f = f h
used_lem broken m out b qs h f = absurd cc

mutual
  unfolding marshal parts emit write_integer write_uinteger write_float write_boolean write_string

  marshal_lem :
      (v : Value) (names : List Text) (tag : TagValue) (b : Builder) (ps : List Text)
      → parts v names tag ≡ some ps
      → marshal v names tag b ≡ wrote (emit ps b)
  marshal_lem invalid names tag b ps h = absurd cc
  marshal_lem unsupported names tag b ps h = same_emit [] ps b h
  marshal_lem (pointer v) names tag b ps h = marshal_lem v names tag b ps h
  marshal_lem (custom v) names tag b ps h = marshal_lem v names tag b ps h
  marshal_lem (custom_failed e) names tag b ps h = absurd cc
  marshal_lem (time v) names tag b ps h = marshal_lem v names tag b ps h
  marshal_lem (int n) names tag b ps h = same_emit (format_int n ∷ []) ps b h
  marshal_lem (uint n) names tag b ps h = same_emit (format_uint n ∷ []) ps b h
  marshal_lem (float s) names tag b ps h = same_emit (s ∷ []) ps b h
  marshal_lem (bool v) names tag b ps h = same_emit (format_bool v ∷ []) ps b h
  marshal_lem (string s) names tag b ps h = same_emit (quoted s ∷ []) ps b h
  marshal_lem (slice is_nil xs) names tag b ps h =
      let (qs, e, f) = bound (parts_items xs names) _ h in
      rw (items_lem xs names (begin_collection tag.bag b) qs e) (
        ap wrote (collection_lem tag.bag qs b) ∙ same_emit (collection_part tag.bag qs ∷ []) ps b f)
  marshal_lem (array xs) names tag b ps h =
      let (qs, e, f) = bound (parts_items xs names) _ h in
      rw (items_lem xs names (begin_collection tag.bag b) qs e) (
        ap wrote (collection_lem tag.bag qs b) ∙ same_emit (collection_part tag.bag qs ∷ []) ps b f)
  marshal_lem (dictionary is_nil es) names tag b ps h =
      let (qs, e, f) = bound (parts_entries es names) _ h in
      rw (entries_lem es names (begin_tuple false b) qs e)
        (tuple_lem false qs b ∙ same_emit (tuple_parts false qs) ps b f)
  marshal_lem (struct fs) names tag b ps h =
      let (qs, e, f) = bound (parts_fields fs names) _ h in
      rw (fields_lem fs names (begin_tuple tag.squash b) qs e)
        (tuple_lem tag.squash qs b ∙ same_emit (tuple_parts tag.squash qs) ps b f)

  items_lem :
      (xs : Items) (names : List Text) (b : Builder) (ps : List Text)
      → parts_items xs names ≡ some ps
      → marshal_items xs names b ≡ wrote (emit ps b)
  items_lem nil names b ps h = same_emit [] ps b h
  items_lem (cons v vs) names b ps h =
      let (qs, e, f) = bound (parts v names no_tag) _ h in
      let (rs, e', f') = bound (parts_items vs names) _ f in
      rw (marshal_lem v names no_tag b qs e)
        (items_lem vs names (emit qs b) rs e' ∙ append_emit qs rs ps b f')

  entries_lem :
      (es : Entries) (names : List Text) (b : Builder) (ps : List Text)
      → parts_entries es names ≡ some ps
      → marshal_entries es names b ≡ wrote (emit ps b)
  entries_lem none_left names b ps h = same_emit [] ps b h
  entries_lem (entry k v es) names b ps h =
      let (qs, e, f) = bound (bind (parts v names no_tag) (field_parts false k)) _ h in
      let (os, d, g) = bound (parts v names no_tag) _ e in
      let (rs, e', f') = bound (parts_entries es names) _ f in
      rw (marshal_lem v names no_tag (write_key k b) os d, keyed_lem k os qs b g)
        (entries_lem es names (emit qs b) rs e' ∙ append_emit qs rs ps b f')

  fields_lem :
      (fs : Fields) (names : List Text) (b : Builder) (ps : List Text)
      → parts_fields fs names ≡ some ps
      → marshal_fields fs names b ≡ wrote (emit ps b)
  fields_lem end names b ps h = same_emit [] ps b h
  fields_lem (field info v fs) names b ps h =
      let tag = tag_of names info in
      let key = field_name info tag in
      let start = begin_field info tag b in
      let (qs, e, f) =
        bound (used (field_use info tag v) (bind (parts v names tag) (field_parts tag.squash key)))
          _ h in
      let (rs, e', f') = bound (parts_fields fs names) _ f in
      let one = used_lem (field_use info tag v) _ (marshal v names tag start) b qs e (λ m.
        let (os, d, g) = bound (parts v names tag) (field_parts tag.squash key) m in
        marshal_lem v names tag start os d ∙ ap wrote (field_lem tag.squash key os qs b g)) in
      rw one (fields_lem fs names (emit qs b) rs e' ∙ append_emit qs rs ps b f')

-- If a value has parts, the encoder writes them, joined by commas, behind what the builder holds,
-- with a comma before the first if one is due: it neither fails nor panics, and leaves as many open
-- tuples as it found.
pub marshal-parts :
    (v : Value) (names : List Text) (tag : TagValue) (b : Builder) (ps : List Text)
    → parts v names tag ≡ some ps
    → marshal v names tag b
      ≡ wrote (record b { out = b.out ++ lead b.write_sep ps; write_sep = any ps || b.write_sep })
marshal-parts v names tag b ps h =
    marshal_lem v names tag b ps h ∙ ap wrote (emit_lem ps b.out b.tuple_depth b.write_sep)
