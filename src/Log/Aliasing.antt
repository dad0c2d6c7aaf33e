-- ===== src/Log/Aliasing.antt =====
-- What the contexts made of one context share.
use mathlib.Core.List.{append_assoc}
use go_fw.Prelude.{
  ℕ, zero, suc, length-append, ◌+◌, ◌≤◌, ◌<◌, ◌≡◌, refl, sym, subst, ap, ◌∙◌, inl, inr, true, false,
  Bool-cases, some, List, [], ◌∷◌, ◌++◌, arith, leb, length, take, update_self, update_other,
  if◌then◌else◌,
}
use go_fw.Log.Attrs.{
  Attr, Slice, Arrays, elements, drop, write_at, append, get_logger_attrs, ctx_append_logger_attrs,
}

take-append : (xs ys : List Attr) → take (length xs) (xs ++ ys) ≡ xs
take-append [] ys = refl
take-append (x ∷ xs) ys = ap (λ t. x ∷ t) (take-append xs ys)

length-take : (n : ℕ) (xs : List Attr) → n ≤ length xs → length (take n xs) ≡ n
length-take zero xs le = refl
length-take (suc n) [] le = absurd (omega arith)
length-take (suc n) (x ∷ xs) le = ap suc (length-take n xs (omega arith))

-- What stands at the beginning of an array, of the length of what is looked at.
take_lem : (n : ℕ) (xs ys : List Attr) → length xs ≡ n → take n (xs ++ ys) ≡ xs
take_lem n xs ys e = subst (λ m. take m (xs ++ ys) ≡ xs) e (take-append xs ys)

joined_lem :
    (n : ℕ) (new xs rest : List Attr)
    → n ≤ length xs
    → take (n + length new) (take n xs ++ new ++ rest) ≡ take n xs ++ new
joined_lem n new xs rest le =
    take_lem (n + length new) (take n xs ++ new) rest
      (length-append (take n xs) new ∙ ap (λ m. m + length new) (length-take n xs le))

-- The slice lies within its array, which is there.
pub record IsValid (h : Arrays) (s : Slice) : Type 0 where
  pub room : s.size ≤ length (h.arrays s.array)
  pub there : s.array < h.count

-- The result of `append` has the elements of the slice and the new ones.
append_lem :
    (spare : List Attr) (s : Slice) (new : List Attr) (h : Arrays)
    → IsValid h s
    → let (after, t) = append spare s new h in elements after t ≡ elements h s ++ new
unfolding append
append_lem spare s new h v =
    elim (Bool-cases (leb (s.size + length new) (length (h.arrays s.array)))) [
      | inl e ↦
          rw (e, update_self h.arrays s.array (write_at s.size new (h.arrays s.array)))
            (joined_lem s.size new (h.arrays s.array) _ v.room)
      | inr e ↦
          rw (e, update_self h.arrays h.count (elements h s ++ new ++ spare))
            (joined_lem s.size new (h.arrays s.array) spare v.room)
    ]

length-drop : (n : ℕ) (xs : List Attr) → n ≤ length xs → n + length (drop n xs) ≡ length xs
length-drop zero xs le = omega arith
length-drop (suc n) [] le = absurd (omega arith)
length-drop (suc n) (x ∷ xs) le = omega (arith, length-drop n xs (omega arith))

length-write_at :
    (n : ℕ) (new xs : List Attr)
    → n + length new ≤ length xs
    → length (write_at n new xs) ≡ length xs
length-write_at n new xs le = omega (
  arith,
  length-append (take n xs ++ new) (drop (n + length new) xs),
  length-append (take n xs) new,
  length-take n xs (omega arith),
  length-drop (n + length new) xs le,
)

front_lem :
    (n : ℕ) (new xs rest : List Attr)
    → n ≤ length xs
    → take n (take n xs ++ new ++ rest) ≡ take n xs
front_lem n new xs rest le =
    ap (take n) (append_assoc (take n xs) new rest)
    ∙ take_lem n (take n xs) (new ++ rest) (length-take n xs le)

-- Where the array has room for the new elements, `append` writes into it; the slice that was
-- appended to keeps its elements, and the array its length.
in_place :
    (spare : List Attr) (s : Slice) (new : List Attr) (h : Arrays)
    → IsValid h s
    → leb (s.size + length new) (length (h.arrays s.array)) ≡ true
    → let (after, t) = append spare s new h in
      (t ≡ record s { size = s.size + length new })
      × (elements after s ≡ elements h s)
      × (length (after.arrays s.array) ≡ length (h.arrays s.array))
      × (after.count ≡ h.count)
unfolding append
in_place spare s new h v e =
    let le : s.size + length new ≤ length (h.arrays s.array) = ground arith in
    rw (e, update_self h.arrays s.array (write_at s.size new (h.arrays s.array)))
      (
        refl,
        front_lem s.size new (h.arrays s.array) _ v.room,
        length-write_at s.size new (h.arrays s.array) le,
        refl,
      )

-- And where it has not, in a new array, and nothing that was there changes.
elsewhere :
    (spare : List Attr) (s : Slice) (new : List Attr) (h : Arrays)
    → leb (s.size + length new) (length (h.arrays s.array)) ≡ false
    → let (after, t) = append spare s new h in
      (t.array ≡ h.count)
      × ((j : ℕ) → j < h.count → after.arrays j ≡ h.arrays j)
      × (after.count ≡ suc h.count)
unfolding append
elsewhere spare s new h e = rw e (
  refl,
  λ j lt.
      update_other h.arrays h.count j (elements h s ++ new ++ spare) (λ q. omega (arith, q, lt)),
  refl,
)

-- The elements of the two slices after both, for the attribute `c` that the first one ends with.
abbrev Siblings : List Attr → List Attr → Slice → Attr → Attr → Attr → Arrays → Type 0
Siblings spare spare' p a b c h =
    let (first, s) = append spare p (a ∷ []) h in
    let (second, t) = append spare' p (b ∷ []) first in
    (elements first s ≡ elements h p ++ (a ∷ []))
    × (elements second t ≡ elements h p ++ (b ∷ []))
    × (elements second s ≡ elements h p ++ (c ∷ []))

with_room :
    (spare spare' : List Attr) (p : Slice) (a b : Attr) (h : Arrays)
    → IsValid h p
    → leb (p.size + 1) (length (h.arrays p.array)) ≡ true
    → Siblings spare spare' p a b b h
with_room spare spare' p a b h v e =
    let (first, s) = append spare p (a ∷ []) h in
    let (second, t) = append spare' p (b ∷ []) first in
    let (same, kept, long, count) = in_place spare p (a ∷ []) h v e in
    let valid : IsValid first p = record {
      room = omega (arith, v.room, long);
      there = omega (arith, v.there, count);
    } in
    let again : leb (p.size + 1) (length (first.arrays p.array)) ≡ true = rw long e in
    let alike = (in_place spare' p (b ∷ []) first valid again).0 in
    let late : elements second t ≡ elements h p ++ (b ∷ []) =
      append_lem spare' p (b ∷ []) first valid ∙ ap (λ l. l ++ (b ∷ [])) kept in
    (append_lem spare p (a ∷ []) h v, late, ap (elements second) (same ∙ sym alike) ∙ late)

without_room :
    (spare spare' : List Attr) (p : Slice) (a b : Attr) (h : Arrays)
    → IsValid h p
    → leb (p.size + 1) (length (h.arrays p.array)) ≡ false
    → Siblings spare spare' p a b a h
without_room spare spare' p a b h v e =
    let (first, s) = append spare p (a ∷ []) h in
    let (second, t) = append spare' p (b ∷ []) first in
    let (new, old, count) = elsewhere spare p (a ∷ []) h e in
    let same : first.arrays p.array ≡ h.arrays p.array = old p.array v.there in
    let valid : IsValid first p = record {
      room = subst (λ l. p.size ≤ length l) (sym same) v.room;
      there = omega (arith, v.there, count);
    } in
    let again : leb (p.size + 1) (length (first.arrays p.array)) ≡ false = rw same e in
    let (new', old', count') = elsewhere spare' p (b ∷ []) first again in
    let mine = append_lem spare p (a ∷ []) h v in
    (
      mine,
      append_lem spare' p (b ∷ []) first valid ∙ ap (λ l. take p.size l ++ (b ∷ [])) same,
      ap (take s.size) (old' s.array (omega (arith, new, count))) ∙ mine,
    )

append-Siblings :
    (spare spare' : List Attr) (p : Slice) (a b : Attr) (h : Arrays)
    → IsValid h p
    → Siblings spare spare' p a b (if leb (p.size + 1) (length (h.arrays p.array)) then b else a) h
append-Siblings spare spare' p a b h v =
    elim (Bool-cases (leb (p.size + 1) (length (h.arrays p.array)))) [
      | inl e ↦ rw e (with_room spare spare' p a b h v e)
      | inr e ↦ rw e (without_room spare spare' p a b h v e)
    ]

-- Of two contexts made of one, each by appending an attribute, the second has its own after those of
-- the context that both are made of, and so has the first as long as the second is not made. From
-- then on the first one has the second one's attribute in place of its own, if the array had room
-- for one more; without room it keeps its own.
pub ctx_append_logger_attrs-siblings :
    (spare spare' : List Attr) (p : Slice) (of_a of_b : Slice) (a b : Attr) (h : Arrays)
    → IsValid h p
    → elements h of_a ≡ a ∷ []
    → elements (ctx_append_logger_attrs spare (some p) of_a h).0 of_b ≡ b ∷ []
    → let (first, s) = ctx_append_logger_attrs spare (some p) of_a h in
      let (second, t) = ctx_append_logger_attrs spare' (some p) of_b first in
      (get_logger_attrs first s ≡ get_logger_attrs h (some p) ++ (a ∷ []))
      × (get_logger_attrs second t ≡ get_logger_attrs h (some p) ++ (b ∷ []))
      × (get_logger_attrs second s
          ≡ get_logger_attrs h (some p)
            ++ ((if leb (p.size + 1) (length (h.arrays p.array)) then b else a) ∷ []))
ctx_append_logger_attrs-siblings spare spare' p of_a of_b a b h v ea eb =
    rw (eb, ea) (append-Siblings spare spare' p a b h v)
