-- ===== src/Log/Separate.antt =====
-- The loggers of different paths do not share their level, and a new one has the closest level.
use go_fw.Prelude.{
  suc, ◌<◌, ◌≡◌, ◌≢◌, ◌⊎◌, refl, sym, subst, ap, ◌∙◌, inl, inr, Bool, true, false, Bool-cases,
  Option, none, some, some-injective, none-some, List, [], ◌∷◌, arith, length, Returns, update,
  update_self, update_other, if◌then◌else◌,
}
use go_fw.Prelude.Int.{ℤ}
use go_fw.Prelude.Text.{Text, eqb_text, eqb_text_iff}
use go_fw.Log.{find_level}
use go_fw.Log.Levels.{IsClosest, find_level-IsClosest}
use go_fw.Log.Attrs.{Attr}
use go_fw.Log.Loggers.{
  Writer, Logger, RootConfig, Levelers, Factory, set_level, level_of, with_attrs, has_console,
  show_name, bare_logger, new_logger_with_writer, set_found, new_logger, put_logger, writer_for,
  made, cached, with_context, get_logger,
}

leveler-show_name : (b : Bool) (l : Logger) → (show_name b l).leveler ≡ l.leveler
leveler-show_name true l = refl
leveler-show_name false l = refl

count-set_found :
    (l : Logger) (o : Option (Option ℤ)) (s : Levelers) → (set_found l o s).count ≡ s.count
count-set_found l none s = refl
count-set_found l (some none) s = refl
count-set_found l (some (some level)) s = refl

-- The address of a new logger's level is the next one.
new_leveler :
    (conf : RootConfig) (path : Text) (w : Writer) (s : Levelers)
    → let (after, l) = new_logger conf path w s in
      (l.leveler ≡ s.count) × (after.count ≡ suc s.count)
unfolding new_logger new_logger_with_writer
new_leveler conf path w s = (
  leveler-show_name (has_console conf) (bare_logger conf path w s),
  count-set_found (show_name (has_console conf) (bare_logger conf path w s))
      (find_level (length path) conf.levels path) (new_logger_with_writer conf path w s).0,
)

-- No two paths have loggers with one variable, and each variable is there.
pub record IsSeparate (f : Factory) : Type 0 where
  pub one_path :
      (p q : Text) (l m : Logger)
      → f.loggers_by_path p ≡ some l
      → f.loggers_by_path q ≡ some m
      → l.leveler ≡ m.leveler
      → p ≡ q
  pub there : (p : Text) (l : Logger) → f.loggers_by_path p ≡ some l → l.leveler < f.levelers.count

-- What the cache has after a logger was put into it.
put_lem :
    (path p : Text) (l m : Logger) (cache : Text → Option Logger)
    → put_logger path l cache p ≡ some m
    → ((p ≡ path) × (m ≡ l)) ⊎ (cache p ≡ some m)
put_lem path p l m cache e = elim (Bool-cases (eqb_text p path)) [
  | inl b ↦ inl (
    (eqb_text_iff p path).0 b,
    sym (some-injective (subst (λ c. (if c then some l else cache p) ≡ some m) b e)),
  )
  | inr b ↦ inr (subst (λ c. (if c then some l else cache p) ≡ some m) b e)
]

put-IsSeparate :
    (f : Factory) (path : Text) (l : Logger) (after : Levelers)
    → IsSeparate f
    → l.leveler ≡ f.levelers.count
    → after.count ≡ suc f.levelers.count
    → IsSeparate
        (record f { loggers_by_path = put_logger path l f.loggers_by_path; levelers = after })
put-IsSeparate f path l after h new count = record {
  one_path = λ p q m n em en same. elim (put_lem path p l m f.loggers_by_path em) [
    | inl (a, x) ↦ elim (put_lem path q l n f.loggers_by_path en) [
      | inl (b, y) ↦ a ∙ sym b
      | inr k ↦
          let z = h.there q n k in
          let o = ap (λ v. v.leveler) x in absurd (omega (arith, z, o, new, same))
    ]
    | inr k ↦ elim (put_lem path q l n f.loggers_by_path en) [
      | inl (b, y) ↦
          let z = h.there p m k in
          let o = ap (λ v. v.leveler) y in absurd (omega (arith, z, o, new, same))
      | inr j ↦ h.one_path p q m n k j same
    ]
  ];
  there = λ p m e. elim (put_lem path p l m f.loggers_by_path e) [
    | inl (_, k) ↦ let z = ap (λ x. x.leveler) k in omega (arith, z, new, count)
    | inr k ↦ let z = h.there p m k in omega (arith, z, count)
  ];
}

made-IsSeparate :
    (path : Text) (w : Option Writer) (f g : Factory) (l : Logger)
    → IsSeparate f
    → made path w f ≡ some (g, l)
    → IsSeparate g
made-IsSeparate path none f g l h e = absurd (none-some (g, l) e)
made-IsSeparate path (some w) f g l h e =
    let (after, m) = new_logger f.conf path w f.levelers in
    let (new, count) = new_leveler f.conf path w f.levelers in
    subst IsSeparate (ap (λ r. r.0) (some-injective e)) (put-IsSeparate f path m after h new count)

cached-IsSeparate :
    (o : Option Logger) (path : Text) (f g : Factory) (l : Logger)
    → IsSeparate f
    → cached o path f ≡ some (g, l)
    → IsSeparate g
cached-IsSeparate none path f g l h e =
    made-IsSeparate path (writer_for f.writer f.conf.writer) f g l h e
cached-IsSeparate (some m) path f g l h e = subst IsSeparate (ap (λ r. r.0) (some-injective e)) h

-- The attributes of a context do not change the factory.
with_context_lem :
    (attrs : List Attr) (o : Option (Factory × Logger)) (g : Factory) (l : Logger)
    → with_context attrs o ≡ some (g, l)
    → (m : Logger) × (o ≡ some (g, m))
with_context_lem attrs none g l e = absurd (let n = none_lem attrs in none-some (g, l) (sym n ∙ e))
  where
    none_lem : (rest : List Attr) → with_context rest none ≡ none
    none_lem [] = refl
    none_lem (a ∷ rest) = refl
with_context_lem [] (some (f, m)) g l e = (l, e)
with_context_lem (a ∷ attrs) (some (f, m)) g l e =
    (m, ap (λ h. some (h, m)) (ap (λ r. r.0) (some-injective e)))

-- One step: a logger is asked for, or the level of one is set, maybe by a copy of it.
pub data Step (f : Factory) : Factory → Type 0 where
  gets :
      (attrs : List Attr) (path : Text) (g : Factory) (l : Logger)
      → get_logger attrs path f ≡ some (g, l)
      → Step f g
  sets : (l : Logger) (level : ℤ) → Step f (record f { levelers = set_level l level f.levelers })

pub data Reach (f : Factory) : Factory → Type 0 where
  here : Reach f f
  next : {g h : Factory} → Reach f g → Step g h → Reach f h

Step-IsSeparate : {f g : Factory} → IsSeparate f → Step f g → IsSeparate g
unfolding get_logger
Step-IsSeparate {f = f} h (gets attrs path g l e) =
    let (m, k) = with_context_lem attrs (cached (f.loggers_by_path path) path f) g l e in
    cached-IsSeparate (f.loggers_by_path path) path f g m h k
Step-IsSeparate h (sets l level) = record { one_path = h.one_path; there = h.there }

Reach-IsSeparate : {f g : Factory} → IsSeparate f → Reach f g → IsSeparate g
Reach-IsSeparate s here = s
Reach-IsSeparate s (next r x) = Step-IsSeparate (Reach-IsSeparate s r) x

-- After any calls of a new factory, to set the level of the logger of a path, be it by the logger
-- itself or by a copy with more attributes, sets that of all its copies, and leaves the level of the
-- logger of any other path.
pub Reach-apart :
    {f g : Factory} (p q : Text) (l m : Logger) (attrs new : List Attr) (level : ℤ)
    → ((path : Text) → f.loggers_by_path path ≡ none)
    → Reach f g
    → g.loggers_by_path p ≡ some l
    → g.loggers_by_path q ≡ some m
    → p ≢ q
    → let after = set_level (with_attrs attrs l) level g.levelers in
      (level_of (with_attrs new l) after ≡ level) × (level_of m after ≡ level_of m g.levelers)
Reach-apart {f = f} {g = g} p q l m attrs new level start r el em apart =
    let first : IsSeparate f = record {
      one_path = λ a b x y ex ey same. absurd (none-some x (sym (start a) ∙ ex));
      there = λ a x ex. absurd (none-some x (sym (start a) ∙ ex));
    } in
    let s = Reach-IsSeparate first r in
    (
      update_self g.levelers.values l.leveler level,
      update_other g.levelers.values l.leveler m.leveler level
          (λ e. apart (s.one_path p q l m el em (sym e))),
    )

abbrev pub or_default : ℤ → Option ℤ → ℤ
or_default level none = level
or_default level (some own) = own

found_lem :
    (conf : RootConfig) (path : Text) (l : Logger) (s : Levelers) (o : Option (Option ℤ))
    → Returns (IsClosest conf.levels path) o
    → level_of l s ≡ conf.level
    → (level : Option ℤ) × IsClosest conf.levels path level
      × (level_of l (set_found l o s) ≡ or_default conf.level level)
found_lem conf path l s none h e = absurd h
found_lem conf path l s (some none) h e = (none, h, e)
found_lem conf path l s (some (some level)) h e =
    (some level, h, update_self s.values l.leveler level)

-- A new logger has the level of the longest scope of its path that the configuration gives one, and
-- the level of the configuration if none has one.
pub new_logger-IsClosest :
    (conf : RootConfig) (path : Text) (w : Writer) (s : Levelers)
    → let (after, l) = new_logger conf path w s in
      (level : Option ℤ) × IsClosest conf.levels path level
      × (level_of l after ≡ or_default conf.level level)
unfolding new_logger new_logger_with_writer
new_logger-IsClosest conf path w s =
    let l = show_name (has_console conf) (bare_logger conf path w s) in
    let at = leveler-show_name (has_console conf) (bare_logger conf path w s) in
    found_lem conf path l (new_logger_with_writer conf path w s).0
      (find_level (length path) conf.levels path)
      (find_level-IsClosest (length path) conf.levels path (omega arith))
      (ap (update s.values s.count conf.level) at ∙ update_self s.values s.count conf.level)
