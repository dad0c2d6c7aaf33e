-- ===== src/Log/Tests.antt =====
-- The level of a logger two packages below the one that has a level.
use go_fw.Prelude.{ℕ, Option, none, some, arith, if◌then◌else◌}
use go_fw.Prelude.Int.{ℤ, pos}
use go_fw.Prelude.Text.{Text, codes, eqb_text}
use go_fw.Prelude.{◌+◌, ◌≡◌, refl, [], ◌∷◌, ◌++◌, ◌==◌, leb, length}
use go_fw.Log.{find_level}
use go_fw.Log.Attrs.{
  Attr, of_text, Slice, Arrays, append, get_logger_attrs, ctx_append_logger_attrs,
}
use go_fw.Prelude.{false}
use go_fw.Log.{before_last}
use go_fw.Log.Loggers.{
  Logger, RootConfig, Factory, to_stdout, put_logger, new_logger, new_logger_with_writer,
  get_logger, set_level, level_of, with_attrs,
}
use go_fw.Log.Separate.{here, next, gets, or_default, Reach-apart, new_logger-IsClosest}
use go_fw.Log.Aliasing.{ctx_append_logger_attrs-siblings}
use go_fw.Log.Levels.{IsClosest}

abbrev levels : Text → Option ℤ
levels p =
    if eqb_text p (codes "a/b")
    then some (pos 4)
    else if eqb_text p (codes "a")
    then some (pos 1)
    else none

abbrev attr_of : Text → Attr
attr_of t = record { key = t; value = of_text t }

-- An array with room for four, of which the context sees three, and two attributes.
abbrev heap : Arrays
heap = record {
  arrays = λ i.
      if i == 0
      then attr_of (codes "x") ∷ attr_of (codes "y") ∷ attr_of (codes "z") ∷ attr_of [] ∷ []
      else (if i == 1 then attr_of (codes "a") ∷ [] else attr_of (codes "b") ∷ []);
  count = 3;
}

abbrev parent : Slice
parent = record { array = 0; size = 3 }

abbrev one_of : ℕ → Slice
one_of i = record { array = i; size = 1 }

ctx_append_logger_attrs-siblings_example :
    let (first, s) = ctx_append_logger_attrs [] (some parent) (one_of 1) heap in
    let (second, t) = ctx_append_logger_attrs [] (some parent) (one_of 2) first in
    (get_logger_attrs first s ≡ get_logger_attrs heap (some parent) ++ (attr_of (codes "a") ∷ []))
    × (get_logger_attrs second t
        ≡ get_logger_attrs heap (some parent) ++ (attr_of (codes "b") ∷ []))
    × (get_logger_attrs second s
        ≡ get_logger_attrs heap (some parent)
          ++ ((if leb (parent.size + 1) (length (heap.arrays parent.array))
                then attr_of (codes "b")
                else attr_of (codes "a"))
              ∷ []))
unfolding append
ctx_append_logger_attrs-siblings_example =
    ctx_append_logger_attrs-siblings [] [] parent (one_of 1) (one_of 2) (attr_of (codes "a"))
      (attr_of (codes "b")) heap (record { room = omega arith; there = omega arith }) refl refl

abbrev conf : RootConfig
conf = record { env_type = codes "prod"; level = pos 0; levels = levels; writer = [] }

abbrev new_factory : Factory
new_factory = record {
  conf = conf;
  writer = none;
  loggers_by_path = λ p. none;
  levelers = record { values = λ i. pos 0; count = 0 };
}

abbrev logger_at : ℕ → Text → Logger
logger_at i path = record {
  name = path;
  leveler = i;
  writer = to_stdout;
  is_console = false;
  attrs = [];
}

abbrev after_one : Factory
after_one = record new_factory {
  loggers_by_path = put_logger (codes "a/b") (logger_at 0 (codes "a/b")) (λ p. none);
  levelers = (new_logger conf (codes "a/b") to_stdout new_factory.levelers).0;
}

abbrev after_two : Factory
after_two = record after_one {
  loggers_by_path = put_logger (codes "z") (logger_at 1 (codes "z")) after_one.loggers_by_path;
  levelers = (new_logger conf (codes "z") to_stdout after_one.levelers).0;
}

abbrev of_a : Logger
of_a = logger_at 0 (codes "a/b")

Reach-apart_example :
    let after = set_level (with_attrs [] of_a) (pos 8) after_two.levelers in
    (level_of (with_attrs (attr_of [] ∷ []) of_a) after ≡ pos 8)
    × (level_of (logger_at 1 (codes "z")) after
        ≡ level_of (logger_at 1 (codes "z")) after_two.levelers)
unfolding get_logger new_logger new_logger_with_writer find_level before_last
Reach-apart_example =
    Reach-apart {f = new_factory} {g = after_two} (codes "a/b") (codes "z") of_a
      (logger_at 1 (codes "z")) [] (attr_of [] ∷ []) (pos 8) (λ p. refl)
      (next (next here (gets [] (codes "a/b") after_one of_a refl))
        (gets [] (codes "z") after_two (logger_at 1 (codes "z")) refl))
      refl refl (λ e. absurd cc)

new_logger-IsClosest_example :
    let (after, l) = new_logger conf (codes "a/b/c.D") to_stdout new_factory.levelers in
    (level : Option ℤ) × IsClosest levels (codes "a/b/c.D") level
    × (level_of l after ≡ or_default (pos 0) level)
new_logger-IsClosest_example =
    new_logger-IsClosest conf (codes "a/b/c.D") to_stdout new_factory.levelers
