-- ===== src/Worker/Tests.antt =====
-- A worker that loses its lock once and then panics.
use go_fw.Prelude.{Bool, false, some, [], ◌∷◌}
use go_fw.Errors.{GoError, end, Keys, newf, wrapping}
use go_fw.Worker.{Round, fine, failed, panics, lock_not_auto_extended, single_worker_runner}
use go_fw.Worker.Rounds.{IsGuarded, single_worker_runner-IsGuarded}

abbrev keys : Keys
keys = record { code_key = 1; message_key = some 2; stack_key = some 3 }

abbrev never : GoError → Bool
never e = false

abbrev lost : Round
lost = record {
  lock = fine;
  auto_extend = fine;
  run = failed (wrapping (newf keys lock_not_auto_extended 5 end 6));
  unlock = failed (wrapping (newf keys lock_not_auto_extended 5 end 6));
}

abbrev broken : Round
broken = record { lock = fine; auto_extend = panics 8; run = fine; unlock = fine }

single_worker_runner-IsGuarded_example :
    IsGuarded false (single_worker_runner keys never (lost ∷ broken ∷ lost ∷ [])).0
single_worker_runner-IsGuarded_example =
    single_worker_runner-IsGuarded keys never (lost ∷ broken ∷ lost ∷ [])
