-- ===== src/Errors/Tests.antt =====
-- The search for a code, in an error that wraps two others.
use go_fw.Prelude.{◌≡◌, ◌↔◌, true, none, some}
use go_fw.Errors.{
  not_found, conflict, GoError, plain, wrapping, joined, end, also, Keys, newf, is_code, as_code,
}
use go_fw.Errors.Codes.{Holds, IsSearch, codes_agree}

abbrev keys : Keys
keys = record { code_key = 1; message_key = some 2; stack_key = some 3 }

abbrev lost : GoError
lost = newf keys not_found 10 end 4

abbrev clash : GoError
clash = newf keys conflict 11 (also (wrapping lost) end) 5

abbrev sample : GoError
sample = joined (also (plain 7) (also clash end))

codes_agree_example :
    ((is_code sample not_found ≡ true) ↔ Holds not_found sample)
    × IsSearch not_found (is_code sample not_found) (as_code sample not_found none)
codes_agree_example = codes_agree sample not_found none
