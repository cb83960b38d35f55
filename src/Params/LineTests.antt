-- ===== src/Params/LineTests.antt =====
-- One parameter on one line.
use data_commoms.Base.{◌≡◌, refl, none, [], arith, true}
use data_commoms.Text.{text, strchr, streq, strtoull}
use data_commoms.Text.Search.{strstr}
use data_commoms.Params.{bool, uint, str, Param, simple, as_uint, as_str}
use data_commoms.Params.Line.{param_turn, sets, crashes}
use data_commoms.Params.EndOfName.{behind, param_turn-end_of_name}
use data_commoms.Params.Tests.{zeros, a_param}

abbrev number : Param zeros
number = a_param uint bool 8 (text "PUINT") (simple (as_uint 0))

-- A line for MAXPUINT sets PUINT.
param_turn-end_of_name_example :
    param_turn zeros [] number (text "MAXPUINT=5 ")
    ≡ behind zeros [] (text "MAX") (param_turn zeros [] number (text "PUINT=5 "))
param_turn-end_of_name_example =
    param_turn-end_of_name zeros [] (text "MAX") b'P' (text "UINT") (text "5 ") number refl refl
      refl (omega arith)

sets_another :
    param_turn zeros [] number (text "MAXPUINT=5 ")
    ≡ sets (record number { val = simple (as_uint 5); has_changed = true }) (text "MAXPUINT=5")
unfolding param_turn strstr strchr streq strtoull
sets_another = refl

-- An unsigned number in its four bytes, and a string in a buffer that is too small.
writes_past_end :
    (param_turn zeros [] (a_param uint bool 4 (text "N") (simple (as_uint 0))) (text "N=1 ")
      ≡ crashes)
    × (param_turn zeros [] (a_param str bool 2 (text "S") (simple (as_str none))) (text "S=\"ab\"")
        ≡ crashes)
unfolding param_turn strstr strchr streq strtoull
writes_past_end = (refl, refl)
