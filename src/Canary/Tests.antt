-- ===== src/Canary/Tests.antt =====
-- A run of the canaries with two scanners.
use flyto_warroom.Prelude.{◌+◌, ◌≤◌, ◌≡◌, ◌↔◌, refl, true, false, String, List, [], ◌∷◌}
use flyto_warroom.Prelude.Dict.{lookup}
use flyto_warroom.Canary.{
  CanaryCheck, verdict, ScannerFunc, Result, new_in_mem_store, run_once, handle_results,
  is_regressed, cool_off,
}
use flyto_warroom.Canary.Flags.{
  deadline_after, handle_results_deadline, mismatch_flags_a_day, later_match_clears,
}

check_of : String → String → String → CanaryCheck
check_of name domain expected = record {
  name = name;
  domain = domain;
  scanner_kind = "hsts";
  expected_verdict = expected;
}

always_pass : ScannerFunc
always_pass domain = verdict "pass" ""

abbrev results : List Result
results =
    record {
      check = record {
        name = "a";
        domain = "a.test";
        scanner_kind = "hsts";
        expected_verdict = "fail";
      };
      observed = "pass";
      detail = "";
      ok = false;
      error = "";
    }
    ∷ record {
      check = record {
        name = "b";
        domain = "b.test";
        scanner_kind = "hsts";
        expected_verdict = "pass";
      };
      observed = "pass";
      detail = "";
      ok = true;
      error = "";
    }
    ∷ []

run_once-results :
    run_once
      (check_of "a" "a.test" "fail" ∷ check_of "b" "b.test" "pass" ∷ [])
      (("hsts", always_pass) ∷ [])
    ≡ results
unfolding run_once check_of always_pass lookup
run_once-results = refl

abbrev mismatch : Result
mismatch = record {
  check = record {
    name = "a";
    domain = "a.test";
    scanner_kind = "hsts";
    expected_verdict = "fail";
  };
  observed = "pass";
  detail = "";
  ok = false;
  error = "";
}

abbrev match_after : Result
match_after = record {
  check = record {
    name = "b";
    domain = "b.test";
    scanner_kind = "hsts";
    expected_verdict = "pass";
  };
  observed = "pass";
  detail = "";
  ok = true;
  error = "";
}

handle_results_deadline_example :
    lookup "hsts" (handle_results results 5 new_in_mem_store).store.flags
    ≡ deadline_after "hsts" results 5 (lookup "hsts" new_in_mem_store.flags)
handle_results_deadline_example = handle_results_deadline "hsts" results 5 new_in_mem_store

mismatch_flags_a_day_holds :
    (is_regressed "hsts" 9 (handle_results (mismatch ∷ []) 5 new_in_mem_store).store ≡ true)
    ↔ (9 ≤ 5 + cool_off)
unfolding deadline_after
mismatch_flags_a_day_holds = mismatch_flags_a_day mismatch [] 5 9 new_in_mem_store refl refl refl

later_match_clears_holds :
    ((handle_results (mismatch ∷ match_after ∷ []) 5 new_in_mem_store).regressed ≡ "hsts" ∷ [])
    × (is_regressed "hsts" 9 (handle_results (mismatch ∷ match_after ∷ []) 5 new_in_mem_store).store
        ≡ false)
later_match_clears_holds =
    later_match_clears mismatch match_after 5 9 new_in_mem_store refl refl refl refl refl
