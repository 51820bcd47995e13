-- ===== src/Canary.antt =====
-- internal/canary: the self-tests of the scanners (canary.go) and the store of the regressed ones
-- (store_inmem.go). The scanners and the clock are not in the program: a runner is a function of the
-- domain, and each reading of the clock is an argument. Logging is left out.
pub mod Flags
mod Tests
use flyto_warroom.Prelude.{
  ℕ, ◌+◌, ◌*◌, String, Bool, true, false, not, Option, none, some, List, [], ◌∷◌, ◌==◌, ltb,
  if◌then◌else◌, str_eq,
}
use flyto_warroom.Prelude.Dict.{Dict, lookup, insert, remove}
use Prim.Native.String.{◌++◌}

pub record CanaryCheck : Type 0 where
  pub name : String
  pub domain : String
  pub scanner_kind : String
  pub expected_verdict : String

pub data Ran : Type 0 where
  verdict : (observed detail : String) → Ran
  scan_failed : (observed detail error : String) → Ran

abbrev pub ScannerFunc : Type 0
ScannerFunc = String → Ran

pub record Result : Type 0 where
  pub check : CanaryCheck
  pub observed : String
  pub detail : String
  pub ok : Bool
  pub error : String

pub result_of : CanaryCheck → Ran → Result
result_of c (verdict v d) = record {
  check = c;
  observed = v;
  detail = d;
  ok = str_eq v c.expected_verdict;
  error = "";
}
result_of c (scan_failed v d e) = record {
  check = c;
  observed = v;
  detail = d;
  ok = false;
  error = e;
}

pub run_check : CanaryCheck → Option ScannerFunc → Result
unfolding result_of
run_check c none = record {
  check = c;
  observed = "";
  detail = "";
  ok = false;
  error = "no runner registered for scanner=" ++ c.scanner_kind;
}
run_check c (some f) = result_of c (f c.domain)

pub run_once : List CanaryCheck → Dict ScannerFunc → List Result
unfolding run_check
run_once [] runners = []
run_once (c ∷ cs) runners = run_check c (lookup c.scanner_kind runners) ∷ run_once cs runners

-- `inMemStore`
pub record InMemStore : Type 0 where
  pub flags : Dict ℕ
  pub reasons : Dict String

pub new_in_mem_store : InMemStore
new_in_mem_store = record { flags = []; reasons = [] }

pub mark_regressed : String → String → ℕ → InMemStore → InMemStore
mark_regressed scanner why until s = record {
  flags = insert scanner until s.flags;
  reasons = insert scanner why s.reasons;
}

pub flagged : Option ℕ → ℕ → Bool
flagged none now = false
flagged (some until) now = not (ltb until now)

pub is_regressed : String → ℕ → InMemStore → Bool
unfolding flagged
is_regressed scanner now s = flagged (lookup scanner s.flags) now

pub clear : String → InMemStore → InMemStore
clear scanner s = record { flags = remove scanner s.flags; reasons = remove scanner s.reasons }

string_or_empty : Option String → String
string_or_empty none = ""
string_or_empty (some r) = r

pub reason : String → InMemStore → String
unfolding string_or_empty
reason scanner s = string_or_empty (lookup scanner s.reasons)

abbrev pub cool_off : ℕ
cool_off = 24 * 3_600_000_000_000

pub mismatch_reason : Result → String
mismatch_reason r =
    "expected "
    ++ (r.check.expected_verdict ++ (" got " ++ (r.observed ++ (" on canary " ++ r.check.name))))

-- The store afterwards, the scanners that are returned, and the alerts in order (a caller without
-- `alertOnce` drops them).
pub record Handled : Type 0 where
  pub store : InMemStore
  pub regressed : List String
  pub alerts : List (String × String)

flag_first : Result → Handled → Handled
unfolding mismatch_reason
flag_first r rest = record {
  store = rest.store;
  regressed = r.check.scanner_kind ∷ rest.regressed;
  alerts = (r.check.scanner_kind, mismatch_reason r) ∷ rest.alerts;
}

-- What one result does to the store.
pub handle_one : Result → ℕ → InMemStore → InMemStore
unfolding mark_regressed clear mismatch_reason
handle_one r now s =
    if not (str_eq r.error "")
    then s
    else if r.ok
    then clear r.check.scanner_kind s
    else mark_regressed r.check.scanner_kind (mismatch_reason r) (now + cool_off) s

-- The clock is read once for the whole run.
pub handle_results : List Result → ℕ → InMemStore → Handled
unfolding handle_one flag_first
handle_results [] now s = record { store = s; regressed = []; alerts = [] }
handle_results (r ∷ rs) now s =
    let rest = handle_results rs now (handle_one r now s) in
    if not (str_eq r.error "") then rest else if r.ok then rest else flag_first r rest

-- One tick of the loop.
pub tick : List CanaryCheck → Dict ScannerFunc → ℕ → InMemStore → Handled
unfolding run_once handle_results
tick checks runners now s = handle_results (run_once checks runners) now s
