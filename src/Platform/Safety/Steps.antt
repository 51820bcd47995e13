-- ===== src/Platform/Safety/Steps.antt =====
-- Every step of the processes keeps the table of scans safe, and no scan is held twice.
use flyto_warroom.Prelude.{
  ℕ, ◌≡◌, refl, String, Bool, false, List, [], ◌∷◌, ◌++◌, arith, any, select, length, str_eq,
}
use flyto_warroom.Platform.{Scan}
use flyto_warroom.Platform.Tables.{update}
use flyto_warroom.Platform.Scans.{new_scan, active_scan_of}
use flyto_warroom.Platform.Workers.{System}
use flyto_warroom.Platform.Safety.{Fits, IsSafe}
use flyto_warroom.Platform.Safety.Moves.{IsSafe-append, IsSafe-touch}

-- How often an identifier is held.
abbrev pub held : List Scan → String → ℕ
held ss id = length (select (λ s. str_eq s.id id) ss)

abbrev pub IsSafeSystem : System → Type 0
IsSafeSystem sys = IsSafe (held sys.scanning) (held sys.analysing) (held sys.reporting) sys.db.scans

-- `NewID` is random: an identifier that it makes is held by no worker.
abbrev pub IsFresh : String → System → Type 0
IsFresh id sys =
    (held sys.scanning id ≡ 0) × (held sys.analysing id ≡ 0) × (held sys.reporting id ≡ 0)

module _ (a b c : String → ℕ) (now : ℕ) where
  -- No worker holds it.
  abbrev pub Unheld : String → Type 0
  Unheld id = (a id ≡ 0) × (b id ≡ 0) × (c id ≡ 0)

  new-Fits :
      (id project repo trigger : String)
      → Unheld id
      → Fits (a id) (b id) (c id) (new_scan id project repo trigger now)
  unfolding new_scan
  new-Fits id project repo trigger (ea, eb, ec) = ground arith

  pub grow-IsSafe :
      (id project repo trigger : String) (xs : List Scan)
      → Unheld id
      → any (λ t. str_eq t.id id) xs ≡ false
      → any (active_scan_of repo) xs ≡ false
      → IsSafe a b c xs
      → IsSafe a b c (xs ++ new_scan id project repo trigger now ∷ [])
  unfolding new_scan
  grow-IsSafe id project repo trigger xs ok fresh idle safe =
      IsSafe-append a b c xs (new_scan id project repo trigger now) fresh idle
        (new-Fits id project repo trigger ok) safe

  pub touch-IsSafe :
      (p : Scan → Bool) (trigger : String) (xs : List Scan)
      → IsSafe a b c xs
      → IsSafe a b c (update p (λ s. record s { trigger_type = trigger }) xs)
  touch-IsSafe p trigger xs safe =
      IsSafe-touch a b c p (λ s. record s { trigger_type = trigger }) xs (λ x. refl) (λ x. refl)
        (λ x. refl) (λ x. refl) (λ x. refl) safe
