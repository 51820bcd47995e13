-- ===== src/Circuit/Window.antt =====
-- The rolling window, against the history of the failures since the breaker last closed.
use flyto_warroom.Prelude.{
  ℕ, ◌+◌, ltb, ◌≤◌, ◌≡◌, ◌↔◌, ◌⊎◌, refl, sym, ap, ◌∙◌, List, [], ◌∷◌, ◌++◌, arith, length, select,
  inl, inr,
}
use flyto_warroom.Circuit.{
  State, closed, open_state, half_open, Config, Breaker, new, allow, record_success, record_failure,
  recent,
}
use flyto_warroom.Circuit.Invariant.{Op, op_allow, op_success, op_failure, step, run, cfg-run}

remember_in : State → Op → List ℕ → List ℕ
remember_in closed (op_failure now trim_now) h = h ++ now ∷ []
remember_in half_open (op_success now) h = []
remember_in s o h = h

-- The times of all failures that were reported while the breaker was closed, since it last closed.
unfoldable pub remember : List Op → Breaker → List ℕ → List ℕ
unfolding remember_in
remember [] b h = h
remember (o ∷ os) b h = remember os (step o b) (remember_in b.state o h)

-- The readings of the clock do not go back; the second reading of `RecordFailure` follows its first.
abbrev pub Ordered : ℕ → List Op → Type 0
Ordered t [] = Unit {0}
Ordered t (op_allow now ∷ os) = (t ≤ now) × Ordered now os
Ordered t (op_success now ∷ os) = (t ≤ now) × Ordered now os
Ordered t (op_failure now trim_now ∷ os) = (t ≤ now) × (now ≤ trim_now) × Ordered trim_now os

-- The last reading.
abbrev pub last_reading : ℕ → List Op → ℕ
last_reading t [] = t
last_reading t (op_allow now ∷ os) = last_reading now os
last_reading t (op_success now ∷ os) = last_reading now os
last_reading t (op_failure now trim_now ∷ os) = last_reading trim_now os

-- A later window keeps nothing that an earlier one has dropped.
recent-recent : (s t w : ℕ) (h : List ℕ) → s ≤ t → recent t w (recent s w h) ≡ recent t w h
unfolding recent select
recent-recent s t w [] le = refl
recent-recent s t w (x ∷ h) le = ground (arith, recent-recent s t w h le)

recent-append : (t w : ℕ) (xs ys : List ℕ) → recent t w (xs ++ ys) ≡ recent t w xs ++ recent t w ys
unfolding recent select
recent-append t w [] ys = refl
recent-append t w (x ∷ xs) ys = ground (arith, recent-append t w xs ys)

recent-snoc :
    (s t w now : ℕ) (h : List ℕ)
    → s ≤ t
    → recent t w (recent s w h ++ now ∷ []) ≡ recent t w (h ++ now ∷ [])
recent-snoc s t w now h le =
    recent-append t w (recent s w h) (now ∷ [])
    ∙ ap (λ (l : List ℕ). l ++ recent t w (now ∷ [])) (recent-recent s t w h le)
    ∙ sym (recent-append t w h (now ∷ []))

-- The failures that a breaker holds are those of the history in a window that ends by `bound`.
abbrev Tracks : Breaker → List ℕ → ℕ → Type 0
Tracks b h bound = (t : ℕ) × (t ≤ bound) × (b.failures ≡ recent t b.cfg.window h)

State-cases : (s : State) → (s ≡ closed) ⊎ ((s ≡ open_state) ⊎ (s ≡ half_open))
State-cases closed = inl refl
State-cases open_state = inr (inl refl)
State-cases half_open = inr (inr refl)

recent-nil : (t w : ℕ) → recent t w [] ≡ []
unfolding recent select
recent-nil t w = refl

-- One call keeps the tracking, at a later bound.
allow-Tracks :
    (b : Breaker) (h : List ℕ) (bound now : ℕ)
    → Tracks b h bound
    → bound ≤ now
    → Tracks (step (op_allow now) b) (remember_in b.state (op_allow now) h) now
unfolding step allow remember_in
allow-Tracks b h bound now (t, le, e) le' = (t, omega arith, ground arith)

success-Tracks :
    (b : Breaker) (h : List ℕ) (bound now : ℕ)
    → Tracks b h bound
    → bound ≤ now
    → Tracks (step (op_success now) b) (remember_in b.state (op_success now) h) now
unfolding step record_success remember_in
success-Tracks b h bound now (t, le, e) le' = elim (State-cases b.state) [
  | inl s ↦ (now, omega arith, ground (arith, recent-recent t now b.cfg.window h))
  | inr (inl s) ↦ (t, omega arith, ground arith)
  | inr (inr s) ↦ (t, omega arith, ground (arith, recent-nil t b.cfg.window))
]

failure-Tracks :
    (b : Breaker) (h : List ℕ) (bound now trim_now : ℕ)
    → Tracks b h bound
    → bound ≤ now
    → now ≤ trim_now
    → Tracks
        (step (op_failure now trim_now) b)
        (remember_in b.state (op_failure now trim_now) h)
        trim_now
unfolding step record_failure remember_in
failure-Tracks b h bound now trim_now (t, le, e) le' le'' = elim (State-cases b.state) [
  | inl s ↦ (trim_now, omega arith, ground (arith, recent-snoc t trim_now b.cfg.window now h))
  | inr (inl s) ↦ (t, omega arith, ground arith)
  | inr (inr s) ↦ (t, omega arith, ground arith)
]

run-Tracks :
    (os : List Op) (b : Breaker) (h : List ℕ) (bound : ℕ)
    → Tracks b h bound
    → Ordered bound os
    → Tracks (run os b) (remember os b h) (last_reading bound os)
unfolding run remember
run-Tracks [] b h bound tr or = tr
run-Tracks (op_allow now ∷ os) b h bound tr (le, or) =
    run-Tracks os (step (op_allow now) b) _ now (allow-Tracks b h bound now tr le) or
run-Tracks (op_success now ∷ os) b h bound tr (le, or) =
    run-Tracks os (step (op_success now) b) _ now (success-Tracks b h bound now tr le) or
run-Tracks (op_failure now trim_now ∷ os) b h bound tr (le, le', or) =
    run-Tracks os (step (op_failure now trim_now) b) _ trim_now
      (failure-Tracks b h bound now trim_now tr le le') or

failure_opens :
    (b : Breaker) (now trim_now : ℕ) (cfg : Config) (h : List ℕ)
    → b.state ≡ closed
    → b.cfg ≡ cfg
    → recent trim_now cfg.window (b.failures ++ now ∷ []) ≡ h
    → ((record_failure now trim_now b).state ≡ open_state) ↔ (cfg.failure_threshold ≤ length h)
unfolding record_failure
failure_opens b now trim_now cfg h s c e = ground arith

-- The failures to count when one more arrives: all since the breaker last closed, in the window.
abbrev pub in_the_window : Config → List Op → ℕ → ℕ → ℕ
in_the_window cfg os now trim_now =
    length
      (select (λ t. ltb trim_now (t + (new cfg).cfg.window)) (remember os (new cfg) [] ++ now ∷ []))

-- A breaker made by `New` that is closed after any calls, with a clock that does not go back, is
-- opened by the next failure exactly when the failures reported while closed since it last closed,
-- this one included, that lie in the window ending at the trimming, reach the threshold.
pub opens_iff :
    (cfg : Config) (os : List Op) (now trim_now : ℕ)
    → Ordered 0 os
    → (run os (new cfg)).state ≡ closed
    → last_reading 0 os ≤ now
    → now ≤ trim_now
    → ((record_failure now trim_now (run os (new cfg))).state ≡ open_state)
      ↔ ((new cfg).cfg.failure_threshold ≤ in_the_window cfg os now trim_now)
unfolding recent
opens_iff cfg os now trim_now or s le le' =
    failure_opens (run os (new cfg)) now trim_now (new cfg).cfg _ s (cfg-run os (new cfg)) tracked
  where
    start : Tracks (new cfg) [] 0
    start = (0, omega arith, unfold new in sym (recent-nil 0 _))

    tracked :
        recent trim_now (new cfg).cfg.window ((run os (new cfg)).failures ++ now ∷ [])
        ≡ recent trim_now (new cfg).cfg.window (remember os (new cfg) [] ++ now ∷ [])
    tracked =
        let (t, bound, e) = run-Tracks os (new cfg) [] 0 start or in
        ap (λ (l : List ℕ). recent trim_now (new cfg).cfg.window (l ++ now ∷ []))
          (e
            ∙ ap (λ (c : Config). recent t c.window (remember os (new cfg) []))
                (cfg-run os (new cfg)))
        ∙ recent-snoc t trim_now (new cfg).cfg.window now (remember os (new cfg) []) (omega arith)
