-- ===== src/Hub/Heap.antt =====
-- Changing one subscription on the heap.
use flyto_warroom.Prelude.{
  ℕ, zero, suc, ◌≡◌, refl, String, Option, none, some, List, [], ◌∷◌, ◌++◌, length, get_elem?, All,
  ap,
}
use flyto_warroom.Hub.{Subscription, modify, stop, stop_each}

pub length-modify :
    (f : Subscription → Subscription) (a : ℕ) (heap : List Subscription)
    → length (modify f a heap) ≡ length heap
unfolding modify
length-modify f a [] = refl
length-modify f zero (s ∷ heap) = refl
length-modify f (suc a) (s ∷ heap) = ap suc (length-modify f a heap)

-- What holds of every subscription holds after a change that keeps it.
pub All-modify :
    (P : Subscription → Type 0) (f : Subscription → Subscription) (a : ℕ) (heap : List Subscription)
    → ((s : Subscription) → get_elem? heap a ≡ some s → P s → P (f s))
    → All P heap
    → All P (modify f a heap)
unfolding modify
All-modify P f a [] keep h = tt
All-modify P f zero (s ∷ heap) keep h = (keep s refl h.0, h.1)
All-modify P f (suc a) (s ∷ heap) keep h = (h.0, All-modify P f a heap keep h.1)

pub All-snoc :
    {A : Type 0} (P : A → Type 0) (xs : List A) (x : A) → All P xs → P x → All P (xs ++ x ∷ [])
All-snoc P [] x h p = (p, tt)
All-snoc P (y ∷ xs) x h p = (h.0, All-snoc P xs x h.1 p)

pub All-append :
    {A : Type 0} (P : A → Type 0) (xs ys : List A) → All P xs → All P ys → All P (xs ++ ys)
All-append P [] ys h k = k
All-append P (x ∷ xs) ys h k = (h.0, All-append P xs ys h.1 k)

pub All-stop_each :
    (P : Subscription → Type 0) (list : List ℕ) (heap : List Subscription)
    → ((s : Subscription) → P s → P (stop s))
    → All P heap
    → All P (stop_each list heap)
unfolding stop_each
All-stop_each P [] heap keep h = h
All-stop_each P (a ∷ list) heap keep h =
    All-stop_each P list (modify stop a heap) keep (All-modify P stop a heap (λ s e p. keep s p) h)

workspace_of : Option Subscription → Option String
workspace_of none = none
workspace_of (some s) = some s.workspace

-- The workspace of the subscription at an address.
unfoldable pub workspace_at : List Subscription → ℕ → Option String
unfolding workspace_of
workspace_at heap a = workspace_of (get_elem? heap a)

pub workspace_at-modify :
    (f : Subscription → Subscription) (a : ℕ) (heap : List Subscription) (b : ℕ)
    → ((s : Subscription) → (f s).workspace ≡ s.workspace)
    → workspace_at (modify f a heap) b ≡ workspace_at heap b
unfolding modify workspace_at
workspace_at-modify f a [] b same = refl
workspace_at-modify f zero (s ∷ heap) zero same = ap some (same s)
workspace_at-modify f zero (s ∷ heap) (suc b) same = refl
workspace_at-modify f (suc a) (s ∷ heap) zero same = refl
workspace_at-modify f (suc a) (s ∷ heap) (suc b) same = workspace_at-modify f a heap b same

pub workspace_at-snoc_old :
    (heap : List Subscription) (s : Subscription) (a : ℕ) (ws : String)
    → workspace_at heap a ≡ some ws
    → workspace_at (heap ++ s ∷ []) a ≡ some ws
unfolding workspace_at
workspace_at-snoc_old [] s a ws h = cc
workspace_at-snoc_old (t ∷ heap) s zero ws h = h
workspace_at-snoc_old (t ∷ heap) s (suc a) ws h = workspace_at-snoc_old heap s a ws h

pub workspace_at-snoc_new :
    (heap : List Subscription) (s : Subscription)
    → workspace_at (heap ++ s ∷ []) (length heap) ≡ some s.workspace
unfolding workspace_at
workspace_at-snoc_new [] s = refl
workspace_at-snoc_new (t ∷ heap) s = workspace_at-snoc_new heap s
