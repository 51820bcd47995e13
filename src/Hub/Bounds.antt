-- ===== src/Hub/Bounds.antt =====
-- The buffers of the subscriptions, and their end.
use mathlib.Core.List.{append-nil}
use flyto_warroom.Prelude.{
  ap, ℕ, zero, suc, ◌≤◌, ◌≡◌, refl, String, true, false, Option-cases, inl, inr, some, List, [],
  ◌∷◌, ◌++◌, length, get_elem?, All, arith, if_elim, length-append,
}
use flyto_warroom.Hub.{
  subscriber_buffer_size, next_u64, Event, Subscription, Hub, Op, op_subscribe, op_unsubscribe,
  op_publish, op_relay, op_bridge, op_work, op_close, enqueue, stop, quit, deliver_first, work,
  modify, listeners, subscribe, unsubscribe, offer, offer_all, publish_local, publish, relay,
  set_bridge, all_listeners, stop_each, close, new_hub, step, run,
}
use flyto_warroom.Hub.Heap.{All-modify, All-snoc}

-- The ways in which the hub changes a subscription.
data Change : Type 0 where
  by_enqueue : Event → Change
  by_stop by_quit by_work : Change

change : Change → Subscription → Subscription
change (by_enqueue e) s = (enqueue e s).0
change by_stop s = stop s
change by_quit s = quit s
change by_work s = work s

abbrev IsFresh : Subscription → Type 0
IsFresh s = (s.ch ≡ []) × (s.delivered ≡ []) × (s.closed ≡ false)

heap-relay : (e : Event) (h : Hub) → (relay e h).heap ≡ h.heap
unfolding relay
heap-relay e h = ground arith

-- A property of the heap that new subscriptions and changes of one subscription keep.
module _ (Q : List Subscription → Type 0)
    (fresh : (heap : List Subscription) (s : Subscription)
      → IsFresh s
      → Q heap
      → Q (heap ++ s ∷ []))
    (changed : (c : Change) (a : ℕ) (heap : List Subscription)
      → Q heap
      → Q (modify (change c) a heap)) where
  offer_keeps : (e : Event) (a : ℕ) (h : Hub) → Q h.heap → Q (offer e a h).heap
  unfolding change offer
  offer_keeps e a h q = elim (Option-cases (get_elem? h.heap a)) [
    | inl n ↦ rw (n, offer) q
    | inr (s, n) ↦ rw (n, offer) (changed (by_enqueue e) a h.heap q)
  ]

  offer_all_keeps : (e : Event) (list : List ℕ) (h : Hub) → Q h.heap → Q (offer_all e list h).heap
  unfolding offer_all
  offer_all_keeps e [] h q = q
  offer_all_keeps e (a ∷ list) h q = offer_all_keeps e list (offer e a h) (offer_keeps e a h q)

  stop_each_keeps : (list : List ℕ) (heap : List Subscription) → Q heap → Q (stop_each list heap)
  unfolding stop_each change
  stop_each_keeps [] heap q = q
  stop_each_keeps (a ∷ list) heap q =
      stop_each_keeps list (modify stop a heap) (changed by_stop a heap q)

  unsubscribe_keeps : (ws : String) (a : ℕ) (h : Hub) → Q h.heap → Q (unsubscribe ws a h).heap
  unfolding unsubscribe change
  unsubscribe_keeps ws a h q = elim (Option-cases (get_elem? h.heap a)) [
    | inl n ↦ rw (n, unsubscribe) q
    | inr (s, n) ↦
        rw (n, unsubscribe)
          (if_elim (λ (g : Hub). Q g.heap) s.unsubscribed (λ u. q)
            (λ u. changed by_quit a h.heap q))
  ]

  step_keeps : (o : Op) (h : Hub) → Q h.heap → Q (step o h).heap
  unfolding step subscribe publish publish_local set_bridge close change
  step_keeps (op_subscribe ws) h q = fresh h.heap _ (refl, refl, refl) q
  step_keeps (op_unsubscribe ws a) h q = unsubscribe_keeps ws a h q
  step_keeps (op_publish ws kind payload now) h q =
      let e : Event = record {
        id = next_u64 h.seq;
        workspace_id = ws;
        kind = kind;
        payload = payload;
        timestamp = now;
      } in
      rw heap-relay (offer_all_keeps e (listeners ws h) (record h { seq = next_u64 h.seq }) q)
  step_keeps (op_relay e) h q = offer_all_keeps e (listeners e.workspace_id h) h q
  step_keeps (op_bridge b) h q = q
  step_keeps (op_work a) h q = changed by_work a h.heap q
  step_keeps op_close h q = stop_each_keeps (all_listeners h.subs) h.heap q

  run_keeps : (os : List Op) (h : Hub) → Q h.heap → Q (run os h).heap
  unfolding run
  run_keeps [] h q = q
  run_keeps (o ∷ os) h q = run_keeps os (step o h) (step_keeps o h q)

abbrev pub IsBounded : Subscription → Type 0
IsBounded s = length s.ch ≤ subscriber_buffer_size

change-IsBounded : (c : Change) (s : Subscription) → IsBounded s → IsBounded (change c s)
unfolding change enqueue stop quit work deliver_first
change-IsBounded (by_enqueue e) s h = ground (arith, length-append s.ch (e ∷ []))
change-IsBounded by_stop s h = omega arith
change-IsBounded by_quit s h = omega arith
change-IsBounded by_work s h = ground arith

-- Whatever calls are made of a new hub, no subscription ever buffers more than 256 events.
pub buffers-IsBounded : (os : List Op) → All IsBounded (run os new_hub).heap
unfolding new_hub
buffers-IsBounded os =
    run_keeps (All IsBounded)
      (λ heap s f h. All-snoc IsBounded heap s h (omega (arith, ap length f.0)))
      (λ c a heap h. All-modify IsBounded (change c) a heap (λ s e p. change-IsBounded c s p) h) os
      new_hub tt

-- The subscription at an address is closed and drained, and has handed over just these events.
abbrev pub EndedWith : ℕ → List Event → List Subscription → Type 0
EndedWith a events heap =
    (s : Subscription) × (get_elem? heap a ≡ some s)
    × (s.closed ≡ true)
    × (s.ch ≡ [])
    × (s.delivered ≡ events)

change_ended :
    (c : Change) (s : Subscription) (events : List Event)
    → s.closed ≡ true
    → s.ch ≡ []
    → s.delivered ≡ events
    → ((change c s).closed ≡ true) × ((change c s).ch ≡ []) × ((change c s).delivered ≡ events)
unfolding change enqueue stop quit work deliver_first
change_ended (by_enqueue e) s events c n d = ground arith
change_ended by_stop s events c n d = ground (arith, append-nil s.delivered)
change_ended by_quit s events c n d = ground (arith, append-nil s.delivered)
change_ended by_work s events c n d = ground arith

modify_ended :
    (c : Change) (b a : ℕ) (events : List Event) (heap : List Subscription)
    → EndedWith a events heap
    → EndedWith a events (modify (change c) b heap)
unfolding modify
modify_ended c b a events [] h = h
modify_ended c zero zero events (s ∷ heap) (t, e, cl, n, d) =
    let (x, y, z) = change_ended c s events (ground arith) (ground arith) (ground arith) in
    (change c s, refl, x, y, z)
modify_ended c zero (suc a) events (s ∷ heap) h = h
modify_ended c (suc b) zero events (s ∷ heap) h = h
modify_ended c (suc b) (suc a) events (s ∷ heap) h = modify_ended c b a events heap h

snoc_ended :
    (a : ℕ) (events : List Event) (heap : List Subscription) (s : Subscription)
    → EndedWith a events heap
    → EndedWith a events (heap ++ s ∷ [])
snoc_ended a events [] s (t, e, cl, n, d) = absurd (cc)
snoc_ended zero events (t ∷ heap) s h = h
snoc_ended (suc a) events (t ∷ heap) s h = snoc_ended a events heap s h

get_elem?-modify :
    (f : Subscription → Subscription) (a : ℕ) (heap : List Subscription) (s : Subscription)
    → get_elem? heap a ≡ some s
    → get_elem? (modify f a heap) a ≡ some (f s)
unfolding modify
get_elem?-modify f a [] s e = absurd (cc)
get_elem?-modify f zero (t ∷ heap) s e = ground arith
get_elem?-modify f (suc a) (t ∷ heap) s e = get_elem?-modify f a heap s e

-- Once a subscription is closed and drained, whatever is called afterwards, it stays so and its
-- callback gets no further event.
pub ended_stays :
    (os : List Op) (h : Hub) (a : ℕ) (events : List Event)
    → EndedWith a events h.heap
    → EndedWith a events (run os h).heap
ended_stays os h a events e =
    run_keeps (EndedWith a events) (λ heap s f q. snoc_ended a events heap s q)
      (λ c b heap q. modify_ended c b a events heap q) os h e

-- The first call of an unsubscribe closure ends its subscription, with what was handed over before
-- and then what was buffered, in order.
pub unsubscribe_ends :
    (ws : String) (a : ℕ) (h : Hub) (s : Subscription)
    → get_elem? h.heap a ≡ some s
    → s.unsubscribed ≡ false
    → EndedWith a (s.delivered ++ s.ch) (unsubscribe ws a h).heap
unfolding quit unsubscribe
unsubscribe_ends ws a h s e u =
    rw (e, unsubscribe) (rw u (quit s, get_elem?-modify quit a h.heap s e, refl, refl, refl))
