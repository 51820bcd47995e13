-- ===== src/Hub/Scope.antt =====
-- The workspaces of the events that the subscriptions get.
use mathlib.Core.List.{Memᴰ}
use mathlib.Core.List.Memᴰ
use mathlib.Core.Path.{subst}
use flyto_warroom.Prelude.{
  ℕ, ◌≡◌, ◌⊎◌, inl, inr, refl, ◌∙◌, String, Bool, some, List, [], ◌∷◌, ◌++◌, ltb, if_elim, ◌==◌,
  if◌then◌else◌, length, get_elem?, All, ap, arith, Bool-cases, Option-cases, str_eq, eq_iff,
}
use flyto_warroom.Prelude.Dict.{Dict, lookup, lookup-insert, lookup-remove}
use flyto_warroom.Hub.{
  subscriber_buffer_size, Event, Subscription, Hub, Op, op_subscribe, op_unsubscribe, op_publish,
  op_relay, op_bridge, op_work, op_close, enqueue, stop, quit, deliver_first, work, next_u64,
  listeners, listeners_in, or_empty, subscribe, without, put_listeners, unsubscribe, offer,
  offer_all, publish_local, publish, relay, all_listeners, close, new_hub, set_bridge, step, run,
}
use flyto_warroom.Hub.Heap.{
  All-modify, All-snoc, All-append, All-stop_each, workspace_at, workspace_at-modify,
  workspace_at-snoc_old, workspace_at-snoc_new,
}

abbrev pub IsFrom : String → Event → Type 0
IsFrom ws e = e.workspace_id ≡ ws

-- Everything that a subscription holds or has handed to its callback is of its own workspace.
pub record OwnEvents (s : Subscription) : Type 0 where
  pub buffered : All (IsFrom s.workspace) s.ch
  pub handed : All (IsFrom s.workspace) s.delivered

-- The map leads to subscriptions of the workspace under which it lists them.
pub record Scoped (subs : Dict (List ℕ)) (heap : List Subscription) : Type 0 where
  pub listed : (ws : String) (a : ℕ) → Memᴰ a (listeners_in ws subs) → workspace_at heap a ≡ some ws
  pub own : All OwnEvents heap

abbrev pub IsScoped : Hub → Type 0
IsScoped h = Scoped h.subs h.heap

enqueue-OwnEvents :
    (e : Event) (s : Subscription)
    → e.workspace_id ≡ s.workspace
    → OwnEvents s
    → OwnEvents (enqueue e s).0
unfolding enqueue
enqueue-OwnEvents e s same o =
    if_elim (λ (r : Subscription × Bool). OwnEvents r.0) s.closed (λ c. o)
      (λ c.
        if_elim (λ (r : Subscription × Bool). OwnEvents r.0)
          (ltb (length s.ch) subscriber_buffer_size)
          (λ b. record { buffered = All-snoc _ s.ch e o.buffered same; handed = o.handed })
          (λ b. o))

stop-OwnEvents : (s : Subscription) → OwnEvents s → OwnEvents (stop s)
unfolding stop
stop-OwnEvents s o = record {
  buffered = tt;
  handed = All-append _ s.delivered s.ch o.handed o.buffered;
}

quit-OwnEvents : (s : Subscription) → OwnEvents s → OwnEvents (quit s)
unfolding quit
quit-OwnEvents s o = record {
  buffered = tt;
  handed = All-append _ s.delivered s.ch o.handed o.buffered;
}

quit-workspace : (s : Subscription) → (quit s).workspace ≡ s.workspace
unfolding quit
quit-workspace s = refl

deliver-OwnEvents :
    (es : List Event) (s : Subscription)
    → All (IsFrom s.workspace) es
    → OwnEvents s
    → OwnEvents (deliver_first es s)
unfolding deliver_first
deliver-OwnEvents [] s h o = o
deliver-OwnEvents (e ∷ es) s h o = record {
  buffered = h.1;
  handed = All-snoc _ s.delivered e o.handed h.0;
}

enqueue-workspace : (e : Event) (s : Subscription) → (enqueue e s).0.workspace ≡ s.workspace
unfolding enqueue
enqueue-workspace e s = ground arith

work-workspace : (s : Subscription) → (work s).workspace ≡ s.workspace
unfolding work deliver_first
work-workspace s = ground arith

-- The map of the hub does not matter to what `offer` does, nor `offer` to the map.
subs-offer : (e : Event) (a : ℕ) (h : Hub) → (offer e a h).subs ≡ h.subs
unfolding offer
subs-offer e a h = ground arith

offer-IsScoped :
    (e : Event) (a : ℕ) (h : Hub)
    → workspace_at h.heap a ≡ some e.workspace_id
    → IsScoped h
    → IsScoped (offer e a h)
unfolding offer
offer-IsScoped e a h here v = elim (Option-cases (get_elem? h.heap a)) [
  | inl n ↦ rw (n, offer) v
  | inr (s, n) ↦
      rw (n, offer)
        (record {
          listed =
              λ ws b m. workspace_at-modify _ a h.heap b (enqueue-workspace e) ∙ v.listed ws b m;
          own =
              All-modify OwnEvents _ a h.heap
                (λ t q o. enqueue-OwnEvents e t (some_workspace t q) o) v.own;
        })
]
  where
    some_workspace : (t : Subscription) → get_elem? h.heap a ≡ some t → e.workspace_id ≡ t.workspace
    some_workspace t q = unfold workspace_at in ground arith

workspace_at-offer :
    (e : Event) (a : ℕ) (h : Hub) (b : ℕ)
    → workspace_at (offer e a h).heap b ≡ workspace_at h.heap b
unfolding offer
workspace_at-offer e a h b = elim (Option-cases (get_elem? h.heap a)) [
  | inl n ↦ rw (n, offer) refl
  | inr (s, n) ↦ rw (n, offer) (workspace_at-modify _ a h.heap b (enqueue-workspace e))
]

offer_all-IsScoped :
    (e : Event) (list : List ℕ) (h : Hub)
    → ((a : ℕ) → Memᴰ a list → workspace_at h.heap a ≡ some e.workspace_id)
    → IsScoped h
    → IsScoped (offer_all e list h)
unfolding offer_all
offer_all-IsScoped e [] h here v = v
offer_all-IsScoped e (a ∷ list) h here v =
    offer_all-IsScoped e list (offer e a h)
      (λ b m. workspace_at-offer e a h b ∙ here b (Memᴰ.tail m))
      (offer-IsScoped e a h (here a (Memᴰ.head refl)) v)

publish_local-IsScoped : (e : Event) (h : Hub) → IsScoped h → IsScoped (publish_local e h)
unfolding publish_local
publish_local-IsScoped e h v =
    offer_all-IsScoped e (listeners e.workspace_id h) h (v.listed e.workspace_id) v

relay-IsScoped : (e : Event) (h : Hub) → IsScoped h → IsScoped (relay e h)
unfolding relay
relay-IsScoped e h v = if_elim IsScoped h.bridged (λ b. v) (λ b. v)

publish-IsScoped :
    (ws kind payload : String) (now : ℕ) (h : Hub)
    → IsScoped h
    → IsScoped (publish ws kind payload now h)
unfolding publish
publish-IsScoped ws kind payload now h v =
    let e : Event = record {
      id = next_u64 h.seq;
      workspace_id = ws;
      kind = kind;
      payload = payload;
      timestamp = now;
    } in
    let h' : Hub = record h { seq = next_u64 h.seq } in
    relay-IsScoped e (publish_local e h') (publish_local-IsScoped e h' v)

Mem-snoc : (b a : ℕ) (list : List ℕ) → Memᴰ b (list ++ a ∷ []) → Memᴰ b list ⊎ (b ≡ a)
Mem-snoc b a list m = elim (Memᴰ.append_cases list m) [
  | inl k ↦ inl k
  | inr k ↦ inr (Memᴰ.eq_of_singleton k)
]

subscribe-IsScoped : (ws : String) (h : Hub) → IsScoped h → IsScoped (subscribe ws h).0
unfolding subscribe listeners_in
subscribe-IsScoped ws h v = record {
  listed = λ other b m. elim (Bool-cases (str_eq ws other)) [
    | inl e ↦
        elim (Mem-snoc b (length h.heap) (listeners ws h)
          (rw (lookup-insert ws other (listeners ws h ++ length h.heap ∷ []) h.subs, e) at m)) [
            | inl old ↦
                workspace_at-snoc_old h.heap _ b other
                  (v.listed ws b old ∙ ap some ((eq_iff ws other).0 e))
            | inr new ↦ rw new (workspace_at-snoc_new h.heap _ ∙ ap some ((eq_iff ws other).0 e))
          ]
    | inr e ↦ workspace_at-snoc_old h.heap _ b other (
        v.listed other b
          (rw (lookup-insert ws other (listeners ws h ++ length h.heap ∷ []) h.subs, e) at m))
  ];
  own = All-snoc OwnEvents h.heap _ v.own (record { buffered = tt; handed = tt });
}

Mem-without : (a b : ℕ) (list : List ℕ) → Memᴰ b (without a list) → Memᴰ b list
unfolding without
Mem-without a b [] m = m
Mem-without a b (x ∷ list) m = elim (Bool-cases (x == a)) [
  | inl e ↦ Memᴰ.tail (rw e at m)
  | inr e ↦ elim (Memᴰ.cases_cons (rw e at m)) [
    | inl p ↦ Memᴰ.head p
    | inr k ↦ Memᴰ.tail (Mem-without a b list k)
  ]
]

listeners_put :
    (ws other : String) (list : List ℕ) (subs : Dict (List ℕ))
    → or_empty (lookup other (put_listeners ws list subs))
      ≡ (if str_eq ws other then list else or_empty (lookup other subs))
unfolding put_listeners or_empty
listeners_put ws other [] subs = ground (arith, lookup-remove ws other subs)
listeners_put ws other (a ∷ list) subs = ground (arith, lookup-insert ws other (a ∷ list) subs)

unsubscribe-IsScoped : (ws : String) (a : ℕ) (h : Hub) → IsScoped h → IsScoped (unsubscribe ws a h)
unfolding unsubscribe listeners_in
unsubscribe-IsScoped ws a h v = elim (Option-cases (get_elem? h.heap a)) [
  | inl n ↦ rw (n, unsubscribe) v
  | inr (s, n) ↦ elim (Bool-cases s.unsubscribed) [
    | inl u ↦ rw (n, unsubscribe) (rw u v)
    | inr u ↦
        rw (n, unsubscribe)
          (rw u (record {
            listed = λ other b m.
                workspace_at-modify _ a h.heap b quit-workspace
                ∙ v.listed other b (was_listed other b m);
            own = All-modify OwnEvents _ a h.heap (λ t q o. quit-OwnEvents t o) v.own;
          }))
  ]
]
  where
    was_listed :
        (other : String) (b : ℕ)
        → Memᴰ b (or_empty (lookup other (put_listeners ws (without a (listeners ws h)) h.subs)))
        → Memᴰ b (listeners other h)
    was_listed other b m = elim (Bool-cases (str_eq ws other)) [
      | inl e ↦
          subst (λ w. Memᴰ b (listeners w h)) ((eq_iff ws other).0 e)
            (Mem-without a b (listeners ws h)
              (rw (listeners_put ws other (without a (listeners ws h)) h.subs, e) at m))
      | inr e ↦ rw (listeners_put ws other (without a (listeners ws h)) h.subs, e) at m
    ]

step-IsScoped : (o : Op) (h : Hub) → IsScoped h → IsScoped (step o h)
unfolding step set_bridge close
step-IsScoped (op_subscribe ws) h v = subscribe-IsScoped ws h v
step-IsScoped (op_unsubscribe ws a) h v = unsubscribe-IsScoped ws a h v
step-IsScoped (op_publish ws kind payload now) h v = publish-IsScoped ws kind payload now h v
step-IsScoped (op_relay e) h v = publish_local-IsScoped e h v
step-IsScoped (op_bridge b) h v = v
step-IsScoped (op_work a) h v = record {
  listed = λ ws b m. workspace_at-modify work a h.heap b work-workspace ∙ v.listed ws b m;
  own =
      All-modify OwnEvents work a h.heap
        (λ t q o. unfold work in deliver-OwnEvents t.ch t o.buffered o) v.own;
}
step-IsScoped op_close h v = record {
  listed = λ ws b m. unfold listeners_in lookup or_empty in elim m [ ];
  own = All-stop_each OwnEvents (all_listeners h.subs) h.heap stop-OwnEvents v.own;
}

new_hub-IsScoped : IsScoped new_hub
unfolding new_hub listeners_in lookup or_empty
new_hub-IsScoped = record { listed = λ ws a m. elim m [ ]; own = tt }

run-IsScoped : (os : List Op) (h : Hub) → IsScoped h → IsScoped (run os h)
unfolding run
run-IsScoped [] h v = v
run-IsScoped (o ∷ os) h v = run-IsScoped os (step o h) (step-IsScoped o h v)

-- Whatever calls are made of a new hub, in any order and with any work done between them, every event
-- that a subscription buffers or has handed to its callback is of the workspace it subscribed to.
pub no_cross_workspace : (os : List Op) → All OwnEvents (run os new_hub).heap
no_cross_workspace os = (run-IsScoped os new_hub new_hub-IsScoped).own
