-- ===== src/Hub.antt =====
-- internal/liveevent/hub.go: the event hub. Subscriptions are shared pointers, so they stand on a
-- heap; the map from workspaces holds their addresses. `delivered` is the sequence of events for
-- which the subscription's worker goroutine has called its callback. The payload is opaque.
pub mod Heap
pub mod Scope
pub mod Bounds
mod Tests
use flyto_warroom.Prelude.{
  ℕ, zero, suc, ◌+◌, ◌%◌, ◌^◌, String, Bool, true, false, Option, none, some, List, [], ◌∷◌, ◌++◌,
  ◌==◌, ltb, length, get_elem?, set, if◌then◌else◌,
}
use flyto_warroom.Prelude.Dict.{Dict, lookup, insert, remove}

abbrev pub subscriber_buffer_size : ℕ
subscriber_buffer_size = 256

-- `atomic.Uint64.Add(1)`
abbrev pub next_u64 : ℕ → ℕ
next_u64 n = (n + 1) % 2 ^ 64

pub record Event : Type 0 where
  pub id : ℕ
  pub workspace_id : String
  pub kind : String
  pub payload : String
  pub timestamp : ℕ

-- `workspace` is the one that the subscriber asked for; `unsubscribed` is the state of the `once`.
pub record Subscription : Type 0 where
  pub id : ℕ
  pub workspace : String
  pub ch : List Event
  pub closed : Bool
  pub delivered : List Event
  pub unsubscribed : Bool

pub record Hub : Type 0 where
  pub subs : Dict (List ℕ)
  pub heap : List Subscription
  pub seq : ℕ
  pub sub_count : ℕ
  pub dropped : ℕ
  pub bridged : Bool
  pub relayed : List Event

pub new_hub : Hub
new_hub = record {
  subs = [];
  heap = [];
  seq = 0;
  sub_count = 0;
  dropped = 0;
  bridged = false;
  relayed = [];
}

-- The flag is false if the event was dropped; a closed subscription swallows it.
pub enqueue : Event → Subscription → Subscription × Bool
enqueue e s =
    if s.closed
    then (s, true)
    else if ltb (length s.ch) subscriber_buffer_size
    then (record s { ch = s.ch ++ e ∷ [] }, true)
    else (s, false)

-- Closing the channel lets the worker finish what is buffered, and `stop` waits for it.
pub stop : Subscription → Subscription
stop s = record s { closed = true; delivered = s.delivered ++ s.ch; ch = [] }

-- What the unsubscribe closure does to its subscription.
pub quit : Subscription → Subscription
unfolding stop
quit s = record (stop s) { unsubscribed = true }

-- One round of the worker: it takes the first buffered event and calls the callback.
deliver_first : List Event → Subscription → Subscription
deliver_first [] s = s
deliver_first (e ∷ es) s = record s { ch = es; delivered = s.delivered ++ e ∷ [] }

pub work : Subscription → Subscription
work s = deliver_first s.ch s

pub modify : (Subscription → Subscription) → ℕ → List Subscription → List Subscription
modify f a [] = []
modify f zero (s ∷ heap) = f s ∷ heap
modify f (suc a) (s ∷ heap) = s ∷ modify f a heap

or_empty : Option (List ℕ) → List ℕ
or_empty none = []
or_empty (some list) = list

-- `h.subs[workspaceID]`
pub listeners_in : String → Dict (List ℕ) → List ℕ
unfolding or_empty
listeners_in ws subs = or_empty (lookup ws subs)

abbrev pub listeners : String → Hub → List ℕ
listeners ws h = listeners_in ws h.subs

-- The new hub, and the address that the unsubscribe closure keeps.
pub subscribe : String → Hub → Hub × ℕ
subscribe ws h =
    let address = length h.heap in
    let s : Subscription = record {
      id = next_u64 h.sub_count;
      workspace = ws;
      ch = [];
      closed = false;
      delivered = [];
      unsubscribed = false;
    } in
    (
      record h {
        sub_count = next_u64 h.sub_count;
        heap = h.heap ++ s ∷ [];
        subs = insert ws (listeners ws h ++ address ∷ []) h.subs;
      },
      address,
    )

-- The loop that takes the subscription out of the workspace's list.
pub without : ℕ → List ℕ → List ℕ
without a [] = []
without a (b ∷ list) = let rest = without a list in if b == a then list else b ∷ rest

-- An empty list is deleted from the map.
put_listeners : String → List ℕ → Dict (List ℕ) → Dict (List ℕ)
put_listeners ws [] subs = remove ws subs
put_listeners ws (a ∷ list) subs = insert ws (a ∷ list) subs

-- The closure that `Subscribe` returned for the workspace and the address.
pub unsubscribe : String → ℕ → Hub → Hub
unsubscribe ws a h = elim (get_elem? h.heap a) [
  | none ↦ h
  | some s ↦ if s.unsubscribed then h else record h {
    subs = put_listeners ws (without a (listeners ws h)) h.subs;
    heap = modify quit a h.heap;
  }
]

-- One subscriber of the loop in `publishLocal`.
pub offer : Event → ℕ → Hub → Hub
offer e a h = elim (get_elem? h.heap a) [
  | none ↦ h
  | some s ↦ record h {
    heap = modify (λ t. (enqueue e t).0) a h.heap;
    dropped = if (enqueue e s).1 then h.dropped else next_u64 h.dropped;
  }
]

pub offer_all : Event → List ℕ → Hub → Hub
offer_all e [] h = h
offer_all e (a ∷ list) h = offer_all e list (offer e a h)

pub publish_local : Event → Hub → Hub
publish_local e h = offer_all e (listeners e.workspace_id h) h

relay : Event → Hub → Hub
relay e h = if h.bridged then record h { relayed = h.relayed ++ e ∷ [] } else h

pub publish : String → String → String → ℕ → Hub → Hub
unfolding relay
publish ws kind payload now h =
    let e : Event = record {
      id = next_u64 h.seq;
      workspace_id = ws;
      kind = kind;
      payload = payload;
      timestamp = now;
    } in
    relay e (publish_local e (record h { seq = next_u64 h.seq }))

pub set_bridge : Bool → Hub → Hub
set_bridge b h = record h { bridged = b }

pub stop_each : List ℕ → List Subscription → List Subscription
stop_each [] heap = heap
stop_each (a ∷ list) heap = stop_each list (modify stop a heap)

pub all_listeners : Dict (List ℕ) → List ℕ
all_listeners [] = []
all_listeners ((ws, list) ∷ subs) = list ++ all_listeners subs

pub close : Hub → Hub
close h = record h { subs = []; heap = stop_each (all_listeners h.subs) h.heap }

pub subscriber_count : String → Hub → ℕ
subscriber_count ws h = length (listeners ws h)

pub total_subscribers : Hub → ℕ
total_subscribers h = length (all_listeners h.subs)

-- A call of one of the hub's methods, or a round of one subscription's worker.
pub data Op : Type 0 where
  op_subscribe : String → Op
  op_unsubscribe : String → ℕ → Op
  op_publish : String → String → String → ℕ → Op
  op_relay : Event → Op
  op_bridge : Bool → Op
  op_work : ℕ → Op
  op_close : Op

pub step : Op → Hub → Hub
step (op_subscribe ws) h = (subscribe ws h).0
step (op_unsubscribe ws a) h = unsubscribe ws a h
step (op_publish ws kind payload now) h = publish ws kind payload now h
step (op_relay e) h = publish_local e h
step (op_bridge b) h = set_bridge b h
step (op_work a) h = record h { heap = modify work a h.heap }
step op_close h = close h

pub run : List Op → Hub → Hub
run [] h = h
run (o ∷ os) h = run os (step o h)
