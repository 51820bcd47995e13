-- ===== src/Hub/Tests.antt =====
-- Runs of the hub, and its theorems at concrete inputs.
use flyto_warroom.Prelude.{◌≡◌, refl, false, List, [], ◌∷◌, All}
use flyto_warroom.Prelude.Dict.{lookup, insert}
use flyto_warroom.Hub.{
  Event, Hub, Op, op_subscribe, op_publish, op_work, op_close, enqueue, deliver_first, work, modify,
  listeners_in, subscribe, unsubscribe, offer, offer_all, publish_local, publish, relay, new_hub,
  step, run,
}
use flyto_warroom.Hub.Scope.{OwnEvents, no_cross_workspace}
use flyto_warroom.Hub.Bounds.{
  IsBounded, buffers-IsBounded, EndedWith, ended_stays, unsubscribe_ends,
}

-- Two tenants; one event for the first, which its worker hands over, and one more.
abbrev two_tenants : List Op
two_tenants =
    op_subscribe "w1"
    ∷ op_subscribe "w2"
    ∷ op_publish "w1" "scan.queued" "{}" 5
    ∷ op_work 0
    ∷ op_publish "w1" "scan.complete" "{}" 6
    ∷ []

abbrev first_event : Event
first_event = record {
  id = 1;
  workspace_id = "w1";
  kind = "scan.queued";
  payload = "{}";
  timestamp = 5;
}

abbrev second_event : Event
second_event = record {
  id = 2;
  workspace_id = "w1";
  kind = "scan.complete";
  payload = "{}";
  timestamp = 6;
}

first_tenant_events :
    (run two_tenants new_hub).heap
    ≡ record {
      id = 1;
      workspace = "w1";
      ch = second_event ∷ [];
      closed = false;
      delivered = first_event ∷ [];
      unsubscribed = false;
    }
      ∷ record {
        id = 2;
        workspace = "w2";
        ch = [];
        closed = false;
        delivered = [];
        unsubscribed = false;
      }
      ∷ []
unfolding run step new_hub subscribe publish publish_local offer_all offer relay enqueue work
    deliver_first modify listeners_in lookup insert
first_tenant_events = refl

no_cross_workspace_example : All OwnEvents (run two_tenants new_hub).heap
no_cross_workspace_example = no_cross_workspace two_tenants

buffers-IsBounded_holds : All IsBounded (run two_tenants new_hub).heap
buffers-IsBounded_holds = buffers-IsBounded two_tenants

abbrev after_two : Hub
after_two = run two_tenants new_hub

first_ends : EndedWith 0 (first_event ∷ second_event ∷ []) (unsubscribe "w1" 0 after_two).heap
unfolding run step new_hub subscribe publish publish_local offer_all offer relay enqueue work
    deliver_first modify listeners_in lookup insert
first_ends = unsubscribe_ends "w1" 0 after_two _ refl refl

unsubscribe_ends_holds :
    EndedWith 0 (first_event ∷ second_event ∷ []) (unsubscribe "w1" 0 after_two).heap
unfolding run step new_hub subscribe publish publish_local offer_all offer relay enqueue work
    deliver_first modify listeners_in lookup insert
unsubscribe_ends_holds =
    unsubscribe_ends "w1" 0 after_two
      (record {
        id = 1;
        workspace = "w1";
        ch = second_event ∷ [];
        closed = false;
        delivered = first_event ∷ [];
        unsubscribed = false;
      })
      refl refl

ended_stays_holds :
    EndedWith 0
      (first_event ∷ second_event ∷ [])
      (run
        (op_publish "w1" "scan.failed" "{}" 7 ∷ op_close ∷ [])
        (unsubscribe "w1" 0 after_two)).heap
ended_stays_holds =
    ended_stays (op_publish "w1" "scan.failed" "{}" 7 ∷ op_close ∷ [])
      (unsubscribe "w1" 0 after_two) 0 (first_event ∷ second_event ∷ []) first_ends
