-- ===== src/Server/WatchInstances/Leaves.antt =====
-- What a turn of one watch of a service does to the subscriptions of the others (registry.go:
-- WatchInstances; store.go: WatchService, CloseServiceWatcher).
use repository.Base.{
  ℕ, ◌+◌, ◌^◌, ◌≤◌, ◌<◌, ◌≡◌, ◌≢◌, refl, ap, ◌∙◌, String, List, [], ◌∷◌, ◌++◌, Option, none, some,
  arith, nat_comparable, text_comparable,
}
use repository.Base.Int64.{Int64}
use repository.Base.Int64
use repository.Base.Dict.{
  find, store, erase, find-erase_apart, find-store_apart, IsUnique, IsUnique-store, IsUnique-erase,
}
use repository.Store.State.{Store, SvcWatcher, ServiceChange, svc_key_comparable}
use repository.Store.Registry.{watch_service, close_service_watcher}
use repository.Server.Cluster.{DiscoverResponse}
use repository.Server.WatchInstances.{
  Phase, opening, announcing, listening, returned, Session, Stream, takes, fails, done, Turn,
  blocked, moves, turn, receive_change, receive_turn,
}

-- The stream's subscription.
abbrev pub id_of : Phase → Option Int64
id_of opening = none
id_of (announcing id snapshot) = some id
id_of (listening id) = some id
id_of (returned why) = none

-- What a turn does to another subscription.
pub record Leaves (id : Option Int64) (s s' : Store) : Type 0 where
  pub unique : IsUnique s.svc_watchers → IsUnique s'.svc_watchers
  pub seq : s.watcher_seq ≤ s'.watcher_seq
  pub instances : s'.instances ≡ s.instances
  pub others :
      (j : Int64) → j ≤ s.watcher_seq → id ≢ some j → find j s'.svc_watchers ≡ find j s.svc_watchers

Leaves-refl : (id : Option Int64) (s : Store) → Leaves id s s
Leaves-refl id s = record {
  unique = λ u. u;
  seq = omega arith;
  instances = refl;
  others = λ j old apart. refl;
}

Leaves-trans :
    (id : Option Int64) (s s₁ s₂ : Store) → Leaves id s s₁ → Leaves id s₁ s₂ → Leaves id s s₂
Leaves-trans id s s₁ s₂ a b = record {
  unique = λ u. b.unique (a.unique u);
  seq = omega (arith, a.seq, b.seq);
  instances = b.instances ∙ a.instances;
  others = λ j old apart. b.others j (omega (arith, a.seq, old)) apart ∙ a.others j old apart;
}

pub close-Leaves : (s : Store) (id : Int64) → Leaves (some id) s (close_service_watcher s id)
unfolding close_service_watcher
close-Leaves s id =
    elim (find id s.svc_watchers)
      as (λ o. Leaves (some id) s (elim o as (λ o. Store) [
        | none ↦ s
        | some w ↦ record s {
          svc_watchers = erase id s.svc_watchers;
          svc_closed = s.svc_closed ++ (id, w.ch) ∷ [];
        }
      ])) [
        | none ↦ Leaves-refl (some id) s
        | some w ↦ record {
          unique = λ u. IsUnique-erase id s.svc_watchers u;
          seq = omega arith;
          instances = refl;
          others = λ j old apart. find-erase_apart id j s.svc_watchers (λ e. apart (ap some e));
        }
      ]

open-Leaves :
    (clock : ℕ → Int64) (ns service : String) (s : Store)
    → s.watcher_seq + 1 < 2 ^ 63
    → Leaves none s (watch_service clock s ns service).1
unfolding watch_service
open-Leaves clock ns service s room = record {
  unique = λ u. IsUnique-store (Int64.add s.watcher_seq 1) _ s.svc_watchers u;
  seq = omega (arith, room);
  instances = refl;
  others = λ j old apart.
      find-store_apart (Int64.add s.watcher_seq 1) j _ s.svc_watchers
        (λ e. omega (arith, e, room, old));
}

abbrev pub Received : Int64 → Store → Option (Option ServiceChange × Store) → Type 0
Received id s none = Unit
Received id s (some (c, s')) = Leaves (some id) s s'

abbrev pub of_watcher : Store → Int64 → SvcWatcher → Option (Option ServiceChange × Store)
of_watcher s id w = elim w.ch [
  | [] ↦ none
  | c ∷ rest ↦
      some (some c, record s { svc_watchers = store id (record w { ch = rest }) s.svc_watchers })
]

abbrev pub of_closed : Store → Int64 → List ServiceChange → Option (Option ServiceChange × Store)
of_closed s id ch = elim ch [
  | [] ↦ some (none, s)
  | c ∷ rest ↦ some (some c, record s { svc_closed = store id rest s.svc_closed })
]

of_watcher-Received : (s : Store) (id : Int64) (w : SvcWatcher) → Received id s (of_watcher s id w)
of_watcher-Received s id w =
    elim w.ch
      as (λ ch. Received id s (elim ch as (λ ch. Option (Option ServiceChange × Store)) [
        | [] ↦ none
        | c ∷ rest ↦
            some
              (some c, record s { svc_watchers = store id (record w { ch = rest }) s.svc_watchers })
      ])) [
        | [] ↦ tt
        | c ∷ rest ↦ record {
          unique = λ u. IsUnique-store id _ s.svc_watchers u;
          seq = omega arith;
          instances = refl;
          others = λ j old apart. find-store_apart id j _ s.svc_watchers (λ e. apart (ap some e));
        }
      ]

of_closed-Received :
    (s : Store) (id : Int64) (ch : List ServiceChange) → Received id s (of_closed s id ch)
of_closed-Received s id [] = Leaves-refl (some id) s
of_closed-Received s id (c ∷ rest) = record {
  unique = λ u. u;
  seq = omega arith;
  instances = refl;
  others = λ j old apart. refl;
}

pub receive-Received : (s : Store) (id : Int64) → Received id s (receive_change s id)
unfolding receive_change
receive-Received s id =
    elim (find id s.svc_watchers)
      as (λ o. Received id s (elim o as (λ o. Option (Option ServiceChange × Store)) [
        | some w ↦ of_watcher s id w
        | none ↦ elim (find id s.svc_closed) as (λ o. Option (Option ServiceChange × Store)) [
          | none ↦ none
          | some ch ↦ of_closed s id ch
        ]
      ])) [
        | some w ↦ of_watcher-Received s id w
        | none ↦
            elim (find id s.svc_closed)
              as (λ o. Received id s (elim o as (λ o. Option (Option ServiceChange × Store)) [
                | none ↦ none
                | some ch ↦ of_closed s id ch
              ])) [ none ↦ tt | some ch ↦ of_closed-Received s id ch ]
      ]

abbrev pub Turned : Option Int64 → Store → Turn → Type 0
Turned id s blocked = Unit
Turned id s (moves s' x') = Leaves id s s'

receive_turn-Turned :
    (a : Stream) (s : Store) (x : Session) (id : Int64) (o : Option (Option ServiceChange × Store))
    → Received id s o
    → Turned (some id) s (receive_turn a x id o)
receive_turn-Turned a s x id none h = tt
receive_turn-Turned a s x id (some (none, s')) h =
    Leaves-trans (some id) s s' _ h (close-Leaves s' id)
receive_turn-Turned takes s x id (some (some c, s')) h = h
receive_turn-Turned done s x id (some (some c, s')) h = h
receive_turn-Turned fails s x id (some (some c, s')) h =
    Leaves-trans (some id) s s' _ h (close-Leaves s' id)

pub turn-Turned :
    (clock : ℕ → Int64) (ns service : String) (a : Stream) (s : Store)
    (sent : List DiscoverResponse) (phase : Phase)
    → s.watcher_seq + 1 < 2 ^ 63
    → Turned (id_of phase) s (turn clock ns service a s (record { sent = sent; phase = phase }))
unfolding turn
turn-Turned clock ns service a s sent opening room = open-Leaves clock ns service s room
turn-Turned clock ns service takes s sent (announcing id snapshot) room = Leaves-refl (some id) s
turn-Turned clock ns service done s sent (announcing id snapshot) room = Leaves-refl (some id) s
turn-Turned clock ns service fails s sent (announcing id snapshot) room = close-Leaves s id
turn-Turned clock ns service done s sent (listening id) room = close-Leaves s id
turn-Turned clock ns service takes s sent (listening id) room =
    receive_turn-Turned takes s (record { sent = sent; phase = listening id }) id
      (receive_change s id) (receive-Received s id)
turn-Turned clock ns service fails s sent (listening id) room =
    receive_turn-Turned fails s (record { sent = sent; phase = listening id }) id
      (receive_change s id) (receive-Received s id)
turn-Turned clock ns service a s sent (returned why) room = tt
