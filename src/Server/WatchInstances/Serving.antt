-- ===== src/Server/WatchInstances/Serving.antt =====
-- What the turns of a watch of a service tell its client (registry.go: WatchInstances; store.go:
-- WatchService, discoverLocked).
use mathlib.Core.Path.{subst}
use repository.Base.{
  eq_of_some-eq, ℕ, suc, ◌+◌, ◌^◌, ◌≤◌, ◌<◌, ◌≡◌, ◌≢◌, refl, ap, sym, ◌∙◌, Bool, true, false, ◌&&◌,
  String, List, [], ◌∷◌, ◌++◌, Option, none, some, arith, Bool-cases, inl, inr, if◌then◌else◌, ◌==◌,
  nat_comparable, text_comparable,
}
use repository.Base.Int64.{Int64}
use repository.Base.Int64
use repository.Base.Dict.{Dict, find, store, find-store, IsUnique, IsUnique-store, agree_refl}
use repository.Proto.{Instance}
use repository.Store.State.{
  Store, InstEntry, SvcKey, SvcWatcher, ServiceChange, svc_key_comparable, svc_key_beq, inst_to_pb,
}
use repository.Store.Registry.{watch_service, discover, discover_from}
use repository.Server.Cluster.{DiscoverResponse}
use repository.Server.WatchInstances.{
  Ending, Phase, opening, announcing, listening, returned, Stream, takes, fails, done, Turn,
  blocked, moves, turn, receive_change, open_turn, receive_turn, snapshot_response, change_response,
}
use repository.Server.WatchInstances.Changes.{Lists, instance_key, names, after_changes}
use repository.Server.WatchInstances.Leaves.{
  id_of, of_watcher, of_closed, Received, receive-Received, close-Leaves,
}
use repository.Server.WatchInstances.Run.{listed, after_response}

listed-append :
    (iid : String) (xs : List DiscoverResponse) (resp : DiscoverResponse) (b : Bool)
    → listed iid (xs ++ resp ∷ []) b ≡ after_response iid (listed iid xs b) resp
listed-append iid [] resp b = refl
listed-append iid (x ∷ xs) resp b = listed-append iid xs resp (after_response iid b x)

-- What the responses list, with the snapshot that is still to be sent.
abbrev pub view_of : List DiscoverResponse → Phase → String → Bool
view_of sent opening iid = listed iid sent false
view_of sent (announcing id snapshot) iid = names iid snapshot
view_of sent (listening id) iid = listed iid sent false
view_of sent (returned why) iid = listed iid sent false

pub record Serving (ns service : String) (s : Store) (sent : List DiscoverResponse) (phase : Phase)
    : Type 0 where
  pub unique : IsUnique s.svc_watchers
  pub given : (id : Int64) → id_of phase ≡ some id → id ≤ s.watcher_seq
  pub lists :
      (id : Int64) (w : SvcWatcher)
      → id_of phase ≡ some id
      → find id s.svc_watchers ≡ some w
      → Lists ns service (view_of sent phase) s.instances w

Lists-view :
    (ns service : String) (view view' : String → Bool) (m : Dict SvcKey InstEntry) (w : SvcWatcher)
    → ((iid : String) → view' iid ≡ view iid)
    → Lists ns service view m w
    → Lists ns service view' m w
Lists-view ns service view view' m w same l = record {
  of_ns = l.of_ns;
  of_service_name = l.of_service_name;
  registered = λ iid e. l.registered iid (ap (after_changes iid w.ch) (sym (same iid)) ∙ e);
}

-- A snapshot lists registered instances.
discover_from-names :
    (ns service iid : String) (m : Dict SvcKey InstEntry) (clock : ℕ → Int64) (i : ℕ)
    → names iid (discover_from clock i ns service m) ≡ true
    → find (instance_key ns service iid) m ≢ none
unfolding discover_from inst_to_pb find
discover_from-names ns service iid [] clock i h = cc
discover_from-names ns service iid ((k, e) ∷ m) clock i h =
    elim (Bool-cases (svc_key_beq k (instance_key ns service iid))) [
      | inl same ↦ ground (arith, same)
      | inr other ↦
          let mine = k.ns == ns && k.service == service in
          let below = discover_from-names ns service iid m clock (if mine then suc i else i) in
          ground (arith, other, h, below)
    ]

stored_own :
    (id : Int64) (v w : SvcWatcher) (ws : Dict Int64 SvcWatcher)
    → find id (store id v ws) ≡ some w
    → v ≡ w
stored_own id v w ws h = ground (arith, find-store id id v ws, agree_refl id, h)

pub unheld-Serving :
    (ns service : String) (s : Store) (sent : List DiscoverResponse) (phase : Phase)
    → id_of phase ≡ none
    → IsUnique s.svc_watchers
    → Serving ns service s sent phase
unheld-Serving ns service s sent phase h u = record {
  unique = u;
  given = λ id e. cc;
  lists = λ id w e there. cc;
}

abbrev pub Spoken : String → String → Turn → Type 0
Spoken ns service blocked = Unit
Spoken ns service (moves s x) = Serving ns service s x.sent x.phase

module _ (ns service : String) (s : Store) (sent : List DiscoverResponse) where
  open_turn-Serving :
      (clock : ℕ → Int64)
      → s.watcher_seq + 1 < 2 ^ 63
      → Serving ns service s sent opening
      → Spoken ns service (open_turn clock ns service s (record { sent = sent; phase = opening }))
  unfolding watch_service discover
  open_turn-Serving clock room h =
      let id = Int64.add s.watcher_seq 1 in
      record {
        unique = IsUnique-store id _ s.svc_watchers h.unique;
        given = λ j e. omega (arith, eq_of_some-eq e);
        lists = λ j w e there.
            subst (Lists ns service (λ iid. names iid (discover clock s ns service)) s.instances)
              (stored_own id (record { ns = ns; service = service; ch = [] }) w s.svc_watchers
                (ap
                    (λ i.
                      find i
                        (store id (record { ns = ns; service = service; ch = [] }) s.svc_watchers))
                    (eq_of_some-eq e)
                  ∙ there))
              (record {
                of_ns = refl;
                of_service_name = refl;
                registered = λ iid n. discover_from-names ns service iid s.instances clock 0 n;
              });
      }

  -- The snapshot is sent.
  announced-Serving :
      (id : Int64) (snapshot : List Instance)
      → Serving ns service s sent (announcing id snapshot)
      → Serving ns service s (sent ++ snapshot_response s snapshot ∷ []) (listening id)
  announced-Serving id snapshot h = record {
    unique = h.unique;
    given = h.given;
    lists = λ j w e there.
        Lists-view ns service (λ iid. names iid snapshot) _ s.instances w
          (λ iid. listed-append iid sent (snapshot_response s snapshot) false)
          (h.lists j w e there);
  }

  -- A change is received from the subscription's channel and sent.
  received-Serving :
      (id : Int64) (w : SvcWatcher) (c : ServiceChange) (rest : List ServiceChange)
      → Serving ns service s sent (listening id)
      → find id s.svc_watchers ≡ some w
      → w.ch ≡ c ∷ rest
      → Serving ns service
          (record s { svc_watchers = store id (record w { ch = rest }) s.svc_watchers })
          (sent ++ change_response s c ∷ [])
          (listening id)
  received-Serving id w c rest h there waits = record {
    unique = IsUnique-store id _ s.svc_watchers h.unique;
    given = h.given;
    lists = λ j w' e found.
        subst
          (Lists ns service (λ iid. listed iid (sent ++ change_response s c ∷ []) false)
            s.instances)
          (stored_own id (record w { ch = rest }) w' s.svc_watchers
            (ap (λ i. find i (store id (record w { ch = rest }) s.svc_watchers)) (eq_of_some-eq e)
              ∙ found))
          (record {
            of_ns = (h.lists id w refl there).of_ns;
            of_service_name = (h.lists id w refl there).of_service_name;
            registered = λ iid n. (h.lists id w refl there).registered iid (
                ap (λ ch. after_changes iid ch (listed iid sent false)) waits
                ∙ ap (after_changes iid rest)
                    (sym (listed-append iid sent (change_response s c) false))
                ∙ n);
          });
  }

  -- A change is received from a channel that was closed.
  drained-Serving :
      (id : Int64) (c : ServiceChange) (closed : List (Int64 × List ServiceChange))
      → Serving ns service s sent (listening id)
      → find id s.svc_watchers ≡ none
      → Serving ns service
          (record s { svc_closed = closed })
          (sent ++ change_response s c ∷ [])
          (listening id)
  drained-Serving id c closed h gone = record {
    unique = h.unique;
    given = h.given;
    lists = λ j w e found. cc (gone, eq_of_some-eq e, found);
  }

  fails-Serving :
      (id : Int64) (o : Option (Option ServiceChange × Store))
      → IsUnique s.svc_watchers
      → Received id s o
      → Spoken ns service (receive_turn fails (record { sent = sent; phase = listening id }) id o)
  fails-Serving id none u r = tt
  fails-Serving id (some (none, s')) u r =
      unheld-Serving ns service _ sent opening refl ((close-Leaves s' id).unique (r.unique u))
  fails-Serving id (some (some c, s')) u r =
      unheld-Serving ns service _ sent (returned Ending.send_failed) refl
        ((close-Leaves s' id).unique (r.unique u))

  of_watcher-Serving :
      (id : Int64) (w : SvcWatcher)
      → Serving ns service s sent (listening id)
      → find id s.svc_watchers ≡ some w
      → Spoken ns service
          (receive_turn takes (record { sent = sent; phase = listening id }) id (of_watcher s id w))
  of_watcher-Serving id w h there =
      elim w.ch
          as (λ ch.
            w.ch ≡ ch
            → Spoken ns service (
                receive_turn takes (record { sent = sent; phase = listening id }) id
                  (elim ch as (λ ch. Option (Option ServiceChange × Store)) [
                    | [] ↦ none
                    | c ∷ rest ↦ some (
                      some c,
                      record s { svc_watchers = store id (record w { ch = rest }) s.svc_watchers },
                    )
                  ]))) [ [] ↦ (λ e. tt) | c ∷ rest ↦ (λ e. received-Serving id w c rest h there e) ]
        refl

  of_closed-Serving :
      (id : Int64) (ch : List ServiceChange)
      → Serving ns service s sent (listening id)
      → find id s.svc_watchers ≡ none
      → Spoken ns service
          (receive_turn takes (record { sent = sent; phase = listening id }) id (of_closed s id ch))
  of_closed-Serving id [] h gone =
      unheld-Serving ns service _ sent opening refl ((close-Leaves s id).unique h.unique)
  of_closed-Serving id (c ∷ rest) h gone = drained-Serving id c (store id rest s.svc_closed) h gone

  takes-Serving :
      (id : Int64)
      → Serving ns service s sent (listening id)
      → Spoken ns service (
          receive_turn takes
            (record { sent = sent; phase = listening id })
            id
            (receive_change s id))
  unfolding receive_change
  takes-Serving id h =
      elim (find id s.svc_watchers)
          as (λ o.
            find id s.svc_watchers ≡ o
            → Spoken ns service (
                receive_turn takes (record { sent = sent; phase = listening id }) id
                  (elim o as (λ o. Option (Option ServiceChange × Store)) [
                    | some w ↦ of_watcher s id w
                    | none ↦
                        elim (find id s.svc_closed)
                          as (λ o. Option (Option ServiceChange × Store)) [
                            | none ↦ none
                            | some ch ↦ of_closed s id ch
                          ]
                  ]))) [
                    | some w ↦ (λ e. of_watcher-Serving id w h e)
                    | none ↦ (λ e.
                        elim (find id s.svc_closed)
                          as (λ o. Spoken ns service (
                            receive_turn takes (record { sent = sent; phase = listening id }) id
                              (elim o as (λ o. Option (Option ServiceChange × Store)) [
                                | none ↦ none
                                | some ch ↦ of_closed s id ch
                              ]))) [ none ↦ tt | some ch ↦ of_closed-Serving id ch h e ])
                  ]
        refl

  pub turn-Serving :
      (clock : ℕ → Int64) (a : Stream) (phase : Phase)
      → s.watcher_seq + 1 < 2 ^ 63
      → Serving ns service s sent phase
      → Spoken ns service (turn clock ns service a s (record { sent = sent; phase = phase }))
  unfolding turn
  turn-Serving clock a opening room h = open_turn-Serving clock room h
  turn-Serving clock takes (announcing id snapshot) room h = announced-Serving id snapshot h
  turn-Serving clock done (announcing id snapshot) room h = announced-Serving id snapshot h
  turn-Serving clock fails (announcing id snapshot) room h =
      unheld-Serving ns service _ sent (returned Ending.send_failed) refl
        ((close-Leaves s id).unique h.unique)
  turn-Serving clock done (listening id) room h =
      unheld-Serving ns service _ sent (returned Ending.canceled) refl
        ((close-Leaves s id).unique h.unique)
  turn-Serving clock takes (listening id) room h = takes-Serving id h
  turn-Serving clock fails (listening id) room h =
      fails-Serving id (receive_change s id) h.unique (receive-Received s id)
  turn-Serving clock a (returned why) room h = tt
