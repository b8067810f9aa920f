-- ===== src/Server/WatchInstances/Changes.antt =====
-- What the log's entries do to the subscriber of a service (store.go: ApplyRegister, ApplyHeartbeat,
-- ApplyExpireServices, fanoutSvcLocked), against the instances that its responses list.
use mathlib.Core.Path.{subst}
use repository.Base.{
  eq_of_some-eq, ◌≡◌, ◌≢◌, refl, ap, sym, ◌∙◌, Bool, true, false, ◌&&◌, ◌||◌, String, List, [], ◌∷◌,
  ◌++◌, Option, none, some, length, ltb, arith, Bool-cases, inl, inr, if◌then◌else◌, ◌==◌,
  nat_comparable, text_comparable,
}
use repository.Base.Int64.{Int64}
use repository.Base.Dict.{Dict, find, store, erase, find-store, find-erase, IsUnique}
use repository.Proto.{Instance, ExpireService}
use repository.Store.State.{
  InstEntry, SvcKey, SvcWatcher, ServiceChange, svc_key_comparable, svc_key_beq_iff, inst_to_pb,
}
use repository.Store.Emit.{watcher_buffer}
use repository.Store.Registry.{
  filter_instances, is_empty, seen_by, fanout_watchers, expire_instances, service_key, guarded_inst,
}

-- Some instance of the list has the id.
abbrev pub names : String → List Instance → Bool
names iid [] = false
names iid (x ∷ xs) = x.instance_id == iid || names iid xs

-- Whether the instance is listed after some changes.
abbrev pub after_changes : String → List ServiceChange → Bool → Bool
after_changes iid [] listed = listed
after_changes iid (c ∷ cs) listed =
    after_changes iid cs (if names iid c.removed then false else names iid c.added || listed)

abbrev pub instance_key : String → String → String → SvcKey
instance_key ns service iid = record { ns = ns; service = service; id = iid }

after_changes-append :
    (iid : String) (cs ds : List ServiceChange) (b : Bool)
    → after_changes iid (cs ++ ds) b ≡ after_changes iid ds (after_changes iid cs b)
after_changes-append iid [] ds b = refl
after_changes-append iid (c ∷ cs) ds b = after_changes-append iid cs ds _

-- A subscriber whose responses, with the changes that wait, list registered instances only.
pub record Lists (ns service : String) (view : String → Bool) (m : Dict SvcKey InstEntry)
    (w : SvcWatcher) : Type 0 where
  pub of_ns : w.ns ≡ ns
  pub of_service_name : w.service ≡ service
  pub registered :
      (iid : String)
      → after_changes iid w.ch (view iid) ≡ true
      → find (instance_key ns service iid) m ≢ none

-- What becomes of one subscriber by a change.
pub delivered : ServiceChange → SvcWatcher → Option SvcWatcher
delivered c w =
    if is_empty (seen_by w c).added && is_empty (seen_by w c).removed
    then some w
    else if ltb (length w.ch) watcher_buffer
    then some (record w { ch = w.ch ++ seen_by w c ∷ [] })
    else none

pub find-fanout_watchers-none :
    (c : ServiceChange) (ws : Dict Int64 SvcWatcher) (id : Int64)
    → find id ws ≡ none
    → find id (fanout_watchers c ws).0 ≡ none
unfolding fanout_watchers find
find-fanout_watchers-none c [] id h = refl
find-fanout_watchers-none c ((j, w) ∷ ws) id h =
    ground (arith, nat_comparable.agree_iff j id, find-fanout_watchers-none c ws id)

pub find-fanout_watchers-some :
    (c : ServiceChange) (ws : Dict Int64 SvcWatcher) (id : Int64) (w : SvcWatcher)
    → IsUnique ws
    → find id ws ≡ some w
    → find id (fanout_watchers c ws).0 ≡ delivered c w
unfolding fanout_watchers find delivered
find-fanout_watchers-some c [] id w u h = cc
find-fanout_watchers-some c ((j, x) ∷ ws) id w u h = ground (
  arith,
  nat_comparable.agree_iff j id,
  find-fanout_watchers-none c ws id,
  find-fanout_watchers-none c ws j,
  find-fanout_watchers-some c ws id w u.1,
)

pub IsUnique-fanout_watchers :
    (c : ServiceChange) (ws : Dict Int64 SvcWatcher)
    → IsUnique ws
    → IsUnique (fanout_watchers c ws).0
unfolding fanout_watchers
IsUnique-fanout_watchers c [] u = tt
IsUnique-fanout_watchers c ((j, w) ∷ ws) u =
    ground (arith, find-fanout_watchers-none c ws j u.0, IsUnique-fanout_watchers c ws u.1)

-- A change that accounts for the difference of two maps.
abbrev pub Tells :
    String → String → Dict SvcKey InstEntry → ServiceChange → Dict SvcKey InstEntry → Type 0
Tells ns service m c m' =
    (iid : String)
    → (names iid (filter_instances ns service c.removed) ≡ false
        → find (instance_key ns service iid) m ≢ none
        → find (instance_key ns service iid) m' ≢ none)
      × (names iid (filter_instances ns service c.added) ≡ true
          → find (instance_key ns service iid) m' ≢ none)

pub names-empty : (iid : String) (xs : List Instance) → is_empty xs ≡ true → names iid xs ≡ false
names-empty iid [] h = refl
names-empty iid (x ∷ xs) h = cc

both-true : (a b : Bool) → (a && b) ≡ true → (a ≡ true) × (b ≡ true)
both-true a b h = ground arith

module _ (ns service : String) (view : String → Bool) (m m' : Dict SvcKey InstEntry)
    (c : ServiceChange) (t : Tells ns service m c m') where
  told : ServiceChange
  told = record {
    added = filter_instances ns service c.added;
    removed = filter_instances ns service c.removed;
  }

  unread-Lists :
      (w : SvcWatcher)
      → is_empty told.removed ≡ true
      → Lists ns service view m w
      → Lists ns service view m' w
  unfolding told
  unread-Lists w none_gone h = record {
    of_ns = h.of_ns;
    of_service_name = h.of_service_name;
    registered = λ iid e. (t iid).0 (names-empty iid told.removed none_gone) (h.registered iid e);
  }

  step-registered :
      (iid : String) (b : Bool)
      → (b ≡ true → find (instance_key ns service iid) m ≢ none)
      → (if names iid told.removed then false else names iid told.added || b) ≡ true
      → find (instance_key ns service iid) m' ≢ none
  unfolding told
  step-registered iid b before e = elim (Bool-cases (names iid told.removed)) [
    | inl gone ↦ absurd (ground (arith, gone, e))
    | inr stays ↦ elim (Bool-cases (names iid told.added)) [
      | inl new ↦ (t iid).1 new
      | inr old ↦ (t iid).0 stays (before (ground (arith, stays, old, e)))
    ]
  ]

  told-Lists :
      (w : SvcWatcher)
      → Lists ns service view m w
      → Lists ns service view m' (record w { ch = w.ch ++ told ∷ [] })
  told-Lists w h = record {
    of_ns = h.of_ns;
    of_service_name = h.of_service_name;
    registered = λ iid e.
        step-registered iid (after_changes iid w.ch (view iid)) (h.registered iid)
          (sym (after_changes-append iid w.ch (told ∷ []) (view iid)) ∙ e);
  }

  seen_by-told : (w : SvcWatcher) → w.ns ≡ ns → w.service ≡ service → seen_by w c ≡ told
  unfolding told
  seen_by-told w a b = rw (a, b) refl

  pub delivered-Lists :
      (w w' : SvcWatcher)
      → Lists ns service view m w
      → delivered c w ≡ some w'
      → Lists ns service view m' w'
  unfolding delivered
  delivered-Lists w w' h e =
      let same = seen_by-told w h.of_ns h.of_service_name in
      elim (Bool-cases (is_empty (seen_by w c).added && is_empty (seen_by w c).removed)) [
        | inl unread ↦
            let none_gone : is_empty told.removed ≡ true =
              ap (λ d. is_empty d.removed) (sym same) ∙ (both-true _ _ unread).1 in
            subst (Lists ns service view m') (eq_of_some-eq (ground (arith, unread, e)))
              (unread-Lists w none_gone h)
        | inr reads ↦ elim (Bool-cases (ltb (length w.ch) watcher_buffer)) [
          | inl room ↦
              subst (Lists ns service view m') (eq_of_some-eq (ground (arith, reads, room, e))) (
                subst (λ d. Lists ns service view m' (record w { ch = w.ch ++ d ∷ [] })) (sym same)
                  (told-Lists w h))
          | inr full ↦ absurd (ground (arith, reads, full, e))
        ]
      ]

pub find-store_kept :
    (k j : SvcKey) (e : InstEntry) (m : Dict SvcKey InstEntry)
    → find j m ≢ none
    → find j (store k e m) ≢ none
find-store_kept k j e m h = ground (arith, find-store k j e m)

pub find-store_key :
    (k j : SvcKey) (e : InstEntry) (m : Dict SvcKey InstEntry) → k ≡ j → find j (store k e m) ≢ none
find-store_key k j e m h = ground (arith, find-store k j e m, svc_key_beq_iff k j)

-- An instance that a list names for the service has its key.
pub names-one :
    (ns service iid : String) (x : Instance)
    → names iid (filter_instances ns service (x ∷ [])) ≡ true
    → instance_key x.namespace x.service x.instance_id ≡ instance_key ns service iid
unfolding filter_instances
names-one ns service iid x h = ground (
  arith,
  text_comparable.agree_iff x.namespace ns,
  text_comparable.agree_iff x.service service,
  text_comparable.agree_iff x.instance_id iid,
)

names-cons :
    (ns service iid : String) (x : Instance) (xs : List Instance)
    → names iid (filter_instances ns service (x ∷ xs)) ≡ false
    → (names iid (filter_instances ns service xs) ≡ false)
      × (instance_key x.namespace x.service x.instance_id ≢ instance_key ns service iid)
unfolding filter_instances
names-cons ns service iid x xs h = (
  ground (arith, x.namespace == ns, x.service == service),
  λ e.
      let a = (text_comparable.agree_iff x.namespace ns).1 (ap (λ k. k.ns) e) in
      let b = (text_comparable.agree_iff x.service service).1 (ap (λ k. k.service) e) in
      let c = (text_comparable.agree_iff x.instance_id iid).1 (ap (λ k. k.id) e) in
      ground (arith, a, b, c),
)

find-erase_kept :
    (k j : SvcKey) (m : Dict SvcKey InstEntry) → k ≢ j → find j m ≢ none → find j (erase k m) ≢ none
find-erase_kept k j m apart h = ground (arith, find-erase k j m, svc_key_beq_iff k j)

-- A batch lists what it removes.
module _ (ns service iid : String) where
  abbrev pub Listed : Dict SvcKey InstEntry × List Instance → Type 0
  Listed q =
      names iid (filter_instances ns service q.1) ≡ false
      → find (instance_key ns service iid) q.0 ≢ none

  abbrev with_inst :
      InstEntry
      → Int64
      → ExpireService
      → Dict SvcKey InstEntry × List Instance
      → Dict SvcKey InstEntry × List Instance
  with_inst e index item (m, removed) = (
    m,
    record (inst_to_pb item.namespace item.service item.instance_id e) { revision = index }
        ∷ removed,
  )

  with_inst-Listed :
      (e : InstEntry) (index : Int64) (item : ExpireService)
      (q : Dict SvcKey InstEntry × List Instance)
      → (service_key item ≢ instance_key ns service iid → Listed q)
      → Listed (with_inst e index item q)
  unfolding inst_to_pb
  with_inst-Listed e index item (m, removed) h u =
      let (rest, apart) =
        names-cons ns service iid
          (record (inst_to_pb item.namespace item.service item.instance_id e) { revision = index })
          removed u in
      h apart rest

  pub expire_instances-Listed :
      (items : List ExpireService) (index : Int64) (m : Dict SvcKey InstEntry)
      → find (instance_key ns service iid) m ≢ none
      → Listed (expire_instances index m items)
  unfolding expire_instances
  expire_instances-Listed [] index m there = λ u. there
  expire_instances-Listed (item ∷ items) index m there =
      elim (guarded_inst item.guard_revision (find (service_key item) m))
        as (λ o. Listed (elim o as (λ o. Dict SvcKey InstEntry × List Instance) [
          | none ↦ expire_instances index m items
          | some e ↦
              with_inst e index item (expire_instances index (erase (service_key item) m) items)
        ])) [
          | none ↦ expire_instances-Listed items index m there
          | some e ↦ with_inst-Listed e index item _ (λ apart.
              expire_instances-Listed items index (erase (service_key item) m)
                (find-erase_kept _ _ m apart there))
        ]
