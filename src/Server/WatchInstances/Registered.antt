-- ===== src/Server/WatchInstances/Registered.antt =====
-- What a client of a watch of a service may rely on (registry.go: WatchInstances).
use mathlib.Core.Path.{subst}
use repository.Base.{
  ◌≡◌, ◌≢◌, refl, ap, sym, ◌∙◌, true, false, String, [], none, some, arith, nat_comparable,
  text_comparable,
}
use repository.Base.Int64.{Int64}
use repository.Base.Dict.{find, IsUnique}
use repository.Store.State.{Store, SvcWatcher, svc_key_comparable}
use repository.Server.WatchInstances.{opening, listening, Session, start}
use repository.Server.WatchInstances.Changes.{Lists, instance_key, after_changes}
use repository.Server.WatchInstances.Applies.{apply_op-Serves}
use repository.Server.WatchInstances.Leaves.{id_of, Turned, turn-Turned}
use repository.Server.WatchInstances.Run.{Step, turns, applies, others, Reach, here, next, listed}
use repository.Server.WatchInstances.Serving.{
  Serving, view_of, unheld-Serving, Spoken, turn-Serving,
}

Step-Serving :
    (ns service : String) {s s' : Store} {x x' : Session}
    → Step ns service s x s' x'
    → Serving ns service s x.sent x.phase
    → Serving ns service s' x'.sent x'.phase
Step-Serving ns service {s} {s'} {x} {x'} (turns clock a room e) h =
    subst (Spoken ns service) e (turn-Serving ns service s x.sent clock a x.phase room h)
Step-Serving ns service {s} {s'} {x} {x'} (applies now index op r e same) h =
    let v = apply_op-Serves now index s s' op r e in
    subst (λ y. Serving ns service s' y.sent y.phase) (sym same)
      (record {
        unique = v.unique h.unique;
        given = λ id held. omega (arith, v.seq, h.given id held);
        lists = λ id w held there.
            v.lists ns service (view_of x.sent x.phase) id w h.unique
              (λ w₀ found. h.lists id w₀ held found) there;
      })
Step-Serving ns service {s} {s'} {x} {x'} (others clock ns' service' a y y' room apart e same) h =
    let l =
      subst (Turned (id_of y.phase) s) e (turn-Turned clock ns' service' a s y.sent y.phase room) in
    subst (λ y. Serving ns service s' y.sent y.phase) (sym same)
      (record {
        unique = l.unique h.unique;
        given = λ id held. omega (arith, l.seq, h.given id held);
        lists = λ id w held there.
            subst (λ m. Lists ns service (view_of x.sent x.phase) m w) (sym l.instances)
              (h.lists id w held (sym (l.others id (h.given id held) (apart id held)) ∙ there));
      })

Reach-Serving :
    (ns service : String) {s₀ s : Store} {x : Session}
    → IsUnique s₀.svc_watchers
    → Reach ns service s₀ start s x
    → Serving ns service s x.sent x.phase
Reach-Serving ns service {s₀} {s} {x} u (here a b) =
    subst (λ y. Serving ns service s y.sent y.phase) (sym b)
      (unheld-Serving ns service s [] opening refl (rw a u))
Reach-Serving ns service u (next r st) = Step-Serving ns service st (Reach-Serving ns service u r)

-- In every run of a watch of a service beside the log and other watches, every instance that the
-- responses list is registered, as long as the stream is subscribed and nothing waits in its channel.
pub turn-registered :
    (ns service : String) {s₀ s : Store} {x : Session} (id : Int64) (w : SvcWatcher) (iid : String)
    → IsUnique s₀.svc_watchers
    → Reach ns service s₀ start s x
    → x.phase ≡ listening id
    → find id s.svc_watchers ≡ some w
    → w.ch ≡ []
    → listed iid x.sent false ≡ true
    → find (instance_key ns service iid) s.instances ≢ none
turn-registered ns service {s} {x} id w iid u r phase there empty h =
    let v = subst (Serving ns service s x.sent) phase (Reach-Serving ns service u r) in
    (v.lists id w refl there).registered iid
      (ap (λ ch. after_changes iid ch (listed iid x.sent false)) empty ∙ h)
