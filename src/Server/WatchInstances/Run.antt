-- ===== src/Server/WatchInstances/Run.antt =====
-- Every run of the watch of a service beside the replicated log and the other watches of services
-- (distconf/internal/server/registry.go: WatchInstances).
use repository.Base.{
  ℕ, ◌+◌, ◌^◌, ◌<◌, ◌≡◌, ◌≢◌, Bool, false, ◌||◌, String, List, [], ◌∷◌, some, if◌then◌else◌,
  nat_comparable, text_comparable,
}
use repository.Base.Int64.{Int64}
use repository.Proto.{Op}
use repository.Store.State.{Store, svc_key_comparable}
use repository.Repl.Applier.{Applied, apply_op}
use repository.Server.Cluster.{DiscoverResponse}
use repository.Server.WatchInstances.{Session, Stream, moves, turn}
use repository.Server.WatchInstances.Changes.{names}
use repository.Server.WatchInstances.Leaves.{id_of}

-- A turn of the watch, an entry of the log, or a turn of another watch with another subscription.
pub data Step (ns service : String) : Store → Session → Store → Session → Type 0 where
  turns :
      {s s' : Store} {x x' : Session} (clock : ℕ → Int64) (a : Stream)
      → s.watcher_seq + 1 < 2 ^ 63
      → turn clock ns service a s x ≡ moves s' x'
      → Step ns service s x s' x'
  applies :
      {s s' : Store} {x x' : Session} (now index : Int64) (op : Op) (r : Applied)
      → apply_op now s index op ≡ some (r, s')
      → x' ≡ x
      → Step ns service s x s' x'
  others :
      {s s' : Store} {x x' : Session} (clock : ℕ → Int64) (ns' service' : String) (a : Stream)
      (y y' : Session)
      → s.watcher_seq + 1 < 2 ^ 63
      → ((id : Int64) → id_of x.phase ≡ some id → id_of y.phase ≢ some id)
      → turn clock ns' service' a s y ≡ moves s' y'
      → x' ≡ x
      → Step ns service s x s' x'

pub data Reach (ns service : String) (s₀ : Store) (x₀ : Session) : Store → Session → Type 0 where
  here : {s : Store} {x : Session} → s ≡ s₀ → x ≡ x₀ → Reach ns service s₀ x₀ s x
  next :
      {s s' : Store} {x x' : Session}
      → Reach ns service s₀ x₀ s x
      → Step ns service s x s' x'
      → Reach ns service s₀ x₀ s' x'

-- Whether the responses so far list the instance.
abbrev pub after_response : String → Bool → DiscoverResponse → Bool
after_response iid b resp =
    if resp.incremental
    then (if names iid resp.removed then false else names iid resp.added || b)
    else names iid resp.instances

abbrev pub listed : String → List DiscoverResponse → Bool → Bool
listed iid [] b = b
listed iid (resp ∷ resps) b = listed iid resps (after_response iid b resp)
