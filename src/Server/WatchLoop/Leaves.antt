-- ===== src/Server/WatchLoop/Leaves.antt =====
-- What one receive or one removal leaves as it was for the other subscribers (watch.go: watchLoop).
use native.Mathlib.Decide.{dec_lt}
use repository.Base.{
  ◌+◌, ◌^◌, ◌≤◌, ◌<◌, ◌≡◌, ◌≢◌, refl, ap, ◌∙◌, false, String, List, [], ◌∷◌, Option, none, some,
  arith, ◌⊎◌, inl, inr, nat_comparable, if◌then◌else◌, ◌==◌, Option-cases,
}
use repository.Base.Int64.{Int64}
use repository.Base.Dict.{
  find, store, find-store, find-erase, IsUnique, IsUnique-store, IsUnique-erase,
}
use repository.Proto.{WatchEvent}
use repository.Store.Ring.{Event}
use repository.Store.State.{Store, KvWatcher}
use repository.Store.Watch.{subscribe, next_id, close_kv_watcher}
use repository.Store.Log.Emit.{Tracks-transfer}
use repository.Store.Feed.{IsAbsent, find-append}
use repository.Server.WatchLoop.{receive_event}
use repository.Server.WatchLoop.Pending.{Hub}

List-cases {ℓ} :
    {A : Type ℓ} (xs : List A) → (xs ≡ []) ⊎ ((x : A) × (rest : List A) × (xs ≡ x ∷ rest))
List-cases [] = inl refl
List-cases (x ∷ rest) = inr (x, rest, refl)

-- Nothing of an id changes.
pub record Leaves (id : Int64) (s s' : Store) : Type 0 where
  pub watchers : find id s'.kv_watchers ≡ find id s.kv_watchers
  pub closed : find id s'.kv_closed ≡ find id s.kv_closed

same_test : (i j : Int64) → i ≢ j → (i == j) ≡ false
same_test i j h = ground (arith, nat_comparable.agree_iff i j)

-- A store of the same history whose subscribers differ at one id, which was given out.
Hub-at :
    (s s' : Store) (log : List Event) (id : Int64)
    → Hub s log
    → s'.ring ≡ s.ring
    → s'.baseline_seq ≡ s.baseline_seq
    → s'.rev ≡ s.rev
    → s.watcher_seq ≤ s'.watcher_seq
    → id ≤ s'.watcher_seq
    → (IsUnique s.kv_watchers → IsUnique s'.kv_watchers)
    → ((j : Int64) → id ≢ j → Leaves j s s')
    → Hub s' log
Hub-at s s' log id h ring base rev up given unique leaves = record {
  tracked = Tracks-transfer s s' log _ _ ring base (omega (arith, rev)) h.tracked;
  small = omega (arith, rev, h.small);
  unique = unique h.unique;
  fresh = λ j above.
      let l = leaves j (λ (e : id ≡ j). omega (arith, e, above, given)) in
      let old = h.fresh j (omega (arith, up, above)) in (l.watchers ∙ old.0, l.closed ∙ old.1);
}

-- An id with a subscriber or a closed channel was given out.
pub given_out :
    (s : Store) (log : List Event) (id : Int64) → Hub s log → ¬ IsAbsent s id → id ≤ s.watcher_seq
given_out s log id h used = elim (dec_lt s.watcher_seq id) [
  | yes above ↦ absurd (used (h.fresh id above))
  | no below ↦ omega arith
]

-- The three ways to receive: from the open channel, from what a closed one still holds, and its end.
pub data Taken (s : Store) (id : Int64) (e : Option WatchEvent) (s' : Store) : Type 0 where
  from_open :
      (w : KvWatcher) (ev : WatchEvent) (rest : List WatchEvent)
      → find id s.kv_watchers ≡ some w
      → w.ch ≡ ev ∷ rest
      → e ≡ some ev
      → s' ≡ record s { kv_watchers = store id (record w { ch = rest }) s.kv_watchers }
      → Taken s id e s'
  from_shut :
      (ev : WatchEvent) (rest : List WatchEvent)
      → find id s.kv_watchers ≡ none
      → find id s.kv_closed ≡ some (ev ∷ rest)
      → e ≡ some ev
      → s' ≡ record s { kv_closed = store id rest s.kv_closed }
      → Taken s id e s'
  at_end :
      find id s.kv_watchers ≡ none
      → find id s.kv_closed ≡ some []
      → e ≡ none
      → s' ≡ s
      → Taken s id e s'

pub receive_event-Taken :
    (s : Store) (id : Int64) (e : Option WatchEvent) (s' : Store)
    → receive_event s id ≡ some (e, s')
    → Taken s id e s'
unfolding receive_event
receive_event-Taken s id e s' r = elim (Option-cases (find id s.kv_watchers)) [
  | inr (w, there) ↦ elim (List-cases w.ch) [
    | inl nothing ↦ absurd (ground arith)
    | inr (ev, rest, full) ↦ from_open w ev rest there full (ground arith) (ground arith)
  ]
  | inl absent ↦ elim (Option-cases (find id s.kv_closed)) [
    | inl never ↦ absurd (ground arith)
    | inr (ch, shut) ↦ elim (List-cases ch) [
      | inl nothing ↦ at_end absent (ground arith) (ground arith) (ground arith)
      | inr (ev, rest, full) ↦ from_shut ev rest absent (ground arith) (ground arith) (ground arith)
    ]
  ]
]

module _ (s : Store) (log : List Event) (h : Hub s log) where
  module _ (ns key : String) (room : s.watcher_seq + 1 < 2 ^ 63) where
    next : next_id s ≡ s.watcher_seq + 1
    next = omega (arith, room)

    pub subscribe-Leaves : (j : Int64) → next_id s ≢ j → Leaves j s (subscribe s ns key)
    subscribe-Leaves j other = record {
      watchers =
          find-store (next_id s) j (record { ns = ns; key = key; ch = [] }) s.kv_watchers
          ∙ ap
              (λ b.
                if b then some (record { ns = ns; key = key; ch = [] }) else find j s.kv_watchers)
              (same_test (next_id s) j other);
      closed = refl;
    }

    pub subscribe-Hub : Hub (subscribe s ns key) log
    subscribe-Hub =
        Hub-at s (subscribe s ns key) log (next_id s) h refl refl refl (omega (arith, next))
          (omega arith) (λ u. IsUnique-store (next_id s) _ s.kv_watchers u) subscribe-Leaves

  module _ (id : Int64) where
    pub close_kv_watcher-Leaves : (j : Int64) → id ≢ j → Leaves j s (close_kv_watcher s id)
    unfolding close_kv_watcher find
    close_kv_watcher-Leaves j other = elim (Option-cases (find id s.kv_watchers)) [
      | inl absent ↦ record { watchers = ground arith; closed = ground arith }
      | inr (w, there) ↦ record {
        watchers = ground (arith, find-erase id j s.kv_watchers, same_test id j other);
        closed = ground (
          arith,
          find-append j s.kv_closed ((id, w.ch) ∷ []),
          same_test id j other,
          Option-cases (find j s.kv_closed),
        );
      }
    ]

    pub close_kv_watcher-Hub : Hub (close_kv_watcher s id) log
    unfolding close_kv_watcher
    close_kv_watcher-Hub = elim (Option-cases (find id s.kv_watchers)) [
      | inl absent ↦ rw (absent, close_kv_watcher) h
      | inr (w, there) ↦
          Hub-at s (close_kv_watcher s id) log id h (ground arith) (ground arith) (ground arith)
            (ground arith) (ground (arith, given_out s log id h (λ a. cc)))
            (λ u. rw (there, close_kv_watcher) (IsUnique-erase id s.kv_watchers u))
            close_kv_watcher-Leaves
    ]

    module _ (e : Option WatchEvent) (s' : Store) (r : receive_event s id ≡ some (e, s')) where
      pub receive_event-Leaves : (j : Int64) → id ≢ j → Leaves j s s'
      receive_event-Leaves j other = elim (receive_event-Taken s id e s' r) [
        | from_open w ev rest there full out same ↦ rw same record {
          watchers = find-store id j _ s.kv_watchers ∙ rw (same_test id j other) refl;
          closed = refl;
        }
        | from_shut ev rest absent full out same ↦ rw same record {
          watchers = refl;
          closed = find-store id j rest s.kv_closed ∙ rw (same_test id j other) refl;
        }
        | at_end absent over out same ↦ rw same record { watchers = refl; closed = refl }
      ]

      pub receive_event-Hub : Hub s' log
      receive_event-Hub = elim (receive_event-Taken s id e s' r) [
        | from_open w ev rest there full out same ↦
            Hub-at s s' log id h (rw same refl) (rw same refl) (rw same refl)
              (rw same (omega arith)) (rw same (given_out s log id h (λ a. cc)))
              (λ u. rw same (IsUnique-store id _ s.kv_watchers u)) receive_event-Leaves
        | from_shut ev rest absent full out same ↦
            Hub-at s s' log id h (rw same refl) (rw same refl) (rw same refl)
              (rw same (omega arith)) (rw same (given_out s log id h (λ a. cc))) (λ u. rw same u)
              receive_event-Leaves
        | at_end absent over out same ↦ rw same h
      ]

-- A step at one id at most: the history and the ids given out before stay.
