-- ===== src/Repl/Follower/Runner/Based.antt =====
-- A follower over any number of connections (distconf/internal/repl/follower.go: Run;
-- stream.go: ApplyStream).
use mathlib.Core.Path.{subst}
use repository.Base.{
  ℕ, zero, suc, ◌+◌, ◌-◌, ◌^◌, ◌≤◌, ◌<◌, ◌≡◌, ◌≢◌, refl, ap, sym, ◌∙◌, Bool, true, false, not, List,
  [], ◌∷◌, Option, none, some, length, get_elem?, get_elem?-drop, take, take-suc, drop, All, arith,
  ◌⊎◌, inl, inr, Option-cases, Bool-cases, if◌then◌else◌, ◌==◌, nat_comparable,
}
use repository.Base.Int64.{Int64}
use repository.Base.Int64
use repository.Proto.{
  LogEntry, Payload, unset, snapshot, entry, PbSnapshot, empty, AppendEntriesResponse,
}
use repository.Store.State.{Store, new, MapKey, map_key_comparable}
use repository.Store.Snapshot.{
  export_snapshot, snapshot_to_proto, restore_snapshot, snapshot_from_proto,
}
use repository.Repl.Applier.{apply_one, apply_snapshot, replay}
use repository.Repl.Keys.{replay-IsUnique}
use repository.Repl.Commit.Saved.{Exported}
use repository.Repl.Commit.Prefix.{Indexed}
use repository.Repl.Follower.Stream.{AreSet}
use repository.Repl.Follower.Converges.{rev-replay}
use repository.Store.Snapshot.Restore.{transfer, transfer-keys}
use repository.Base.Dict.{find}
use repository.Repl.Replay.{replay-nil}
use repository.Repl.Advance.{rev-apply_op}
use repository.Repl.Commit.Prefix.{replay-append, replay-append_fault}
use repository.Repl.Follower.{
  Received, acknowledged, duplicate, broken, panicked, received, state_of, receive, receive_all,
  apply_stream, ack, StreamError,
}
use repository.Repl.Follower.Runner.{FollowerRunner, Connection, fails_to_open, streams, once, run}

-- A message that a leader with these entries may send: an entry under its own index, or what the
-- exporter gives for the replay of a first part of the entries.
abbrev pub Genuine : (Int64 → Int64) → (Store → PbSnapshot) → List LogEntry → Payload → Type 0
Genuine led f entries unset = ⊥
Genuine led f entries (snapshot snap) = Exported led f entries snap
Genuine led f entries (entry e) =
    (k : ℕ) × (e.index ≡ k + 1) × (get_elem? entries k ≡ some e) × (e.op ≢ empty)

-- The snapshot of a store, as a leader sends it.
abbrev pub shown : Store → PbSnapshot
shown u = snapshot_to_proto (export_snapshot u)

-- A store that was restored from the snapshot of the leader's state at its own applied index, and has
-- that state's entry at each key.
pub record Restored (led : Int64 → Int64) (entries : List LogEntry) (b : Store) : Type 0 where
  pub source : Store
  pub replayed : replay led new (take b.rev entries) ≡ some source
  pub within : b.rev ≤ length entries
  pub keys : (j : MapKey) → find j b.kvs ≡ find j source.kvs
  pub before : Store
  pub taken : b ≡ apply_snapshot before (shown source)

-- An empty store, or one that such a snapshot was restored to.
abbrev pub IsBase : (Int64 → Int64) → List LogEntry → Store → Type 0
IsBase led entries b = (b ≡ new) ⊎ Restored led entries b

-- A store that is the replay of consecutive entries on such a base, from the base's index on up to its
-- own.
pub record Based (led clock : Int64 → Int64) (entries : List LogEntry) (s : Store) : Type 0 where
  pub base : Store
  pub is_base : IsBase led entries base
  pub count : ℕ
  pub replayed : replay clock base (take count (drop base.rev entries)) ≡ some s
  pub counted : s.rev ≡ base.rev + count
  pub within : s.rev ≤ length entries

-- A run of consecutive entries on a base that the state machine panics at.
pub record Faults (led clock : Int64 → Int64) (entries : List LogEntry) : Type 0 where
  pub base : Store
  pub is_base : IsBase led entries base
  pub count : ℕ
  pub fault : replay clock base (take count (drop base.rev entries)) ≡ none

get_elem?-bound {ℓ} :
    {A : Type ℓ} (xs : List A) (k : ℕ) (a : A) → get_elem? xs k ≡ some a → k < length xs
get_elem?-bound [] k a h = cc
get_elem?-bound (x ∷ xs) zero a h = omega arith
get_elem?-bound (x ∷ xs) (suc k) a h = omega (arith, get_elem?-bound xs k a h)

abbrev any_key : MapKey
any_key = record { ns = ""; key = "" }

module _ (led clock : Int64 → Int64) (entries : List LogEntry) (few : length entries < 2 ^ 50)
    (numbered : Indexed 0 entries) (set : AreSet entries) where
  abbrev Fine : Store → Received → Type 0
  Fine s panicked = Faults led clock entries
  Fine s duplicate = Unit
  Fine s (broken e) = Unit
  Fine s (acknowledged s') = Based led clock entries s' × (s.rev ≤ s'.rev)

  -- The next entry, applied.
  applied-Fine :
      (s : Store) (e : LogEntry) (k : ℕ)
      → Based led clock entries s
      → e.index ≡ k + 1
      → get_elem? entries k ≡ some e
      → e.op ≢ empty
      → e.index ≡ Int64.add s.rev 1
      → Fine s (received (state_of (apply_one (clock e.index) s e)))
  applied-Fine s e k b index there filled next =
      let bound = get_elem?-bound entries k e there in
      let at : s.rev ≡ k = omega (arith, b.within, bound, few, index, next) in
      let window : get_elem? (drop b.base.rev entries) b.count ≡ some e =
        ap (get_elem? (drop b.base.rev entries)) {x = b.count} {y = k - b.base.rev}
          (omega (arith, b.counted, at))
        ∙ get_elem?-drop b.base.rev k entries (omega (arith, b.counted, at))
        ∙ there in
      let longer = take-suc b.count (drop b.base.rev entries) e window in
      elim (Option-cases (apply_one (clock e.index) s e)) [
        | inl fault ↦
            subst (λ o. Fine s (received (state_of o))) (sym fault)
              (record {
                base = b.base;
                is_base = b.is_base;
                count = suc b.count;
                fault =
                    ap (replay clock b.base) longer
                    ∙ replay-append_fault clock _ b.base s e b.replayed fault;
              })
        | inr ((r, s'), h) ↦
            let up : s'.rev ≡ k + 1 =
              rev-apply_op (clock e.index) s e.index e.op r s' filled h ∙ index in
            subst (λ o. Fine s (received (state_of o))) (sym h)
              (
                record {
                  base = b.base;
                  is_base = b.is_base;
                  count = suc b.count;
                  replayed =
                      ap (replay clock b.base) longer
                      ∙ replay-append clock _ b.base s s' e r b.replayed h;
                  counted = omega (arith, up, at, b.counted);
                  within = omega (arith, up, bound);
                },
                omega (arith, up, at),
              )
      ]

  either-Fine :
      (s : Store) (x y : Bool) (e : StreamError) (z : Received)
      → (y ≡ true → Fine s z)
      → Fine s (if x then duplicate else if not y then broken e else z)
  either-Fine s true y e z h = tt
  either-Fine s false false e z h = tt
  either-Fine s false true e z h = h refl

  restored-cases :
      (s u : Store)
      → u.rev < 2 ^ 63
      → s.rev < 2 ^ 63
      → (apply_snapshot s (shown u) ≡ s) ⊎ (s.rev ≤ u.rev)
  unfolding apply_snapshot restore_snapshot snapshot_from_proto export_snapshot snapshot_to_proto
  restored-cases s u sized fits = elim (Bool-cases (Int64.lt u.rev s.rev)) [
    | inl older ↦ inl (ground (arith, older))
    | inr newer ↦ inr (ground (arith, newer))
  ]

  restored-Fine :
      (s : Store) (snap : PbSnapshot)
      → Exported led shown entries snap
      → Based led clock entries s
      → Fine s (acknowledged (apply_snapshot s snap))
  unfolding apply_snapshot
  restored-Fine s snap x b =
      let u = x.source in
      let at : u.rev ≡ x.count =
        rev-replay led x.count 0 entries new u x.within numbered set refl x.replayed
        ∙ omega arith in
      subst (λ q. Fine s (acknowledged (apply_snapshot s q))) (sym x.exported)
        (elim (restored-cases s u (omega (arith, at, x.within, few))
          (omega (arith, b.within, few))) [
            | inl same ↦ subst (λ t. Fine s (acknowledged t)) (sym same) (b, omega arith)
            | inr up ↦
                let small : u.rev < 2 ^ 50 = omega (arith, at, x.within, few) in
                let alone = replay-IsUnique led (take x.count entries) new u tt x.replayed in
                let moved = λ (j : MapKey). transfer-keys s u j alone small up in
                let top : (transfer s u).rev ≡ x.count = (moved any_key).1 ∙ at in
                (
                  record {
                    base = transfer s u;
                    is_base = inr (record {
                      source = u;
                      replayed = ap (λ n. replay led new (take n entries)) top ∙ x.replayed;
                      within = omega (arith, top, x.within);
                      keys = λ j. (moved j).0;
                      before = s;
                      taken = refl;
                    });
                    count = 0;
                    replayed = replay-nil clock (transfer s u);
                    counted = omega arith;
                    within = omega (arith, top, x.within);
                  },
                  omega (arith, top, at, up),
                )
          ])

  -- One message, whatever it is.
  receive-Fine :
      (s : Store) (p : Payload)
      → Genuine led shown entries p
      → Based led clock entries s
      → Fine s (receive clock s p)
  unfolding receive
  receive-Fine s unset g b = absurd g
  receive-Fine s (snapshot snap) g b = restored-Fine s snap g b
  receive-Fine s (entry e) (k, index, there, filled) b =
      either-Fine s _ (e.index == Int64.add s.rev 1) _ _ (λ h.
        applied-Fine s e k b index there filled
          ((nat_comparable.agree_iff e.index (Int64.add s.rev 1)).0 h))

  -- The result of several messages.
  abbrev Ends {ℓ} : {R : Type ℓ} → (R → Store) → Store → Option R → Type 0
  Ends at s none = Faults led clock entries
  Ends at s (some r) = Based led clock entries (at r) × (s.rev ≤ (at r).rev)

  abbrev Outcome : Type 0
  Outcome = Store × List AppendEntriesResponse × Option StreamError

  acked-Ends :
      (s s' : Store) (a : AppendEntriesResponse) (o : Option Outcome)
      → s.rev ≤ s'.rev
      → Ends (λ r. r.0) s' o
      → Ends
          (λ r. r.0)
          s
          (elim o as (λ o. Option Outcome) [
            | none ↦ none
            | some (t, acks, e) ↦ some (t, a ∷ acks, e)
          ])
  acked-Ends s s' a none up f = f
  acked-Ends s s' a (some (t, acks, e)) up (b, more) = (b, omega (arith, up, more))

  receive_all-Ends :
      (id : ℕ) (ps : List Payload) (s : Store)
      → All (λ p. Genuine led shown entries p) ps
      → Based led clock entries s
      → Ends (λ r. r.0) s (receive_all clock id s ps)
  unfolding receive_all
  receive_all-Ends id [] s h b = (b, omega arith)
  receive_all-Ends id (p ∷ ps) s h b =
      elim (receive clock s p)
          as (λ r.
            Fine s r
            → Ends (λ r. r.0) s
                (elim r as (λ r. Option Outcome) [
                  | panicked ↦ none
                  | broken e ↦ some (s, [], some e)
                  | duplicate ↦ receive_all clock id s ps
                  | acknowledged s' ↦ elim (receive_all clock id s' ps) [
                    | none ↦ none
                    | some (s'', acks, e) ↦ some (s'', ack id s' ∷ acks, e)
                  ]
                ])) [
                  | panicked ↦ (λ f. f)
                  | broken e ↦ (λ f. (b, omega arith))
                  | duplicate ↦ (λ f. receive_all-Ends id ps s h.1 b)
                  | acknowledged s' ↦ (λ f.
                      acked-Ends s s' (ack id s') (receive_all clock id s' ps) f.1
                        (receive_all-Ends id ps s' h.1 f.0))
                ]
        (receive-Fine s p h.0 b)

  -- What a connection may give.
  abbrev pub IsGenuine : Connection → Type 0
  IsGenuine fails_to_open = Unit
  IsGenuine (streams ps) = All (λ p. Genuine led shown entries p) ps

  once-Ends :
      (r : FollowerRunner) (s : Store) (c : Connection)
      → IsGenuine c
      → Based led clock entries s
      → Ends (λ t. t) s (once clock r s c)
  unfolding once apply_stream
  once-Ends r s fails_to_open h b = (b, omega arith)
  once-Ends r s (streams ps) h b =
      elim (receive_all clock r.self_id s ps)
          as (λ o.
            Ends (λ q. q.0) s o
            → Ends (λ t. t) s
                (elim (elim o as (λ o. Option Outcome) [
                  | none ↦ none
                  | some (s', acks, e) ↦ some (s', ack r.self_id s ∷ acks, e)
                ])
                  as (λ o. Option Store) [ none ↦ none | some (s', acks, e) ↦ some s' ])) [
                    | none ↦ (λ f. f)
                    | some (s', acks, e) ↦ (λ f. f)
                  ]
        (receive_all-Ends r.self_id ps s h b)

  -- A follower that starts from a replay of consecutive entries, on an empty store or on one restored
  -- from a snapshot of the leader's state at the same index, stays one over any number of connections,
  -- however each of them ends, and its applied index does not fall; it panics only where such a
  -- replay does. The messages are entries of the leader's log under their own indices and snapshots of
  -- what a first part of it leads to, in any order and with any omitted or repeated. The base has the
  -- snapshot's entry at each key.
  pub run-Based :
      (r : FollowerRunner) (cs : List Connection) (s : Store)
      → All IsGenuine cs
      → Based led clock entries s
      → Faults led clock entries × (run clock r s cs ≡ none)
        ⊎ ((s' : Store) × (run clock r s cs ≡ some s')
            × Based led clock entries s'
            × (s.rev ≤ s'.rev))
  unfolding run
  run-Based r [] s h b = inr (s, refl, b, omega arith)
  run-Based r (c ∷ cs) s h b =
      elim (once clock r s c)
          as (λ o.
            Ends (λ t. t) s o
            → Faults led clock entries
                × ((elim o as (λ o. Option Store) [ none ↦ none | some s' ↦ run clock r s' cs ])
                    ≡ none)
              ⊎ ((s' : Store) × ((elim o as (λ o. Option Store) [
                | none ↦ none
                | some s' ↦ run clock r s' cs
              ])
                    ≡ some s')
                  × Based led clock entries s'
                  × (s.rev ≤ s'.rev))) [
                    | none ↦ (λ f. inl (f, refl))
                    | some s₁ ↦ (λ f. elim (run-Based r cs s₁ h.1 f.0) [
                      | inl x ↦ inl x
                      | inr (s', e, b', up) ↦ inr (s', e, b', omega (arith, up, f.1))
                    ])
                  ]
        (once-Ends r s c h.0 b)
