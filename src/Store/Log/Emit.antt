-- ===== src/Store/Log/Emit.antt =====
-- Emitting an event appends it to the history.
use mathlib.Core.List.{append_assoc, append-nil}
use repository.Base.{
  ℕ, suc, ◌+◌, ◌*◌, ◌≤◌, ◌<◌, ◌≡◌, ◌≢◌, refl, ap, List, [], ◌∷◌, ◌++◌, some, length, arith, ltb,
  if◌then◌else◌, Bool-cases, inl, inr,
}
use repository.Proto.{Kind, KeyValue}
use repository.Store.Ring.{Event, append_event, history_capacity}
use repository.Store.Ring.Window.{Represents, push, append_event-Represents}
use repository.Store.State.{Store, clone_kv}
use repository.Store.Emit.{emit_kv, after_emit, event_cursor}
use repository.Store.Log.{Tracks, Ascending-append, Below-append_self, Below-mono}

-- The event that `emit_kv` makes.
abbrev pub emitted : Store → Kind → KeyValue → Event
emitted s kind kv = record { seq = event_cursor kv.revision s.sub; kind = kind; kv = kv }

clone_kv_lem : (kv : KeyValue) → clone_kv kv ≡ kv
unfolding clone_kv
clone_kv_lem kv = refl

-- The part of the history that leaves the ring when an event is appended.
abbrev evicted : List Event → List Event
evicted [] = []
evicted (x ∷ kept) = if ltb (length (x ∷ kept)) history_capacity then [] else x ∷ []

split-push :
    (lost kept : List Event) (ev : Event)
    → (lost ++ kept) ++ ev ∷ [] ≡ (lost ++ evicted kept) ++ push kept ev
split-push lost [] ev = simp append-nil
split-push lost (x ∷ kept) ev = elim (Bool-cases (ltb (length (x ∷ kept)) history_capacity)) [
  | inl room ↦ rw room (simp (append-nil, append_assoc))
  | inr full ↦ rw full (simp append_assoc)
]

push-ne-nil : (kept : List Event) (ev : Event) → push kept ev ≢ []
push-ne-nil [] ev h = ground arith
push-ne-nil (x ∷ []) ev h = ground arith
push-ne-nil (x ∷ y ∷ kept) ev h = ground arith

-- What a successful `emit_kv` does to the store.
pub record Emits (s : Store) (ev : Event) (s' : Store) : Type 0 where
  pub kvs : s'.kvs ≡ s.kvs
  pub instances : s'.instances ≡ s.instances
  pub rev : s'.rev ≡ s.rev
  pub sub : s'.sub ≡ s.sub + 1
  pub ring : s'.ring ≡ append_event s.ring ev
  pub baseline_seq : s'.baseline_seq ≡ s.baseline_seq
  pub room : s'.sub < 4096

pub emit_kv-Emits :
    (s s' : Store) (kind : Kind) (kv : KeyValue)
    → emit_kv s kind kv ≡ some s'
    → Emits s (emitted s kind kv) s'
unfolding emit_kv after_emit clone_kv
emit_kv-Emits s s' kind kv e = ground arith

Represents-Emits :
    (s s' : Store) (ev : Event) (kept : List Event)
    → Emits s ev s'
    → Represents s.ring kept
    → Represents s'.ring (push kept ev)
Represents-Emits s s' ev kept em r = rw em.ring (append_event-Represents s.ring kept ev r)

-- An event with the next cursor extends the history by itself.
pub Tracks-Emits :
    (s s' : Store) (ev : Event) (log : List Event)
    → ev.seq ≡ s.rev * 4096 + s.sub
    → Tracks (s.rev * 4096 + s.sub) s log
    → Emits s ev s'
    → Tracks (s'.rev * 4096 + s'.sub) s' (log ++ ev ∷ [])
Tracks-Emits s s' ev log q t em = record {
  lost = t.lost ++ evicted t.kept;
  kept = push t.kept ev;
  split = rw t.split (split-push t.lost t.kept ev);
  ring = Represents-Emits s s' ev t.kept em t.ring;
  ordered = Ascending-append 0 _ log ev t.ordered t.below (omega arith) (omega arith);
  below =
      Below-mono (log ++ ev ∷ []) (suc ev.seq) _
        (omega (arith, em.sub, ap (λ (n : ℕ). n * 4096) em.rev))
        (Below-append_self log ev _ t.below (omega arith));
  covered = λ h. absurd (push-ne-nil t.kept ev h);
  small = rw em.baseline_seq t.small;
}

-- Only the ring and the baseline of a store matter.
pub Tracks-transfer :
    (s s' : Store) (log : List Event) (lo hi : ℕ)
    → s'.ring ≡ s.ring
    → s'.baseline_seq ≡ s.baseline_seq
    → lo ≤ hi
    → Tracks lo s log
    → Tracks hi s' log
Tracks-transfer s s' log lo hi p q h t = record {
  lost = t.lost;
  kept = t.kept;
  split = t.split;
  ring = rw p t.ring;
  ordered = t.ordered;
  below = Below-mono log lo hi h t.below;
  covered = rw q t.covered;
  small = rw q t.small;
}
