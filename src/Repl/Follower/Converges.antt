-- ===== src/Repl/Follower/Converges.antt =====
-- A follower that connects reaches the state of the whole log (stream.go: sendCatchup, ApplyStream;
-- leader.go: Catchup).
use mathlib.Core.Path.{subst}
use repository.Base.{
  ℕ, zero, suc, ◌+◌, ◌-◌, ◌≤◌, ◌<◌, ◌≡◌, refl, ap, sym, ◌∙◌, List, [], ◌∷◌, none, some, length,
  length-drop, take, drop, arith, Option-cases, ◌⊎◌, inl, inr, eq_of_some-eq,
}
use repository.Base.Int64.{Int64}
use repository.Proto.{LogEntry}
use repository.Store.State.{Store, new}
use repository.Repl.Applier.{apply_one, replay}
use repository.Repl.Replay.{replay-nil, replay-cons, replay-fault}
use repository.Repl.Advance.{rev-apply_op}
use repository.Repl.Leader.{Leader}
use repository.Repl.Catchup.{catchup, catchup_messages}
use repository.Repl.Catchup.Sends.{catchup_lem}
use repository.Repl.Commit.Prefix.{Indexed, Holds}
use repository.Repl.Follower.{apply_stream, ack}
use repository.Repl.Follower.Stream.{AreSet, acks_from, apply_stream-entries}

Indexed-drop : (p from : ℕ) (es : List LogEntry) → Indexed from es → Indexed (from + p) (drop p es)
Indexed-drop zero from es i =
    let z : from ≡ from + zero = omega arith in subst (λ n. Indexed n es) z i
Indexed-drop (suc p) from [] i = tt
Indexed-drop (suc p) from (e ∷ es) i =
    let z : suc from + p ≡ from + suc p = omega arith in
    subst (λ n. Indexed n (drop p es)) z (Indexed-drop p (suc from) es i.1)

AreSet-drop : (p : ℕ) (es : List LogEntry) → AreSet es → AreSet (drop p es)
AreSet-drop zero es h = h
AreSet-drop (suc p) [] h = tt
AreSet-drop (suc p) (e ∷ es) h = AreSet-drop p es h.1

-- A replay goes on from the state that its first part leaves.
replay-drop :
    (clock : Int64 → Int64) (p : ℕ) (es : List LogEntry) (s₀ s t : Store)
    → replay clock s₀ (take p es) ≡ some s
    → replay clock s₀ es ≡ some t
    → replay clock s (drop p es) ≡ some t
replay-drop clock zero es s₀ s t a b =
    ap (λ x. replay clock x es) (sym (eq_of_some-eq (sym (replay-nil clock s₀) ∙ a))) ∙ b
replay-drop clock (suc p) [] s₀ s t a b =
    ap (λ x. replay clock x []) (sym (eq_of_some-eq (sym (replay-nil clock s₀) ∙ a))) ∙ b
replay-drop clock (suc p) (e ∷ es) s₀ s t a b =
    elim (Option-cases (apply_one (clock e.index) s₀ e)) [
      | inl fault ↦ cc (replay-fault clock s₀ e es fault)
      | inr ((r, s₁), h) ↦
          replay-drop clock p es s₁ s t (sym (replay-cons clock s₀ e (take p es) r s₁ h) ∙ a)
            (sym (replay-cons clock s₀ e es r s₁ h) ∙ b)
    ]

-- The applied index counts the entries.
pub rev-replay :
    (clock : Int64 → Int64) (p from : ℕ) (es : List LogEntry) (s₀ s : Store)
    → p ≤ length es
    → Indexed from es
    → AreSet es
    → s₀.rev ≡ from
    → replay clock s₀ (take p es) ≡ some s
    → s.rev ≡ from + p
rev-replay clock zero from es s₀ s le i set at a =
    let same : s₀ ≡ s = eq_of_some-eq (sym (replay-nil clock s₀) ∙ a) in
    ap (λ (x : Store). x.rev) (sym same) ∙ at ∙ omega arith
rev-replay clock (suc p) from [] s₀ s le i set at a = absurd (omega arith)
rev-replay clock (suc p) from (e ∷ es) s₀ s le i set at a =
    elim (Option-cases (apply_one (clock e.index) s₀ e)) [
      | inl fault ↦ cc (replay-fault clock s₀ e (take p es) fault)
      | inr ((r, s₁), h) ↦
          let there : s₁.rev ≡ suc from =
            rev-apply_op (clock e.index) s₀ e.index e.op r s₁ set.0 h ∙ i.0 ∙ omega arith in
          rev-replay clock p (suc from) es s₁ s (omega arith) i.1 set.1 there
            (sym (replay-cons clock s₀ e (take p es) r s₁ h) ∙ a)
          ∙ omega arith
    ]

-- A follower with the first `p` entries, all of whose successors the leader still has, applies exactly
-- those that it lacks and ends with the replay of the whole log: it acknowledges its position and
-- then each entry, and the stream shows no error.
pub catchup_converges :
    (leader_clock clock : Int64 → Int64) (l : Leader) (entries : List LogEntry) (id : ℕ) (p : Int64)
    (s t : Store)
    → Holds leader_clock l entries
    → AreSet entries
    → p ≤ length entries
    → ((l.compact_index < p) ⊎ (l.compact_index ≡ 0))
    → replay clock new (take p entries) ≡ some s
    → replay clock new entries ≡ some t
    → (catchup l p ≡ some (none, drop p entries))
      × (apply_stream clock id s (catchup_messages (none, drop p entries))
          ≡ some (t, ack id s ∷ acks_from id p (length entries - p), none))
unfolding catchup_messages
catchup_converges leader_clock clock l entries id p s t h set le kept a b =
    let at : s.rev ≡ p = rev-replay clock p 0 entries new s le h.indexed set refl a ∙ omega arith in
    let es : List LogEntry = drop p entries in
    let rest = length-drop p entries in
    (
      elim (catchup_lem leader_clock l entries h p (omega (arith, le, h.few))) [
        | inl (ahead, fault) ↦ absurd (omega (arith, ahead, le))
        | inr (inl (within, _, sent)) ↦ sent
        | inr (inr (behind, some_gone, _)) ↦ elim kept [
          | inl past ↦ absurd (omega (arith, past, behind))
          | inr none_gone ↦ absurd (omega (arith, none_gone, some_gone))
        ]
      ],
      apply_stream-entries clock id es s t
            (let z : 0 + p ≡ s.rev = omega (arith, at) in
              subst (λ n. Indexed n es) z (Indexed-drop p 0 entries h.indexed))
            (AreSet-drop p entries set) (omega (arith, at, rest, h.few, le))
            (replay-drop clock p entries new s t a b)
          ∙ ap (λ k. some (t, ack id s ∷ acks_from id k (length es), none)) at
          ∙ ap (λ k. some (t, ack id s ∷ acks_from id p k, none)) rest,
    )
