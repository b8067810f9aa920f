-- ===== src/Repl/Follower/Stream.antt =====
-- A follower on a stream of consecutive entries (stream.go: ApplyStream).
use mathlib.Core.Path.{subst}
use repository.Base.{
  ℕ, zero, suc, ◌+◌, ◌^◌, ◌<◌, ◌≡◌, ◌≢◌, refl, ap, sym, ◌∙◌, true, List, [], ◌∷◌, map, All, Option,
  none, some, length, arith, Option-cases, inl, inr, eq_of_some-eq,
}
use repository.Base.Int64.{Int64}
use repository.Proto.{Payload, entry, LogEntry, empty, AppendEntriesResponse}
use repository.Store.State.{Store}
use repository.Repl.Applier.{Applied, apply_one, replay}
use repository.Repl.Replay.{replay-nil, replay-cons, replay-fault}
use repository.Repl.Advance.{rev-apply_op}
use repository.Repl.Commit.Prefix.{Indexed}
use repository.Repl.Follower.{receive, receive_all, apply_stream, ack, acknowledged, StreamError}

-- Every entry has its operation set.
abbrev pub AreSet : List LogEntry → Type 0
AreSet = All (λ e. e.op ≢ empty)

-- The acknowledgements of `n` entries after position `from`.
abbrev pub acks_from : ℕ → ℕ → ℕ → List AppendEntriesResponse
acks_from id from zero = []
acks_from id from (suc n) =
    record { follower_id = id; ack_index = from + 1; success = true } ∷ acks_from id (from + 1) n

receive-next :
    (clock : Int64 → Int64) (s s' : Store) (e : LogEntry) (r : Applied)
    → e.index ≡ s.rev + 1
    → s.rev + 1 < 2 ^ 63
    → apply_one (clock e.index) s e ≡ some (r, s')
    → receive clock s (entry e) ≡ acknowledged s'
unfolding receive
receive-next clock s s' e r next fits a = ground arith

receive_all-acknowledged :
    (clock : Int64 → Int64) (id : ℕ) (s s₁ s' : Store) (p : Payload) (ps : List Payload)
    (acks : List AppendEntriesResponse) (x : Option StreamError)
    → receive clock s p ≡ acknowledged s₁
    → receive_all clock id s₁ ps ≡ some (s', acks, x)
    → receive_all clock id s (p ∷ ps) ≡ some (s', ack id s₁ ∷ acks, x)
unfolding receive_all
receive_all-acknowledged clock id s s₁ s' p ps acks x a b = rw (a, b, receive_all)

receive_all-nil :
    (clock : Int64 → Int64) (id : ℕ) (s : Store) → receive_all clock id s [] ≡ some (s, [], none)
unfolding receive_all
receive_all-nil clock id s = refl

pub receive_all-entries :
    (clock : Int64 → Int64) (id : ℕ) (es : List LogEntry) (s s' : Store) (from : ℕ)
    → s.rev ≡ from
    → Indexed from es
    → AreSet es
    → from + length es < 2 ^ 63
    → replay clock s es ≡ some s'
    → receive_all clock id s (map entry es) ≡ some (s', acks_from id from (length es), none)
receive_all-entries clock id [] s s' from at i set fits e =
    let same : s ≡ s' = eq_of_some-eq (sym (replay-nil clock s) ∙ e) in
    receive_all-nil clock id s ∙ ap (λ x. some (x, [], none)) same
receive_all-entries clock id (x ∷ es) s s' from at i set fits e =
    elim (Option-cases (apply_one (clock x.index) s x)) [
      | inl fault ↦ cc (replay-fault clock s x es fault)
      | inr ((r, s₁), a) ↦
          let there : s₁.rev ≡ from + 1 =
            rev-apply_op (clock x.index) s x.index x.op r s₁ set.0 a ∙ i.0 in
          let rest =
            receive_all-entries clock id es s₁ s' (from + 1) there
              (let z : suc from ≡ from + 1 = omega arith in subst (λ n. Indexed n es) z i.1) set.1
              (omega (arith, fits)) (sym (replay-cons clock s x es r s₁ a) ∙ e) in
          receive_all-acknowledged clock id s s₁ s' (entry x) (map entry es) _ none
            (receive-next clock s s₁ x r (omega (arith, i.0, at)) (omega (arith, at, fits)) a) rest
          ∙ ap
              (λ n. some (
                s',
                record { follower_id = id; ack_index = n; success = true }
                    ∷ acks_from id (from + 1) (length es),
                none,
              ))
              there
    ]

pub apply_stream-entries :
    (clock : Int64 → Int64) (id : ℕ) (es : List LogEntry) (s s' : Store)
    → Indexed s.rev es
    → AreSet es
    → s.rev + length es < 2 ^ 63
    → replay clock s es ≡ some s'
    → apply_stream clock id s (map entry es)
      ≡ some (s', ack id s ∷ acks_from id s.rev (length es), none)
unfolding apply_stream
apply_stream-entries clock id es s s' i set fits e =
    rw (receive_all-entries clock id es s s' s.rev refl i set fits e, apply_stream)
