-- ===== src/Repl/Commit/Prefix.antt =====
-- The leader against the sequence of all entries that were ever proposed: its store is the replay of
-- the committed ones (leader.go: Propose, commitLoop, compactLocked).
use repository.Base.{
  ℕ, suc, ◌+◌, ◌^◌, ◌≤◌, ◌<◌, ◌≡◌, ap, sym, ◌∙◌, List, [], ◌∷◌, ◌++◌, none, some, length,
  length-append, length-drop, drop-append, take-append, drop, take, arith, Option-cases, inl, inr,
  eq_of_some-eq, nat_comparable,
}
use repository.Base.Int64.{Int64}
use repository.Base.Int64
use repository.Proto.{LogEntry, Op}
use repository.Store.State.{Store, new}
use repository.Repl.Applier.{Applied, apply_one, replay}
use repository.Repl.Replay.{replay-nil, replay-cons, replay-fault}
use repository.Repl.Leader.{Leader, last_index, propose}

-- The k-th entry has index k + 1, counted from `from`.
abbrev pub Indexed : ℕ → List LogEntry → Type 0
Indexed from [] = Unit
Indexed from (e ∷ es) = (e.index ≡ from + 1) × Indexed (suc from) es

pub record Holds (clock : Int64 → Int64) (l : Leader) (entries : List LogEntry) : Type 0 where
  pub few : length entries < 2 ^ 50
  pub indexed : Indexed 0 entries
  pub window : l.log ≡ drop l.compact_index entries
  pub compacted : l.compact_index ≤ l.commit
  pub committed : l.commit ≤ length entries
  pub applied : l.applied ≡ l.commit
  pub state : replay clock new (take l.commit entries) ≡ some l.store

Indexed-append :
    (from : ℕ) (es : List LogEntry) (e : LogEntry)
    → Indexed from es
    → e.index ≡ from + length es + 1
    → Indexed from (es ++ e ∷ [])
Indexed-append from [] e i h = (omega arith, tt)
Indexed-append from (x ∷ es) e i h = (i.0, Indexed-append (suc from) es e i.1 (omega arith))

-- `last_index` is the number of entries proposed.
pub last_index-length :
    {clock : Int64 → Int64} (l : Leader) (entries : List LogEntry)
    → Holds clock l entries
    → last_index l ≡ length entries
unfolding last_index
last_index-length l entries h = omega (
  arith,
  h.few,
  h.compacted,
  h.committed,
  ap length h.window,
  length-drop l.compact_index entries,
)

abbrev pub proposal : Int64 → Op → LogEntry
proposal index op = record { index = index; term = 1; op = op }

record Proposes (l : Leader) (op : Op) (index : Int64) (l' : Leader) : Type 0 where
  next : index ≡ Int64.add (last_index l) 1
  log : l'.log ≡ l.log ++ proposal index op ∷ []
  compact_index : l'.compact_index ≡ l.compact_index
  commit : l'.commit ≡ l.commit
  applied : l'.applied ≡ l.applied
  store : l'.store ≡ l.store

propose-Proposes :
    (l l' : Leader) (op : Op) (index : Int64)
    → propose l op ≡ some (index, l')
    → Proposes l op index l'
unfolding propose
propose-Proposes l l' op index e = ground arith

-- A proposal appends one entry with the next index, and commits nothing.
pub propose-Holds :
    (clock : Int64 → Int64) (l l' : Leader) (op : Op) (index : Int64) (entries : List LogEntry)
    → length entries + 1 < 2 ^ 50
    → Holds clock l entries
    → propose l op ≡ some (index, l')
    → (index ≡ length entries + 1) × Holds clock l' (entries ++ proposal index op ∷ [])
propose-Holds clock l l' op index entries few h e =
    let p = propose-Proposes l l' op index e in
    let next : index ≡ length entries + 1 = omega (arith, p.next, last_index-length l entries h) in
    let le : l.compact_index ≤ length entries = omega (arith, h.compacted, h.committed) in
    let added = proposal index op in
    (
      next,
      record {
        few = omega (arith, length-append entries (added ∷ []), few);
        indexed = Indexed-append 0 entries added h.indexed (omega (arith, next));
        window =
            p.log
            ∙ ap (λ xs. xs ++ added ∷ []) h.window
            ∙ sym (drop-append l.compact_index entries added le)
            ∙ ap (λ n. drop n (entries ++ added ∷ [])) (sym p.compact_index);
        compacted = omega (arith, p.compact_index, p.commit, h.compacted);
        committed = omega (arith, p.commit, h.committed, length-append entries (added ∷ []));
        applied = p.applied ∙ h.applied ∙ sym p.commit;
        state =
            ap (λ n. replay clock new (take n (entries ++ added ∷ []))) p.commit
            ∙ ap (replay clock new) (take-append l.commit entries added h.committed)
            ∙ h.state
            ∙ ap some (sym p.store);
      },
    )

-- One more entry at the end of a replay.
pub replay-append :
    (clock : Int64 → Int64) (es : List LogEntry) (s s₁ s₂ : Store) (e : LogEntry) (r : Applied)
    → replay clock s es ≡ some s₁
    → apply_one (clock e.index) s₁ e ≡ some (r, s₂)
    → replay clock s (es ++ e ∷ []) ≡ some s₂
replay-append clock [] s s₁ s₂ e r h a =
    let same : s ≡ s₁ = eq_of_some-eq (sym (replay-nil clock s) ∙ h) in
    replay-cons clock s e [] r s₂ (ap (λ x. apply_one (clock e.index) x e) same ∙ a)
    ∙ replay-nil clock s₂
replay-append clock (x ∷ es) s s₁ s₂ e r h a = elim (Option-cases (apply_one (clock x.index) s x)) [
  | inl fault ↦ cc (replay-fault clock s x es fault)
  | inr ((r₀, s₀), step) ↦
      replay-cons clock s x (es ++ e ∷ []) r₀ s₀ step
      ∙ replay-append clock es s₀ s₁ s₂ e r (sym (replay-cons clock s x es r₀ s₀ step) ∙ h) a
]

-- One more entry, which the state machine panics at.
pub replay-append_fault :
    (clock : Int64 → Int64) (es : List LogEntry) (s s₁ : Store) (e : LogEntry)
    → replay clock s es ≡ some s₁
    → apply_one (clock e.index) s₁ e ≡ none
    → replay clock s (es ++ e ∷ []) ≡ none
replay-append_fault clock [] s s₁ e h a =
    let same : s ≡ s₁ = eq_of_some-eq (sym (replay-nil clock s) ∙ h) in
    replay-fault clock s e [] (ap (λ x. apply_one (clock e.index) x e) same ∙ a)
replay-append_fault clock (x ∷ es) s s₁ e h a =
    elim (Option-cases (apply_one (clock x.index) s x)) [
      | inl fault ↦ replay-fault clock s x (es ++ e ∷ []) fault
      | inr ((r₀, s₀), step) ↦
          replay-cons clock s x (es ++ e ∷ []) r₀ s₀ step
          ∙ replay-append_fault clock es s₀ s₁ e (sym (replay-cons clock s x es r₀ s₀ step) ∙ h) a
    ]
