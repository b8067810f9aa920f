-- ===== src/Repl/Commit/Refines.antt =====
-- The commit loop's rounds refine the replay of the committed prefix (leader.go: commitLoop,
-- compactLocked).
use mathlib.Core.Path.{subst}
use repository.Base.{
  ℕ, ◌+◌, ◌-◌, ◌≤◌, ◌<◌, ◌≡◌, ◌||◌, refl, ap, sym, ◌∙◌, Bool, true, false, List, [], Option, none,
  some, length, drop-drop, drop, take, arith, leb, Bool-cases, Option-cases, inl, inr, ◌⊎◌,
  eq_of_some-eq, nat_comparable,
}
use repository.Base.Int64.{Int64}
use repository.Base.Int64
use repository.Proto.{LogEntry}
use repository.Store.State.{new}
use repository.Repl.Applier.{replay}
use repository.Repl.Leader.{Leader}
use repository.Repl.Commit.{Signal, apply_from, compact, commit_round, new_commit, retain_entries}
use repository.Repl.Commit.Votes.{new_commit-Found}
use repository.Repl.Commit.Rounds.{After, apply_from-After}
use repository.Repl.Commit.Prefix.{Holds, last_index-length}

abbrev small_or_done : Leader → Bool
small_or_done l = leb (length l.log) retain_entries || Int64.le l.commit l.compact_index

abbrev cut : Leader → Leader
cut l = record l {
  saved_snap = elim l.export_snapshot [ none ↦ l.saved_snap | some f ↦ some (f l.store) ];
  log = drop (Int64.sub l.commit l.compact_index) l.log;
  compact_index = l.commit;
}

compact-keep : (l : Leader) → small_or_done l ≡ true → compact l ≡ l
unfolding compact
compact-keep l h = rw h

compact-cut : (l : Leader) → small_or_done l ≡ false → compact l ≡ cut l
unfolding compact
compact-cut l h = rw h

cut-Holds :
    (clock : Int64 → Int64) (l : Leader) (entries : List LogEntry)
    → Holds clock l entries
    → Holds clock (cut l) entries
cut-Holds clock l entries h = record {
  few = h.few;
  indexed = h.indexed;
  window =
      let n : ℕ = Int64.sub l.commit l.compact_index in
      let sum : l.compact_index + n ≡ l.commit = omega (arith, h.few, h.compacted, h.committed) in
      ap (drop n) h.window ∙ drop-drop n l.compact_index entries ∙ ap (λ m. drop m entries) sum;
  compacted = omega arith;
  committed = h.committed;
  applied = h.applied;
  state = h.state;
}

-- Truncating the log at the commit index.
pub compact-Holds :
    (clock : Int64 → Int64) (l : Leader) (entries : List LogEntry)
    → Holds clock l entries
    → Holds clock (compact l) entries × ((compact l).commit ≡ l.commit)
compact-Holds clock l entries h = elim (Bool-cases (small_or_done l)) [
  | inl keep ↦
      subst (λ x. Holds clock x entries × (x.commit ≡ l.commit)) (sym (compact-keep l keep))
        (h, refl)
  | inr drops ↦
      subst (λ x. Holds clock x entries × (x.commit ≡ l.commit)) (sym (compact-cut l drops))
        (cut-Holds clock l entries h, refl)
]

Reached-Holds :
    (clock : Int64 → Int64) (l l' : Leader) (entries : List LogEntry) (target : Int64)
    → Holds clock l entries
    → l.commit < target
    → target ≤ length entries
    → After clock l entries (target - l.commit) (l.commit + (target - l.commit)) l'
    → Holds clock (record l' { commit = target }) entries
Reached-Holds clock l l' entries target h lt le a =
    let top : l.commit + (target - l.commit) ≡ target = omega arith in
    record {
      few = h.few;
      indexed = h.indexed;
      window = a.reached.window;
      compacted = omega (arith, a.same.compact_index, h.compacted);
      committed = le;
      applied = a.moved (omega arith) ∙ top;
      state = ap (λ n. replay clock new (take n entries)) (sym top) ∙ a.reached.state;
    }

module _ (clock : Int64 → Int64) (l : Leader) where
  pub commit_round-idle :
      Int64.lt l.commit (new_commit l) ≡ false → commit_round clock l ≡ some (l, [])
  unfolding commit_round
  commit_round-idle h = rw (h, commit_round)

  module _ (h : Int64.lt l.commit (new_commit l) ≡ true) where
    abbrev pub run : Option (Leader × List Signal)
    run = apply_from clock l (new_commit l - l.commit) (Int64.add l.commit 1)

    commit_round-fault : run ≡ none → commit_round clock l ≡ none
    unfolding commit_round
    commit_round-fault a = rw (h, a, commit_round)

    pub commit_round-some :
        (l' : Leader) (signals : List Signal)
        → run ≡ some (l', signals)
        → commit_round clock l ≡ some (compact (record l' { commit = new_commit l }), signals)
    unfolding commit_round
    commit_round-some l' signals a = rw (h, a, commit_round)

-- What a round that returns did: nothing, or it applied the entries up to the index that the search
-- found and compacted.
pub commit_round-cases :
    (clock : Int64 → Int64) (l l' : Leader) (entries : List LogEntry) (signals : List Signal)
    → Holds clock l entries
    → commit_round clock l ≡ some (l', signals)
    → ((l' ≡ l) × (l.commit ≡ new_commit l))
      ⊎ ((l₁ : Leader) × (l' ≡ compact (record l₁ { commit = new_commit l }))
          × (l.commit < new_commit l)
          × (new_commit l ≤ length entries)
          × After clock l entries
              (new_commit l - l.commit)
              (l.commit + (new_commit l - l.commit))
              l₁)
commit_round-cases clock l l' entries signals h e =
    let last = last_index-length l entries h in
    let f = new_commit-Found l (omega (arith, last, h.committed)) (omega (arith, last, h.few)) in
    let le : new_commit l ≤ length entries = omega (arith, last, f.within) in
    elim (Bool-cases (Int64.lt l.commit (new_commit l))) [
      | inr idle ↦ inl (
        ap (λ q. q.0) (eq_of_some-eq (sym e ∙ commit_round-idle clock l idle)),
        ground (arith, f.not_back, le, h.few, h.committed),
      )
      | inl moves ↦ elim (Option-cases (run clock l moves)) [
        | inl fault ↦ cc (commit_round-fault clock l moves fault)
        | inr ((l₁, done), a) ↦ inr (
          l₁,
          ap (λ q. q.0) (eq_of_some-eq (sym e ∙ commit_round-some clock l moves l₁ done a)),
          ground (arith, le, h.few, h.committed),
          le,
          apply_from-After clock (new_commit l - l.commit) l l₁ entries l.commit
              (Int64.add l.commit 1) done (omega (arith, h.few, h.committed)) (omega arith)
              (record { few = h.few; window = h.window; compacted = h.compacted; state = h.state })
              a,
        )
      ]
    ]

-- A round keeps the leader's store the replay of the committed entries, through compaction too, and
-- ends with the commit index that the search found.
pub commit_round-Holds :
    (clock : Int64 → Int64) (l l' : Leader) (entries : List LogEntry) (signals : List Signal)
    → Holds clock l entries
    → commit_round clock l ≡ some (l', signals)
    → Holds clock l' entries × (l'.commit ≡ new_commit l)
commit_round-Holds clock l l' entries signals h e =
    elim (commit_round-cases clock l l' entries signals h e) [
      | inl (same, at) ↦
          subst (λ x. Holds clock x entries × (x.commit ≡ new_commit l)) (sym same) (h, at)
      | inr (l₁, same, lt, le, after) ↦
          subst (λ x. Holds clock x entries × (x.commit ≡ new_commit l)) (sym same)
            (compact-Holds clock (record l₁ { commit = new_commit l }) entries
              (Reached-Holds clock l l₁ entries (new_commit l) h lt le after))
    ]
