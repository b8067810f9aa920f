-- ===== src/Repl/Commit/Saved.antt =====
-- The snapshots that a leader keeps for its followers (leader.go: compactLocked, Catchup).
use mathlib.Core.Path.{subst}
use repository.Base.{
  if_either, ℕ, ◌≤◌, ◌≡◌, ◌||◌, refl, ap, sym, ◌∙◌, List, [], ◌∷◌, ◌++◌, Option, none, some, length,
  length-append, take, take-append, arith, leb, inl, inr, ◌⊎◌, eq_of_some-eq, nat_comparable,
}
use repository.Base.Int64.{Int64}
use repository.Base.Int64
use repository.Proto.{LogEntry, PbSnapshot}
use repository.Store.State.{Store, new}
use repository.Repl.Applier.{replay}
use repository.Repl.Leader.{Leader, Config, propose, give_up, follower_ack, follower_reset, stop}
use repository.Repl.Commit.{Signal, commit_round, compact, new_commit, retain_entries}
use repository.Repl.Commit.Prefix.{Holds, proposal}
use repository.Repl.Commit.Refines.{commit_round-Holds, commit_round-cases}
use repository.Repl.Commit.Run.{Step, proposes, gives_up, acks, resets, commits, start}

-- What the exporter gives for the replay of a first part of the entries.
pub record Exported (clock : Int64 → Int64) (f : Store → PbSnapshot) (entries : List LogEntry)
    (snap : PbSnapshot) : Type 0 where
  pub count : ℕ
  pub source : Store
  pub within : count ≤ length entries
  pub replayed : replay clock new (take count entries) ≡ some source
  pub exported : snap ≡ f source

pub Exported-append :
    (clock : Int64 → Int64) (f : Store → PbSnapshot) (entries : List LogEntry) (e : LogEntry)
    (snap : PbSnapshot)
    → Exported clock f entries snap
    → Exported clock f (entries ++ e ∷ []) snap
Exported-append clock f entries e snap x = record {
  count = x.count;
  source = x.source;
  within = omega (arith, x.within, length-append entries (e ∷ []));
  replayed = ap (replay clock new) (take-append x.count entries e x.within) ∙ x.replayed;
  exported = x.exported;
}

pub record Saves (clock : Int64 → Int64) (f : Store → PbSnapshot) (l : Leader)
    (entries : List LogEntry) : Type 0 where
  pub exporter : l.export_snapshot ≡ some f
  pub saved : (snap : PbSnapshot) → l.saved_snap ≡ some snap → Exported clock f entries snap

-- The store itself, exported.
pub Holds-Exported :
    (clock : Int64 → Int64) (f : Store → PbSnapshot) (l : Leader) (entries : List LogEntry)
    → Holds clock l entries
    → Exported clock f entries (f l.store)
Holds-Exported clock f l entries h = record {
  count = l.commit;
  source = l.store;
  within = h.committed;
  replayed = h.state;
  exported = refl;
}

-- Compaction keeps the saved snapshot or replaces it.
abbrev Compacts : Leader → Leader → Type 0
Compacts l l' =
    (l'.export_snapshot ≡ l.export_snapshot)
    × (l'.store ≡ l.store)
    × ((l'.saved_snap ≡ l.saved_snap)
        ⊎ ((f : Store → PbSnapshot) × (l.export_snapshot ≡ some f)
            × (l'.saved_snap ≡ some (f l.store))))

saved_next :
    (l : Leader) (o : Option (Store → PbSnapshot))
    → l.export_snapshot ≡ o
    → ((elim o as (λ o. Option PbSnapshot) [ none ↦ l.saved_snap | some f ↦ some (f l.store) ])
        ≡ l.saved_snap)
      ⊎ ((f : Store → PbSnapshot) × (l.export_snapshot ≡ some f)
          × ((elim o as (λ o. Option PbSnapshot) [
            | none ↦ l.saved_snap
            | some f ↦ some (f l.store)
          ])
              ≡ some (f l.store)))
saved_next l none e = inl refl
saved_next l (some f) e = inr (f, e, refl)

compact-saved : (l : Leader) → Compacts l (compact l)
unfolding compact
compact-saved l =
    if_either (Compacts l) (leb (length l.log) retain_entries || Int64.le l.commit l.compact_index)
      l _ (refl, refl, inl refl) (refl, refl, saved_next l l.export_snapshot refl)

propose-saved :
    (l l' : Leader) (op : _) (index : Int64)
    → propose l op ≡ some (index, l')
    → (l'.saved_snap ≡ l.saved_snap) × (l'.export_snapshot ≡ l.export_snapshot)
unfolding propose
propose-saved l l' op index e = ground arith

follower_ack-saved :
    (l : Leader) (id : ℕ) (index : Int64)
    → ((follower_ack l id index).saved_snap ≡ l.saved_snap)
      × ((follower_ack l id index).export_snapshot ≡ l.export_snapshot)
unfolding follower_ack
follower_ack-saved l id index = ground arith

-- A leader with the same snapshot.
Saves-same :
    (clock : Int64 → Int64) (f : Store → PbSnapshot) (l l' : Leader) (entries : List LogEntry)
    → l'.saved_snap ≡ l.saved_snap
    → l'.export_snapshot ≡ l.export_snapshot
    → Saves clock f l entries
    → Saves clock f l' entries
Saves-same clock f l l' entries same export s = record {
  exporter = export ∙ s.exporter;
  saved = λ snap e. s.saved snap (sym same ∙ e);
}

commits-Saves :
    (clock : Int64 → Int64) (f : Store → PbSnapshot) (l l' : Leader) (entries : List LogEntry)
    (signals : List Signal)
    → commit_round clock l ≡ some (l', signals)
    → Holds clock l entries
    → Saves clock f l entries
    → Saves clock f l' entries
commits-Saves clock f l l' entries signals e h s =
    elim (commit_round-cases clock l l' entries signals h e) [
      | inl (same, at) ↦ subst (λ x. Saves clock f x entries) (sym same) s
      | inr (l₁, same, lt, le, after) ↦
          let c : Leader = record l₁ { commit = new_commit l } in
          let (export, store, saved) = compact-saved c in
          let known =
            ap (λ x. x.export_snapshot) same ∙ export ∙ after.same.export_snapshot ∙ s.exporter in
          let here = (commit_round-Holds clock l l' entries signals h e).0 in
          record {
            exporter = known;
            saved = λ snap a. elim saved [
              | inl kept ↦
                  s.saved snap
                    (sym (ap (λ x. x.saved_snap) same ∙ kept ∙ after.same.saved_snap) ∙ a)
              | inr (g, by, new_snap) ↦
                  let g_f : g ≡ f =
                    eq_of_some-eq (sym by ∙ after.same.export_snapshot ∙ s.exporter) in
                  let shown : snap ≡ f l'.store =
                    eq_of_some-eq (sym a ∙ ap (λ x. x.saved_snap) same ∙ new_snap)
                    ∙ ap (λ k. k c.store) g_f
                    ∙ ap f (sym (ap (λ x. x.store) same ∙ store)) in
                  subst (Exported clock f entries) (sym shown)
                    (Holds-Exported clock f l' entries here)
            ];
          }
    ]

-- Each call keeps the snapshot one of a first part of the entries.
pub Step-Saves :
    (clock : Int64 → Int64) (f : Store → PbSnapshot) {l l' : Leader}
    {entries entries' : List LogEntry}
    → Step clock l entries l' entries'
    → Holds clock l entries
    → Saves clock f l entries
    → Saves clock f l' entries'
unfolding give_up follower_reset
Step-Saves clock f {l} {l'} {entries} {entries'} (proposes op index e grown) h s =
    let (same, export) = propose-saved l l' op index e in
    subst (Saves clock f l') (sym grown) record {
      exporter = export ∙ s.exporter;
      saved = λ snap a.
          Exported-append clock f entries (proposal index op) snap (s.saved snap (sym same ∙ a));
    }
Step-Saves clock f {l} {l'} {entries} (gives_up index e) h s =
    Saves-same clock f l l' entries (ap (λ x. x.saved_snap) e) (ap (λ x. x.export_snapshot) e) s
Step-Saves clock f {l} {l'} {entries} (acks id index e) h s =
    let (same, export) = follower_ack-saved l id index in
    Saves-same clock f l l' entries (ap (λ x. x.saved_snap) e ∙ same)
      (ap (λ x. x.export_snapshot) e ∙ export) s
Step-Saves clock f {l} {l'} {entries} (resets id e) h s =
    Saves-same clock f l l' entries (ap (λ x. x.saved_snap) e) (ap (λ x. x.export_snapshot) e) s
Step-Saves clock f {l} {l'} {entries} (commits signals e) h s =
    commits-Saves clock f l l' entries signals e h s

pub start-Saves :
    (clock : Int64 → Int64) (cfg : Config) (f : Store → PbSnapshot) → Saves clock f (start cfg f) []
start-Saves clock cfg f = record { exporter = refl; saved = λ snap e. cc }

pub stop-Saves :
    (clock : Int64 → Int64) (f : Store → PbSnapshot) (l : Leader) (entries : List LogEntry)
    → Saves clock f l entries
    → Saves clock f (stop l) entries
stop-Saves clock f l entries s = record { exporter = s.exporter; saved = s.saved }
