-- ===== src/Repl/Commit.antt =====
-- One round of the leader's commit loop (leader.go: commitLoop, compactLocked). A result of `none` is
-- a panic: of the state machine, or of an index outside the log.
pub mod Votes
pub mod Prefix
pub mod Rounds
pub mod Refines
pub mod Total
pub mod Run
pub mod Wakes
pub mod Saved
use repository.Base.{
  ℕ, zero, suc, ◌+◌, ◌-◌, ◌++◌, Bool, true, false, ◌||◌, not, List, [], ◌∷◌, Option, none, some,
  length, get_elem?, drop, if◌then◌else◌, ltb, leb, nat_comparable,
}
use repository.Base.Int64.{Int64}
use repository.Base.Int64
use repository.Base.Dict.{find, erase}
use repository.Proto.{LogEntry}
use repository.Store.State.{Store}
use repository.Repl.Applier.{Applied, apply_one}
use repository.Repl.Leader.{Leader, last_index, votes, need}

abbrev pub retain_entries : ℕ
retain_entries = 10_000

-- `for i := lastIndex; i > l.commit; i--`, in as many rounds.
unfoldable pub scan_commit : Leader → ℕ → Int64 → Int64
scan_commit l zero i = l.commit
scan_commit l (suc rounds) i =
    let lower = scan_commit l rounds (Int64.sub i 1) in
    if leb (need l) (votes l i) then i else lower

unfoldable pub new_commit : Leader → Int64
unfolding scan_commit
new_commit l = scan_commit l (last_index l - l.commit) (last_index l)

-- A result for the proposer of an entry.
abbrev pub Signal : Type 0
Signal = Int64 × Applied

-- The end of the loop's body: `l.applied = idx`, and the result for a proposer that still waits.
unfoldable pub record_applied : Leader → Int64 → Applied → Store → Leader × List Signal
record_applied l idx r s =
    let l' : Leader = record l { store = s; applied = idx } in
    elim (find idx l.waiters) [
      | none ↦ (l', [])
      | some w ↦ (record l' { waiters = erase idx l.waiters }, (idx, r) ∷ [])
    ]

-- `for idx := l.commit + 1; idx <= newCommit; idx++`, in as many rounds.
unfoldable pub apply_from : (Int64 → Int64) → Leader → ℕ → Int64 → Option (Leader × List Signal)
apply_from clock l zero idx = some (l, [])
apply_from clock l (suc rounds) idx =
    elim (get_elem? l.log (Int64.sub (Int64.sub idx 1) l.compact_index)) [
      | none ↦ none
      | some e ↦ elim (apply_one (clock e.index) l.store e) [
        | none ↦ none
        | some (r, s) ↦
            let (l', signals) = record_applied l idx r s in
            elim (apply_from clock l' rounds (Int64.add idx 1)) [
              | none ↦ none
              | some (l'', rest) ↦ some (l'', signals ++ rest)
            ]
      ]
    ]

unfoldable pub compact : Leader → Leader
compact l =
    if leb (length l.log) retain_entries || Int64.le l.commit l.compact_index then l else record l {
      saved_snap = elim l.export_snapshot [ none ↦ l.saved_snap | some f ↦ some (f l.store) ];
      log = drop (Int64.sub l.commit l.compact_index) l.log;
      compact_index = l.commit;
    }

unfoldable pub commit_round : (Int64 → Int64) → Leader → Option (Leader × List Signal)
commit_round clock l =
    let target = new_commit l in
    if Int64.lt l.commit target
    then elim (apply_from clock l (target - l.commit) (Int64.add l.commit 1)) [
      | none ↦ none
      | some (l', signals) ↦ some (compact (record l' { commit = target }), signals)
    ]
    else some (l, [])
