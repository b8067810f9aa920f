-- ===== src/Repl/Catchup/Numbered.antt =====
-- What a follower is sent are entries of the leader's log under their own indices, and snapshots of
-- what a first part of it leads to (leader.go: Catchup,
-- EntriesAfter; stream.go: sendCatchup).
use mathlib.Core.Path.{subst}
use repository.Base.{
  if_either, ℕ, zero, suc, ◌+◌, ◌≡◌, refl, ap, sym, ◌∙◌, List, [], ◌∷◌, ◌++◌, map, Option, none,
  some, get_elem?, drop, eq_of_some-eq, All, arith, ◌==◌, nat_comparable,
}
use repository.Base.Int64.{Int64}
use repository.Base.Int64
use repository.Proto.{LogEntry, Payload, unset, snapshot, entry, PbSnapshot}
use repository.Store.State.{Store}
use repository.Repl.Leader.{Leader}
use repository.Repl.Catchup.{catchup, catchup_messages, catchup_snapshot, entries_after, slice_from}
use repository.Repl.Commit.Prefix.{Holds, Indexed}
use repository.Repl.Commit.Saved.{Exported, Exported-append, Saves, Holds-Exported}

-- An entry under its own index, or what the exporter gives for the replay of a first part of the
-- entries.
abbrev pub Numbered : (Int64 → Int64) → (Store → PbSnapshot) → List LogEntry → Payload → Type 0
Numbered clock f entries unset = ⊥
Numbered clock f entries (snapshot snap) = Exported clock f entries snap
Numbered clock f entries (entry e) = (k : ℕ) × (e.index ≡ k + 1) × (get_elem? entries k ≡ some e)

get_elem?-append :
    (es : List LogEntry) (e x : LogEntry) (k : ℕ)
    → get_elem? es k ≡ some x
    → get_elem? (es ++ e ∷ []) k ≡ some x
get_elem?-append [] e x k h = cc
get_elem?-append (y ∷ es) e x zero h = h
get_elem?-append (y ∷ es) e x (suc k) h = get_elem?-append es e x k h

pub Numbered-append :
    (clock : Int64 → Int64) (f : Store → PbSnapshot) (e : LogEntry) (entries : List LogEntry)
    (p : Payload)
    → Numbered clock f entries p
    → Numbered clock f (entries ++ e ∷ []) p
Numbered-append clock f e entries unset h = h
Numbered-append clock f e entries (snapshot snap) h = Exported-append clock f entries e snap h
Numbered-append clock f e entries (entry x) (k, index, there) =
    (k, index, get_elem?-append entries e x k there)

All-drop {ℓ κ} : {A : Type ℓ} (P : A → Type κ) (n : ℕ) (xs : List A) → All P xs → All P (drop n xs)
All-drop P zero xs h = h
All-drop P (suc n) [] h = tt
All-drop P (suc n) (x ∷ xs) h = All-drop P n xs h.1

All-map_entry :
    (P : Payload → Type 0) (es : List LogEntry) → All (λ e. P (entry e)) es → All P (map entry es)
All-map_entry P [] h = tt
All-map_entry P (e ∷ es) h = (h.0, All-map_entry P es h.1)

pub All-weaken {ℓ κ μ} :
    {A : Type ℓ} {P : A → Type κ} {Q : A → Type μ} (f : (a : A) → P a → Q a) (xs : List A)
    → All P xs
    → All Q xs
All-weaken f [] h = tt
All-weaken f (x ∷ xs) h = (f x h.0, All-weaken f xs h.1)

pub All-get_elem? {ℓ κ} :
    {A : Type ℓ} (P : A → Type κ) (xs : List A) (k : ℕ) (a : A)
    → All P xs
    → get_elem? xs k ≡ some a
    → P a
All-get_elem? P [] k a h e = cc
All-get_elem? P (x ∷ xs) zero a h e = subst P (eq_of_some-eq e) h.0
All-get_elem? P (x ∷ xs) (suc k) a h e = All-get_elem? P xs k a h.1 e

-- The entries after some position.
module _ (clock : Int64 → Int64) (f : Store → PbSnapshot) where
  Numbered-from :
      (entries es : List LogEntry) (from : ℕ)
      → Indexed from es
      → ((k : ℕ) → get_elem? entries (from + k) ≡ get_elem? es k)
      → All (λ e. Numbered clock f entries (entry e)) es
  Numbered-from entries [] from i h = tt
  Numbered-from entries (e ∷ es) from i h = (
    (from, i.0, ap (get_elem? entries) {x = from} {y = from + 0} (omega arith) ∙ h 0),
    Numbered-from entries es (suc from) i.1 (λ k.
        ap (get_elem? entries) {x = suc from + k} {y = from + suc k} (omega arith) ∙ h (suc k)),
  )

-- The log from some position on.
module _ {clock : Int64 → Int64} {f : Store → PbSnapshot} (l : Leader) (entries : List LogEntry)
    (h : Holds clock l entries) (v : Saves clock f l entries) where
  Numbered-log : All (λ e. Numbered clock f entries (entry e)) l.log
  Numbered-log = subst (All (λ e. Numbered clock f entries (entry e))) (sym h.window) (
      All-drop _ l.compact_index entries (
        Numbered-from clock f entries entries 0 h.indexed
          (λ k. ap (get_elem? entries) {x = 0 + k} {y = k} (omega arith))))

  Numbered-slice : (n : ℕ) → All (Numbered clock f entries) (map entry (drop n l.log))
  Numbered-slice n =
      All-map_entry (Numbered clock f entries) (drop n l.log) (All-drop _ n l.log Numbered-log)

  abbrev pub Sends : Option (Option PbSnapshot × List LogEntry) → Type 0
  Sends none = Unit
  Sends (some r) = All (Numbered clock f entries) (catchup_messages r)

  abbrev Fits : Option PbSnapshot → Type 0
  Fits none = Unit
  Fits (some snap) = Exported clock f entries snap

  with_snapshot-Sends :
      (snap : Option PbSnapshot) (n : ℕ) → Fits snap → Sends (some (snap, drop n l.log))
  unfolding catchup_messages
  with_snapshot-Sends none n x = Numbered-slice n
  with_snapshot-Sends (some snap) n x = (x, Numbered-slice n)

  exporter-Fits :
      (o : Option (Store → PbSnapshot))
      → l.export_snapshot ≡ o
      → Fits (elim o as (λ o. Option PbSnapshot) [ none ↦ none | some g ↦ some (g l.store) ])
  exporter-Fits none e = tt
  exporter-Fits (some g) e =
      let same : g ≡ f = eq_of_some-eq (sym e ∙ v.exporter) in
      subst (λ k. Exported clock f entries (k l.store)) (sym same)
        (Holds-Exported clock f l entries h)

  saved-Fits :
      (o : Option PbSnapshot)
      → l.saved_snap ≡ o
      → Fits (elim o as (λ o. Option PbSnapshot) [
        | some snap ↦ some snap
        | none ↦ elim l.export_snapshot as (λ o. Option PbSnapshot) [
          | none ↦ none
          | some g ↦ some (g l.store)
        ]
      ])
  saved-Fits none e = exporter-Fits l.export_snapshot refl
  saved-Fits (some snap) e = v.saved snap e

  catchup_snapshot-Fits : Fits (catchup_snapshot l)
  unfolding catchup_snapshot
  catchup_snapshot-Fits = saved-Fits l.saved_snap refl

  pub catchup-Sends : (p : Int64) → Sends (catchup l p)
  unfolding catchup slice_from
  catchup-Sends p =
      if_either Sends (Int64.le (Int64.add l.compact_index 1) p) _ _
        (if_either
          (λ o. Sends (elim o as (λ o. Option (Option PbSnapshot × List LogEntry)) [
            | none ↦ none
            | some es ↦ some (none, es)
          ]))
          _ none (some (drop (Int64.sub p l.compact_index) l.log)) tt
          (with_snapshot-Sends none (Int64.sub p l.compact_index) tt))
        (if_either Sends (l.compact_index == 0) _ _ (with_snapshot-Sends none 0 tt)
          (with_snapshot-Sends (catchup_snapshot l) 0 catchup_snapshot-Fits))

  abbrev pub Gives : Option (Option (List LogEntry)) → Type 0
  Gives none = Unit
  Gives (some none) = Unit
  Gives (some (some es)) = All (Numbered clock f entries) (map entry es)

  pub entries_after-Gives : (p : Int64) → Gives (entries_after l p)
  unfolding entries_after slice_from
  entries_after-Gives p = if_either Gives (Int64.lt p l.compact_index) _ _ tt (
      if_either
        (λ o. Gives (elim o as (λ o. Option (Option (List LogEntry))) [
          | none ↦ none
          | some es ↦ some (some es)
        ]))
        _ none (some (drop (Int64.sub p l.compact_index) l.log)) tt
        (Numbered-slice (Int64.sub p l.compact_index)))
