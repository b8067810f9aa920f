-- ===== src/Repl/Commit/Votes.antt =====
-- Which index a round commits (leader.go: the search of commitLoop; repl.go: Quorum).
use native.Mathlib.Decide.{dec_lt}
use repository.Base.{
  ℕ, zero, suc, ◌+◌, ◌-◌, ◌*◌, ◌^◌, ◌≤◌, ◌<◌, ◌≡◌, Bool, true, String, [], ◌∷◌, length, arith, leb,
  Bool-cases, ◌⊎◌, inl, inr, nat_comparable,
}
use repository.Base.Int64.{Int64}
use repository.Base.Int64
use repository.Base.Dict.{Dict}
use repository.Repl.Applier.{quorum}
use repository.Repl.Leader.{Leader, last_index, votes, need, count_peers, match_of}
use repository.Repl.Commit.{scan_commit, new_commit}

-- What the search returns, between the old commit index and the one that it starts from.
pub record Found (l : Leader) (top r : Int64) : Type 0 where
  pub not_back : l.commit ≤ r
  pub within : r ≤ top
  pub majority : l.commit < r → need l ≤ votes l r
  pub largest : (j : Int64) → r < j → j ≤ top → votes l j < need l

scan_commit-Found :
    (l : Leader) (rounds : ℕ) (i : Int64)
    → i ≡ l.commit + rounds
    → i < 2 ^ 63
    → Found l i (scan_commit l rounds i)
unfolding scan_commit
scan_commit-Found l zero i e h = record {
  not_back = omega arith;
  within = omega arith;
  majority = λ lt. absurd (omega arith);
  largest = λ j lt le. absurd (omega arith);
}
scan_commit-Found l (suc rounds) i e h =
    let f = scan_commit-Found l rounds (Int64.sub i 1) (omega arith) (omega arith) in
    elim (Bool-cases (leb (need l) (votes l i))) [
      | inl enough ↦ rw enough (record {
        not_back = omega arith;
        within = omega arith;
        majority = λ lt. ground arith;
        largest = λ j lt le. absurd (omega arith);
      })
      | inr short ↦ rw short (record {
        not_back = f.not_back;
        within = omega (arith, f.within);
        majority = f.majority;
        largest = λ j lt le. elim (dec_lt j i) [
          | yes below ↦ f.largest j lt (omega arith)
          | no past ↦ let same : j ≡ i = omega arith in rw same (ground arith)
        ];
      })
    ]

count_peers_mono :
    (p q : ℕ → Bool) (self : ℕ) (nodes : Dict ℕ String)
    → ((id : ℕ) → p id ≡ true → q id ≡ true)
    → count_peers p self nodes ≤ count_peers q self nodes
unfolding count_peers
count_peers_mono p q self [] h = omega arith
count_peers_mono p q self ((id, addr) ∷ nodes) h =
    ground (arith, h id, count_peers_mono p q self nodes h)

-- A follower that has acknowledged an entry has acknowledged all entries before it.
votes-antitone : (l : Leader) (j i : Int64) → j ≤ i → i < 2 ^ 63 → votes l i ≤ votes l j
unfolding votes
votes-antitone l j i le fits = omega (
  arith,
  count_peers_mono (λ id. Int64.le i (match_of l id)) (λ id. Int64.le j (match_of l id))
      l.cfg.node_id l.cfg.node_addrs (λ id h. ground arith),
)

pub new_commit-Found :
    (l : Leader)
    → l.commit ≤ last_index l
    → last_index l < 2 ^ 63
    → Found l (last_index l) (new_commit l)
unfolding new_commit
new_commit-Found l le fits =
    scan_commit-Found l (last_index l - l.commit) (last_index l) (omega arith) fits

-- The commit index never falls and stays within the log. Each index that it newly covers has the
-- acknowledgement of more than half of the nodes, the leader's own counted; and it is as large as
-- that allows.
pub new_commit_majority :
    (l : Leader) (j : Int64)
    → l.commit ≤ last_index l
    → last_index l < 2 ^ 63
    → (l.commit ≤ new_commit l)
      × (new_commit l ≤ last_index l)
      × ((j ≤ l.commit)
          ⊎ ((l.commit < j) × (j ≤ new_commit l) × (length l.cfg.node_addrs < votes l j * 2))
          ⊎ ((new_commit l < j) × (j ≤ last_index l) × (votes l j * 2 ≤ length l.cfg.node_addrs))
          ⊎ (last_index l < j))
unfolding need quorum
new_commit_majority l j le fits =
    let f = new_commit-Found l le fits in
    (
      f.not_back,
      f.within,
      elim (dec_lt l.commit j) [
        | no old ↦ inl (omega arith)
        | yes above ↦ inr (elim (dec_lt (new_commit l) j) [
          | no covered ↦ inl (
            above,
            omega arith,
            omega (
              arith,
              f.majority (omega arith),
              votes-antitone l j (new_commit l) (omega arith) (omega (arith, f.within)),
            ),
          )
          | yes beyond ↦ inr (elim (dec_lt (last_index l) j) [
            | yes outside ↦ inr outside
            | no inside ↦ inl (beyond, omega arith, omega (arith, f.largest j beyond (omega arith)))
          ])
        ])
      ],
    )
