-- ===== src/Repl/Broadcaster.antt =====
-- The broadcaster of "new entries" signals (broadcaster.go). A channel of capacity 1 is whether a
-- signal waits in it.
use repository.Base.{Bool, true, false, [], ◌∷◌, nat_comparable}
use repository.Base.Int64.{Int64}
use repository.Base.Int64
use repository.Base.Dict.{Dict, store, erase}

pub record Broadcaster : Type 0 where
  pub subs : Dict Int64 Bool
  pub seq : Int64

abbrev pub new_broadcaster : Broadcaster
new_broadcaster = record { subs = []; seq = 0 }

unfoldable pub subscribe : Broadcaster → Int64 × Broadcaster
subscribe b =
    let id : Int64 = Int64.add b.seq 1 in (id, record { subs = store id false b.subs; seq = id })

unfoldable pub unsubscribe : Broadcaster → Int64 → Broadcaster
unsubscribe b id = record b { subs = erase id b.subs }

-- A full channel is left as it is.
unfoldable pub signal_all : Dict Int64 Bool → Dict Int64 Bool
signal_all [] = []
signal_all ((id, waiting) ∷ subs) = (id, true) ∷ signal_all subs

unfoldable pub notify : Broadcaster → Broadcaster
unfolding signal_all
notify b = record b { subs = signal_all b.subs }
