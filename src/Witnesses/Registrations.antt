-- ===== src/Witnesses/Registrations.antt =====
-- The theorem on the watch of a service at a concrete input: one instance, registered while the watch
-- is open.
use repository.Base.{ℕ, ◌≡◌, ◌≢◌, refl, [], none, some, arith}
use repository.Base.Int64.{Int64}
use repository.Base.Dict.{find, store}
use repository.Proto.{RegisterOp, register}
use repository.Store.State.{Store, new, svc_key_comparable, inst_to_pb, clone_instance}
use repository.Store.Registry.{apply_register, fanout_svc, watch_service}
use repository.Repl.Applier.{Applied, nothing, apply_op}
use repository.Server.WatchInstances.{Session, Turn, blocked, moves, takes, turn, start}
use repository.Server.WatchInstances.Changes.{instance_key}
use repository.Server.WatchInstances.Run.{Reach, here, next, turns, applies}
use repository.Server.WatchInstances.Registered.{turn-registered}

abbrev clock : ℕ → Int64
clock i = 1000

abbrev next_store : Store → Turn → Store
next_store s blocked = s
next_store s (moves s' x') = s'

abbrev next_session : Session → Turn → Session
next_session x blocked = x
next_session x (moves s' x') = x'

abbrev opened : Turn
opened = turn clock "app" "web" takes new start

abbrev announced : Turn
announced = turn clock "app" "web" takes (next_store new opened) (next_session start opened)

abbrev register_op : RegisterOp
register_op = record {
  namespace = "app";
  service = "web";
  instance_id = "a";
  address = "h:1";
  metadata = [];
  lease_ttl_ms = 0;
  expire_at_ms = 0;
}

abbrev registering : Store
registering = (apply_register (next_store new announced) 1 register_op).1

abbrev told : Turn
told = turn clock "app" "web" takes registering (next_session start announced)

abbrev registered_as : Applied
registered_as = record nothing {
  inst = some (apply_register (next_store new announced) 1 register_op).0;
}

apply_op-registering :
    apply_op 1000 (next_store new announced) 1 (register register_op)
    ≡ some (registered_as, registering)
unfolding apply_op
apply_op-registering = refl

tells : Reach "app" "web" new start (next_store new told) (next_session start told)
unfolding turn watch_service apply_register fanout_svc find store clone_instance inst_to_pb
tells =
    next
      (next
        (next
          (next (here refl refl) (
            turns {s' = next_store new opened} {x' = next_session start opened} clock takes
              (omega arith) refl))
          (turns {s' = next_store new announced} {x' = next_session start announced} clock takes
            (omega arith) refl))
        (applies {s' = registering} 1000 1 (register register_op) registered_as apply_op-registering
          refl))
      (turns {s' = next_store new told} {x' = next_session start told} clock takes (omega arith)
        refl)

turn-registered_example : find (instance_key "app" "web" "a") (next_store new told).instances ≢ none
unfolding turn find apply_register watch_service fanout_svc store clone_instance inst_to_pb
turn-registered_example =
    turn-registered "app" "web" 1 (record { ns = "app"; service = "web"; ch = [] }) "a" tt tells
      refl refl refl refl
