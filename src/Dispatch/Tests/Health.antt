-- ===== src/Dispatch/Tests/Health.antt =====
-- plugins/dispatch: the health checks at concrete tables.
use rocksys.Base.{eqb_bytes, [], ◌∷◌, ◌≡◌, refl, pos, int_eq, bytes_eq, codes}
use rocksys.Base.Dict.{get}
use rocksys.Dispatch.Registry.{healthy, bad}
use rocksys.Dispatch.Health.{HealthCenter, HcTaskKey, running, key_of, rebuild}
use rocksys.Dispatch.Health.Named.{key_named}
use rocksys.Dispatch.Health.Rebuild.{node_after, rebuild-node_after}
use rocksys.Dispatch.Tests.{node_b, tables}

-- Node 11 is probed with other parameters than before, and node 12 is not in the tables.
abbrev old_b : HcTaskKey
old_b = record (key_of node_b) { path = codes "/old" }

abbrev center : HealthCenter
center = record {
  reg =
      (pos 11, record { health = bad; inflight = pos 3 })
      ∷ (pos 12, record { health = healthy; inflight = pos 1 })
      ∷ [];
  members = (pos 11, old_b) ∷ (pos 12, record old_b { node_id = pos 12 }) ∷ [];
  tasks = (old_b, running) ∷ [];
}

task_moves : (rebuild center tables).tasks ≡ (key_of node_b, running) ∷ []
unfolding rebuild eqb_bytes
task_moves = refl

rebuild-node_after_example :
    (get (rebuild center tables).members (pos 12) ≡ key_named tables (pos 12))
    × (get (rebuild center tables).reg (pos 12)
        ≡ node_after
            (get center.members (pos 12))
            (key_named tables (pos 12))
            (get center.reg (pos 12)))
rebuild-node_after_example = rebuild-node_after center tables (pos 12) (((λ e. cc), tt), (tt, tt))
