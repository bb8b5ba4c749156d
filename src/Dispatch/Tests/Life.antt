-- ===== src/Dispatch/Tests/Life.antt =====
-- plugins/dispatch: a component that starts without its database and is rebuilt later.
use rocksys.Base.{[], ◌∷◌, List, ◌≡◌, refl, true, eqb_bytes, some, none}
use rocksys.Dispatch.Component.{RowSource, load_input, new_dispatch}
use rocksys.Dispatch.Component.Serving.{Event, starts, strays, lates, stops, live}
use rocksys.Dispatch.Health.{HealthCenter, rebuild, key_of, running}
use rocksys.Dispatch.Tests.{node_b, tables, any_url}

abbrev rows : RowSource
rows = record {
  load_rules = some tables.rules;
  load_upstreams = some tables.upstreams;
  load_nodes = some tables.nodes;
  load_relations = some tables.relations;
}

abbrev no_tasks : HealthCenter
no_tasks = record { reg = []; members = []; tasks = [] }

-- Two starts without a database, so that two retries run, of which the stop ends one; after another
-- start with the tables the other reads them too.
abbrev events : List Event
events =
    starts none
    ∷ starts none
    ∷ stops
    ∷ strays (some rows)
    ∷ starts (some rows)
    ∷ strays (some rows)
    ∷ []

stray_left :
    (live any_url (new_dispatch no_tasks) (starts none ∷ starts none ∷ stops ∷ [])).strays ≡ 1
unfolding live load_input new_dispatch
stray_left = refl

-- A rebuild that a stop overtakes starts the tasks of the health checks again.
abbrev overtaken : List Event
overtaken = starts (some rows) ∷ stops ∷ lates (some rows) ∷ []

tasks_left :
    (live any_url (new_dispatch no_tasks) overtaken).hc.tasks ≡ (key_of node_b, running) ∷ []
unfolding live load_input new_dispatch rebuild eqb_bytes
tasks_left = refl

is_stopped : (live any_url (new_dispatch no_tasks) overtaken).stopped ≡ true
unfolding live load_input new_dispatch
is_stopped = refl
