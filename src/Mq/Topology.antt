-- ===== src/Mq/Topology.antt =====
-- backend/assemblage/mq/topology.py: the queues and exchanges that the workers agree on.
use assemblage.Prelude.{ℕ, Text, codes, Bool, true, false, Option, none, some, ◌++◌}
use assemblage.Prelude.{decimal}

pub record QueueSpec : Type 0 where
  pub name : Text
  pub durable : Bool
  pub exclusive : Bool
  pub auto_delete : Bool
  pub exchange : Text
  pub routing_key : Option Text

-- `QueueSpec(name)`: the defaults of the other fields.
abbrev pub queue : Text → QueueSpec
queue name = record {
  name = name;
  durable = true;
  exclusive = false;
  auto_delete = false;
  exchange = codes "";
  routing_key = none;
}

-- The property `routing`.
unfoldable pub routing : QueueSpec → Text
routing q = elim q.routing_key [ none ↦ q.name | some key ↦ key ]

abbrev pub scrape_queue : QueueSpec
scrape_queue = queue (codes "scrape")

abbrev pub clone_queue : QueueSpec
clone_queue = queue (codes "clone")

abbrev pub build_queue : QueueSpec
build_queue = queue (codes "build")

abbrev pub binary_queue : QueueSpec
binary_queue = queue (codes "binary")

abbrev pub builder_reg_queue : QueueSpec
builder_reg_queue = queue (codes "builder_reg")

abbrev pub scraper_reg_queue : QueueSpec
scraper_reg_queue = queue (codes "scraper_reg")

abbrev pub ir_queue : QueueSpec
ir_queue = queue (codes "ir")

abbrev pub build_opt_exchange : Text
build_opt_exchange = codes "build_opt"

unfoldable pub build_opt_queue : ℕ → QueueSpec
build_opt_queue opt_id =
    let name = codes "build_opt_" ++ decimal opt_id in
    record (queue name) { exchange = build_opt_exchange; routing_key = some name }

unfoldable pub builder_ctrl_queue : Text → QueueSpec
builder_ctrl_queue uuid = record (queue (codes "builder_ctrl_" ++ uuid)) {
  durable = false;
  auto_delete = true;
}

unfoldable pub scraper_ctrl_queue : Text → QueueSpec
scraper_ctrl_queue uuid = record (queue (codes "scraper_ctrl_" ++ uuid)) {
  durable = false;
  auto_delete = true;
}
