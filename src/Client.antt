-- ===== src/Client.antt =====
-- src/sample/client.py. `buyer_id_for` stands in Api/App.antt.
pub mod Cli
use whatsapp_sales_saas_temp.Agent.Soul.{SoulConfig}
use whatsapp_sales_saas_temp.Api.App.{App, in_app_repo}
use whatsapp_sales_saas_temp.Exec.{Exec}
use whatsapp_sales_saas_temp.Goal.{Goal, GoalResult, judge, set_field}
use whatsapp_sales_saas_temp.Hindsight.{Hindsight}
use whatsapp_sales_saas_temp.Memory.{Memory, empty_memory}
use whatsapp_sales_saas_temp.Models.{Tenant}
use whatsapp_sales_saas_temp.Onboarding.{render_soul}
use whatsapp_sales_saas_temp.Prelude.{Option, Text, [], lit, none, some, ℕ}
use whatsapp_sales_saas_temp.Result.{Result, map_ok}
use whatsapp_sales_saas_temp.Skills.{SkillResult}
use whatsapp_sales_saas_temp.Skills.Registry.{Registry, invoke}
use whatsapp_sales_saas_temp.Tenant.Manager.{create}
use whatsapp_sales_saas_temp.Tenant.Repository.{Repository}
use whatsapp_sales_saas_temp.Tenant.Spawner.{Spawner}
use whatsapp_sales_saas_temp.Unicode.{Unicode}
use whatsapp_sales_saas_temp.Value.{Fields, Value, bool, null, str}

abbrev pub or_new {ℓ} : {A : Type ℓ} → A → Option A → A
or_new a none = a
or_new a (some b) = b

-- What `Client` may be given; `G` and `L` are the states of the gateway and of the model.
pub record Given (G L : Type 0) : Type 0 where
  pub spawner : Option Spawner
  pub repository : Option Repository
  pub hindsight : Option Hindsight
  pub memory : Option Memory
  pub gateway : Option G
  pub llm : Option L

abbrev pub no_tenants : Repository
no_tenants = record { by_id = [] }

-- `Client.__init__`, without the event bus, which stands beside the stores in Onboarding.antt; `outbox` and
-- `echo` are the states of a new in-memory gateway and of a new echo model. The store and the spawner are
-- the manager's, the router's, the supervisor's and the onboarding flow's alike.
unfoldable pub new_client : {G L : Type 0} → G → L → Given G L → App G L
new_client outbox echo g = record {
  fleet = record {
    repo = or_new no_tenants g.repository;
    spawner = or_new (record { running = [] }) g.spawner;
  };
  hindsight = or_new (record { facts = [] }) g.hindsight;
  memory = or_new empty_memory g.memory;
  gateway = or_new outbox g.gateway;
  llm = or_new echo g.llm;
}

abbrev pub nothing_given : {G L : Type 0} → Given G L
nothing_given = record {
  spawner = none;
  repository = none;
  hindsight = none;
  memory = none;
  gateway = none;
  llm = none;
}

-- `error`, as the dict has it
abbrev pub error_value : Option Text → Value
error_value none = null
error_value (some e) = str e

-- `result.data | {"success": result.success, "error": result.error}`
abbrev pub merged : SkillResult → Fields
merged r =
    set_field (lit "error") (error_value r.error)
      (set_field (lit "success") (bool r.success) r.data_of)

unfoldable pub invoke_skill : Text → Fields → Fields → Hindsight → Registry → Result Fields
unfolding invoke set_field
invoke_skill name context params h skills = map_ok merged (invoke name context params h skills)

-- The methods that pass a call on; `id` and `now` are what `uuid4` and the clock give to the tenant.
module _ {G L : Type 0} where
  unfoldable pub make_tenant :
      Unicode → Text → ℕ → Text → Text → Option Text → Exec (App G L) Tenant
  make_tenant u id now name slug model = in_app_repo (create u id now name slug model)

  unfoldable pub soul_for : Text → Option SoulConfig → Exec (App G L) Text
  soul_for tenant_id config = in_app_repo (render_soul tenant_id config)

-- `run_goal`
abbrev pub run_goal : Goal → Fields → Result GoalResult
run_goal = judge
