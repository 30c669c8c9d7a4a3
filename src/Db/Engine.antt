-- ===== src/Db/Engine.antt =====
-- db/session.py: the engine and the sessionmaker of the process. An engine is what it was built
-- with; a sessionmaker is known by its engine.
pub mod Lifecycle
use banking_ai_platform.Prelude.{
  ℕ, String, starts_with, Bool, true, false, Option, none, some, List, [], ◌∷◌, if◌then◌else◌,
}
use banking_ai_platform.Core.Errors.{Result, ok, err, other}
use banking_ai_platform.Db.Session.{Action}

-- The settings of the database.
pub record DatabaseSettings : Type 0 where
  pub database_url : String
  pub database_pool_size : ℕ
  pub database_max_overflow : ℕ
  pub database_echo : Bool

-- The arguments of `create_async_engine` that differ; the pool is given with `pool_pre_ping`.
pub record Engine : Type 0 where
  pub url : String
  pub echo : Bool
  pub pool : Option (ℕ × ℕ)

-- `_build_engine`
unfoldable pub build_engine : DatabaseSettings → Engine
build_engine s = record {
  url = s.database_url;
  echo = s.database_echo;
  pool =
      if starts_with "sqlite" s.database_url
      then none
      else some (s.database_pool_size, s.database_max_overflow);
}

-- The two globals, and the engines that were disposed of, the last one first.
pub record Process : Type 0 where
  pub engine : Option Engine
  pub sessionmaker : Option Engine
  pub disposed : List Engine

abbrev pub begun : Process
begun = record { engine = none; sessionmaker = none; disposed = [] }

abbrev pub init_with : Engine → Option Engine → Process → Engine × Process
init_with built none p = (built, record p { engine = some built; sessionmaker = some built })
init_with built (some engine) p = (engine, p)

-- `init_engine`; `settings` are those given, or those of the process.
unfoldable pub init_engine : DatabaseSettings → Process → Engine × Process
unfolding build_engine
init_engine settings p = init_with (build_engine settings) p.engine p

abbrev pub asserted : Option Engine → Action Process Engine
asserted none p = (err (other "AssertionError" ""), p)
asserted (some maker) p = (ok maker, p)

abbrev pub maker_of : DatabaseSettings → Option Engine → Process → Process
maker_of settings none p = (init_engine settings p).1
maker_of settings (some maker) p = p

-- `get_sessionmaker`, with the settings of the process.
unfoldable pub get_sessionmaker : DatabaseSettings → Action Process Engine
unfolding init_engine
get_sessionmaker settings p =
    let after = maker_of settings p.sessionmaker p in asserted after.sessionmaker after

abbrev pub disposed_with : Option Engine → List Engine → List Engine
disposed_with none disposed = disposed
disposed_with (some engine) disposed = engine ∷ disposed

-- `dispose_engine`
unfoldable pub dispose_engine : Process → Process
dispose_engine p = record {
  engine = none;
  sessionmaker = none;
  disposed = disposed_with p.engine p.disposed;
}
