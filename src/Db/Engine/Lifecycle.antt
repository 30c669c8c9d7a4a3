-- ===== src/Db/Engine/Lifecycle.antt =====
-- The globals of db/session.py over the life of a process.
use banking_ai_platform.Prelude.{Option, none, some, ◌≡◌, refl, sym, subst}
use banking_ai_platform.Core.Errors.{ok}
use banking_ai_platform.Db.Engine.{
  DatabaseSettings, Engine, Process, begun, init_with, init_engine, asserted, maker_of,
  get_sessionmaker, dispose_engine,
}

-- The states that a process reaches by any calls.
pub data Reach : Process → Type 0 where
  start : Reach begun
  inits : {p : Process} (settings : DatabaseSettings) → Reach p → Reach (init_engine settings p).1
  gets :
      {p : Process} (settings : DatabaseSettings) → Reach p → Reach (get_sessionmaker settings p).1
  disposes : {p : Process} → Reach p → Reach (dispose_engine p)

-- The two globals are set together: the sessionmaker is that of the engine.
abbrev IsPaired : Process → Type 0
IsPaired p = p.sessionmaker ≡ p.engine

IsPaired-init :
    (built : Engine) (found : Option Engine) (p : Process)
    → IsPaired p
    → IsPaired (init_with built found p).1
IsPaired-init built none p h = refl
IsPaired-init built (some engine) p h = h

state-asserted : (maker : Option Engine) (p : Process) → (asserted maker p).1 ≡ p
state-asserted none p = refl
state-asserted (some maker) p = refl

IsPaired-maker :
    (settings : DatabaseSettings) (found : Option Engine) (p : Process)
    → IsPaired p
    → IsPaired (maker_of settings found p)
unfolding init_engine
IsPaired-maker settings none p h = IsPaired-init _ p.engine p h
IsPaired-maker settings (some maker) p h = h

Reach-IsPaired : {p : Process} → Reach p → IsPaired p
unfolding init_engine get_sessionmaker dispose_engine
Reach-IsPaired start = refl
Reach-IsPaired (inits {p} settings r) = IsPaired-init _ p.engine p (Reach-IsPaired r)
Reach-IsPaired (gets {p} settings r) =
    subst IsPaired
      (sym (
        state-asserted (maker_of settings p.sessionmaker p).sessionmaker
          (maker_of settings p.sessionmaker p)))
      (IsPaired-maker settings p.sessionmaker p (Reach-IsPaired r))
Reach-IsPaired (disposes r) = refl

-- A process whose two globals hold what was found.
paired-get :
    (settings later : DatabaseSettings) (found : Option Engine) (p : Process)
    → p.engine ≡ found
    → p.sessionmaker ≡ found
    → (get_sessionmaker settings p ≡ (ok (init_engine settings p).0, (init_engine settings p).1))
      × (init_engine later (init_engine settings p).1 ≡ init_engine settings p)
unfolding get_sessionmaker init_engine
paired-get settings later none p e m = rw (e, m) (refl, refl)
paired-get settings later (some engine) p e m = rw (e, m) (refl, refl)

-- Whatever a process has called before, `get_sessionmaker` meets its assertion: it returns the
-- sessionmaker of the engine that `init_engine` returns, and leaves the same state. From then on
-- `init_engine` returns that engine and changes nothing, whichever settings it is given.
pub get_sessionmaker-Reach :
    {p : Process} (settings later : DatabaseSettings)
    → Reach p
    → (get_sessionmaker settings p ≡ (ok (init_engine settings p).0, (init_engine settings p).1))
      × (init_engine later (init_engine settings p).1 ≡ init_engine settings p)
get_sessionmaker-Reach {p} settings later r =
    paired-get settings later p.engine p refl (Reach-IsPaired r)
