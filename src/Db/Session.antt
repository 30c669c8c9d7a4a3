-- ===== src/Db/Session.antt =====
-- What the services use of a database session: a flushed `add` appends a row, an assignment to a
-- loaded row replaces it, and `select` by key finds it. Keys are drawn from a counter.
use banking_ai_platform.Prelude.{◌≡◌, refl, ℕ, ◌==◌, if◌then◌else◌, Option, List, [], ◌∷◌, first}
use banking_ai_platform.Core.Errors.{err_ok, Exn, Result, ok, err}
use banking_ai_platform.Db.Rows.{Workflow, AuditLog}

pub record Database : Type 0 where
  pub workflows : List Workflow
  pub audit_logs : List AuditLog
  pub next_id : ℕ

abbrev pub empty_database : Database
empty_database = record { workflows = []; audit_logs = []; next_id = 0 }

-- The database, and whatever the agents may read and change.
pub record Session (W : Type 0) : Type 0 where
  pub db : Database
  pub world : W

-- `select(Workflow).where(Workflow.id == key)` with `scalar_one_or_none`
abbrev pub find_workflow : ℕ → Database → Option Workflow
find_workflow key db = first (λ w. w.id == key) db.workflows

abbrev pub replace : Workflow → List Workflow → List Workflow
replace w [] = []
replace w (v ∷ vs) = (if v.id == w.id then w else v) ∷ replace w vs

-- Assignments to a loaded workflow, flushed.
abbrev pub save_workflow : Workflow → Database → Database
save_workflow w db = record db { workflows = replace w db.workflows }

-- An action that may raise; what it wrote before stays in the session.
abbrev pub Action : Type 0 → Type 0 → Type 0
Action S A = S → Result A × S

module _ {S : Type 0} where
  abbrev pub pure : {A : Type 0} → A → Action S A
  pure a s = (ok a, s)

  abbrev pub raise : {A : Type 0} → Exn → Action S A
  raise e s = (err e, s)

  abbrev pub and_then : {A B : Type 0} → Result A → (A → Action S B) → Action S B
  and_then (ok a) f s = f a s
  and_then (err e) f s = (err e, s)

  pub and_then-ok :
      {A B : Type 0} (r : Result A) (f : A → Action S B) (s : S) (b : B)
      → (and_then r f s).0 ≡ ok b
      → (a : A) × (r ≡ ok a) × ((f a s).0 ≡ ok b)
  and_then-ok (ok a) f s b h = (a, refl, h)
  and_then-ok (err e) f s b h = absurd (err_ok h)

  infixl 5 ◌>>=◌ ◌>>◌
  abbrev pub ◌>>=◌ : {A B : Type 0} → Action S A → (A → Action S B) → Action S B
  ◌>>=◌ m f s = let (r, s') = m s in and_then r f s'

  abbrev pub ◌>>◌ : {A B : Type 0} → Action S A → Action S B → Action S B
  m >> n = m >>= λ _. n

-- The end of a request: commit, or roll back to what was committed before it.
abbrev pub end_request : {W A : Type 0} → Session W → Result A × Session W → Result A × Session W
end_request before (ok a, after) = (ok a, after)
end_request before (err e, after) = (err e, record after { db = before.db })

-- `session_dep`, around the action of a request.
unfoldable pub transaction :
    {W A : Type 0} → Action (Session W) A → Session W → Result A × Session W
transaction m s = end_request s (m s)
