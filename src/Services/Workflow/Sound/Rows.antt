-- ===== src/Services/Workflow/Sound/Rows.antt =====
-- How the table of workflows behaves under reads and writes.
use banking_ai_platform.Prelude.{
  sym, subst, ◌∙◌, All-append, ℕ, ◌<◌, ◌≤◌, ◌≡◌, refl, Bool, true, false, Option, some, List, [],
  ◌∷◌, ◌++◌, first, All-first, All, arith, ◌==◌, if◌then◌else◌,
}
use banking_ai_platform.Db.Rows.{Workflow}
use banking_ai_platform.Db.Session.{replace}
use banking_ai_platform.Services.Workflow.Sound.{IsSound, AllSound}

abbrev pub at_key : ℕ → List Workflow → Option Workflow
at_key key ws = first (λ w. w.id == key) ws

pub AllSound-replace :
    (n : ℕ) (w : Workflow) (ws : List Workflow)
    → IsSound w
    → w.id < n
    → AllSound n ws
    → AllSound n (replace w ws)
AllSound-replace n w [] h k all = tt
AllSound-replace n w (v ∷ vs) h k all = (pick (v.id == w.id), AllSound-replace n w vs h k all.1)
  where
    pick : (b : Bool) → IsSound (if b then w else v) × ((if b then w else v).id < n)
    pick true = (h, k)
    pick false = all.0

pub AllSound-grow : (n m : ℕ) (ws : List Workflow) → n ≤ m → AllSound n ws → AllSound m ws
AllSound-grow n m [] h all = tt
AllSound-grow n m (v ∷ vs) h all = ((all.0.0, omega arith), AllSound-grow n m vs h all.1)

pub AllSound-at :
    (n key : ℕ) (ws : List Workflow) (w : Workflow)
    → AllSound n ws
    → at_key key ws ≡ some w
    → IsSound w
AllSound-at n key ws w all e = (All-first _ _ ws w all e).0

-- A write is read back.
pub at_key-replace :
    (w : Workflow) (ws : List Workflow) (v : Workflow)
    → at_key w.id ws ≡ some v
    → at_key w.id (replace w ws) ≡ some w
at_key-replace w [] v e = cc
at_key-replace w (u ∷ us) v e = ground (arith, at_key-replace w us v)

-- A write to one key leaves the others.
pub at_key-replace_ne :
    (w : Workflow) (ws : List Workflow) (key : ℕ)
    → (w.id == key) ≡ false
    → at_key key (replace w ws) ≡ at_key key ws
at_key-replace_ne w [] key h = refl
at_key-replace_ne w (u ∷ us) key h = ground (arith, at_key-replace_ne w us key)

-- No row has the key.
abbrev pub Fresh : ℕ → List Workflow → Type 0
Fresh key ws = All (λ v. (v.id == key) ≡ false) ws

-- A write to the last row.
pub replace-append :
    (v w : Workflow) (before : List Workflow)
    → v.id ≡ w.id
    → Fresh w.id before
    → replace v (before ++ (w ∷ [])) ≡ before ++ (v ∷ [])
replace-append v w [] e h = ground arith
replace-append v w (u ∷ before) e h = ground (arith, replace-append v w before e h.1)

pub at_key-append :
    (w : Workflow) (before : List Workflow)
    → Fresh w.id before
    → at_key w.id (before ++ (w ∷ [])) ≡ some w
at_key-append w [] h = ground arith
at_key-append w (u ∷ before) h = ground (arith, at_key-append w before h.1)

pub AllSound-append :
    (n : ℕ) (ws : List Workflow) (w : Workflow)
    → AllSound n ws
    → IsSound w
    → w.id < n
    → AllSound n (ws ++ (w ∷ []))
AllSound-append n ws w all h k = All-append _ ws (w ∷ []) all ((h, k), tt)

pub Fresh-next : (n : ℕ) (ws : List Workflow) → AllSound n ws → Fresh n ws
Fresh-next n [] h = tt
Fresh-next n (w ∷ ws) h = (ground (arith, h.0.1), Fresh-next n ws h.1)

pub replace_twice :
    (v u w : Workflow) (before ws : List Workflow)
    → v.id ≡ w.id
    → u.id ≡ w.id
    → ws ≡ before ++ (w ∷ [])
    → Fresh w.id before
    → replace v (replace u ws) ≡ before ++ (v ∷ [])
replace_twice v u w before ws e d rows fresh =
    rw (rows, replace-append u w before d fresh)
      (replace-append v u before (e ∙ sym d) (subst (λ key. Fresh key before) (sym d) fresh))
