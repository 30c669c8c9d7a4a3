-- ===== src/Tests/Stores.antt =====
-- The vector store and the agents over it, with whole numbers for floats and the lengths of texts
-- for ids, the seeding of an empty database, and the engine of a process.
use banking_ai_platform.Prelude.{
  ℕ, ◌+◌, ◌*◌, ◌/◌, String, size, leb, ◌==◌, false, none, some, List, [], ◌∷◌, ◌++◌, length, ◌≡◌,
  refl, arith, str, eq_iff, ◌<>◌,
}
use mathlib.Core.List.{Perm}
use banking_ai_platform.Core.Errors.{Result, ok, err}
use banking_ai_platform.Db.Engine.{
  DatabaseSettings, Process, begun, init_engine, get_sessionmaker, dispose_engine,
}
use banking_ai_platform.Db.Engine.Lifecycle.{Reach, start, inits, disposes, get_sessionmaker-Reach}
use banking_ai_platform.Ai.VectorStore.{
  Digest, Reals, Records, VectorRecord, ScoredRecord, embed, query, score_all,
}
use banking_ai_platform.Ai.VectorStore.Dimensions.{embed-Dimensions}
use banking_ai_platform.Ai.VectorStore.Ranking.{IsOrdered, IsDescending, AreBest, query-best}
use banking_ai_platform.Agents.Compliance.{ComplianceInput, ComplianceOutput, run}
use banking_ai_platform.Agents.Compliance.Citations.{IsGrounded, run-IsGrounded}
use banking_ai_platform.Agents.Audit
use banking_ai_platform.Agents.Audit.Canonical.{SameEntries, exchange, run-same}
use banking_ai_platform.Services.Users.{get_by_email}
use banking_ai_platform.Services.Seed.{Iam, seed_admin}
use banking_ai_platform.Services.Seed.Repeated.{IsSeeded, IsAdministrator, seed_admin_lem}

abbrev pub whole_reals : Reals
whole_reals = record {
  Float = ℕ;
  of_int = λ n. n;
  neg = λ a. a;
  add = λ a b. a + b;
  mul = λ a b. a * b;
  div = λ a b. a / b;
  sqrt = λ a. a;
  is_zero = λ a. a == 0;
  leb = leb;
  round = λ a digits. a;
}

whole_order : IsOrdered whole_reals
whole_order = record {
  total = λ a b h. ground (arith, h);
  trans = λ a b c h h'. ground (arith, h, h');
}

abbrev rule_of : String → String → ℕ → VectorRecord ℕ
rule_of id text weight = record {
  chunk_id = id;
  document_id = "7";
  text = text;
  embedding = weight ∷ [];
  filename = some "rules.txt";
}

abbrev rules : Records ℕ
rules =
    ("1", rule_of "1" "Verify identity." 3)
    ∷ ("22", rule_of "22" "Keep records." 9)
    ∷ ("333", rule_of "333" "Report cash." 5)
    ∷ []

query-best_example :
    (rest : List (ScoredRecord ℕ)) × Perm
      (query whole_reals (2 ∷ []) 2 rules ++ rest)
      (score_all whole_reals (2 ∷ []) rules)
    × (length (query whole_reals (2 ∷ []) 2 rules) ≡ 2)
    × IsDescending whole_reals (query whole_reals (2 ∷ []) 2 rules)
    × AreBest whole_reals whole_order (query whole_reals (2 ∷ []) 2 rules) rest
query-best_example = query-best whole_reals whole_order (2 ∷ []) 2 rules

abbrev ask_rules : ComplianceInput
ask_rules = record { question = "What is kept?"; top_k = 2 }

abbrev answer_rules : Result ComplianceOutput × ℕ
answer_rules = run whole_reals (λ id. ok (size id)) (λ text. 2 ∷ []) "Cite." none rules ask_rules 0

abbrev output_or : ComplianceOutput → Result ComplianceOutput → ComplianceOutput
output_or default (ok out) = out
output_or default (err e) = default

abbrev answered : ComplianceOutput
answered =
    output_or
      (record { question = ""; answer = ""; citations = []; grounded = false; model_used = none })
      answer_rules.0

rules_answered : answer_rules.0 ≡ ok answered
unfolding run
rules_answered = refl

run-IsGrounded_example :
    IsGrounded whole_reals
      (λ id. ok (size id))
      (λ text. 2 ∷ [])
      "Cite."
      {S = ℕ}
      none
      rules
      ask_rules
      0
      answered
run-IsGrounded_example =
    run-IsGrounded whole_reals (λ id. ok (size id)) (λ text. 2 ∷ []) "Cite." {S = ℕ} none rules
      ask_rules 0 answered rules_answered

two_keys : SameEntries (("b", str "2") ∷ ("a", str "1") ∷ []) (("a", str "1") ∷ ("b", str "2") ∷ [])
two_keys = exchange (λ h. ground (arith, h, eq_iff "b" "a"))

run-same_example :
    Audit.run
      (λ text. "sha:" <> text)
      (record { workflow_id = "7"; evidence = ("b", str "2") ∷ ("a", str "1") ∷ [] })
    ≡ Audit.run
        (λ text. "sha:" <> text)
        (record { workflow_id = "7"; evidence = ("a", str "1") ∷ ("b", str "2") ∷ [] })
run-same_example = run-same (λ text. "sha:" <> text) "7" two_keys

bundle_text :
    (Audit.run
      (λ text. text)
      (record {
        workflow_id = "7";
        evidence = ("b", str "2") ∷ ("a", str "1") ∷ [];
      })).canonical_json
    ≡ "{\"a\":\"1\",\"b\":\"2\"}"
unfolding Audit.run
bundle_text = refl

abbrev empty_iam : Iam
empty_iam = record { permissions = []; roles = []; users = []; next_id = 0 }

seed_admin_example :
    IsSeeded (seed_admin (λ p. p) "admin@local.dev" "pw" empty_iam).1
    × IsAdministrator
        (λ p. p)
        "admin@local.dev"
        "pw"
        empty_iam
        (seed_admin (λ p. p) "admin@local.dev" "pw" empty_iam).0
        (seed_admin (λ p. p) "admin@local.dev" "pw" empty_iam).1.users
    × (get_by_email "admin@local.dev" (seed_admin (λ p. p) "admin@local.dev" "pw" empty_iam).1.users
        ≡ some (seed_admin (λ p. p) "admin@local.dev" "pw" empty_iam).0)
    × (seed_admin
          (λ p. p)
          "admin@local.dev"
          "pw"
          (seed_admin (λ p. p) "admin@local.dev" "pw" empty_iam).1
        ≡ seed_admin (λ p. p) "admin@local.dev" "pw" empty_iam)
seed_admin_example = seed_admin_lem (λ p. p) "admin@local.dev" "pw" empty_iam

abbrev sizes : Digest
sizes = record { first_four = size; fifth_is_odd = λ token. false }

embed-Dimensions_example :
    (vec : List ℕ) × (embed whole_reals sizes 4 "Know your customer" ≡ ok vec) × (length vec ≡ 4)
embed-Dimensions_example = embed-Dimensions whole_reals sizes 4 "Know your customer" (omega arith)

abbrev sqlite : DatabaseSettings
sqlite = record {
  database_url = "sqlite+aiosqlite://";
  database_pool_size = 10;
  database_max_overflow = 20;
  database_echo = false;
}

abbrev restarted : Process
restarted = (init_engine sqlite (dispose_engine (init_engine sqlite begun).1)).1

restarted-Reach : Reach restarted
restarted-Reach = inits sqlite (disposes (inits sqlite start))

get_sessionmaker-Reach_example :
    (get_sessionmaker sqlite restarted
      ≡ (ok (init_engine sqlite restarted).0, (init_engine sqlite restarted).1))
    × (init_engine sqlite (init_engine sqlite restarted).1 ≡ init_engine sqlite restarted)
get_sessionmaker-Reach_example = get_sessionmaker-Reach sqlite sqlite restarted-Reach
