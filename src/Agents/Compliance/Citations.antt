-- ===== src/Agents/Compliance/Citations.antt =====
-- What an answer of the compliance agent cites.
use banking_ai_platform.Prelude.{
  ℕ, suc, ◌+◌, ◌≤◌, String, show, not, is_nil, Option, none, some, List, [], ◌∷◌, length, All, Any,
  Any-imp, ◌≡◌, refl, sym, ap, ◌∙◌, subst, arith,
}
use banking_ai_platform.Core.Errors.{Result, ok, err, err_ok, ok_inj}
use banking_ai_platform.Db.Session.{and_then-ok}
use banking_ai_platform.Ai.VectorStore.{Reals, Records, VectorRecord, ScoredRecord, query}
use banking_ai_platform.Ai.VectorStore.Ranking.{query-stored, length-query}
use banking_ai_platform.Agents.Retrieval
use banking_ai_platform.Agents.Retrieval.{SearchHit, RetrievalOutput, hit_of, hits_of}
use banking_ai_platform.Agents.Summarization.{Ask}
use banking_ai_platform.Agents.Compliance.{
  Citation, ComplianceInput, ComplianceOutput, cite, cite_all, synthesis_request, respond,
  respond_to, run,
}

-- The citation repeats a record: its ids, as `uuid.UUID` reads and `str` prints them, its text and
-- its file name.
pub record Quotes {F : Type 0} (uuid : String → Result ℕ) (r : VectorRecord F) (c : Citation)
    : Type 0 where
  pub document : ℕ
  pub chunk : ℕ
  pub document_read : uuid r.document_id ≡ ok document
  pub chunk_read : uuid r.chunk_id ≡ ok chunk
  pub document_id : c.document_id ≡ show document
  pub chunk_id : c.chunk_id ≡ show chunk
  pub text : c.text ≡ r.text
  pub filename : c.filename ≡ r.filename

-- The citations are numbered from `i` on.
abbrev pub AreMarked : ℕ → List Citation → Type 0
AreMarked i [] = Unit
AreMarked i (c ∷ cs) = (c.marker ≡ i) × AreMarked (i + 1) cs

module _ (re : Reals) (uuid : String → Result ℕ) where
  abbrev Hit : (P : ScoredRecord re.Float → Type 0) → SearchHit re.Float → Type 0
  Hit P h = (x : ScoredRecord re.Float) × P x × (hit_of re uuid x ≡ ok h)

  bind-ok :
      {A B : Type 0} (r : Result A) (f : A → Result B) (b : B)
      → Retrieval.◌>>=◌ r f ≡ ok b
      → (a : A) × (r ≡ ok a) × (f a ≡ ok b)
  bind-ok (ok a) f b h = (a, refl, h)
  bind-ok (err e) f b h = absurd (err_ok h)

  hits_of-Hit :
      (P : ScoredRecord re.Float → Type 0) (xs : List (ScoredRecord re.Float))
      (hits : List (SearchHit re.Float))
      → All P xs
      → hits_of re uuid xs ≡ ok hits
      → All (Hit P) hits × (length hits ≡ length xs)
  hits_of-Hit P [] hits all h = subst (λ hs. All (Hit P) hs × (length hs ≡ 0)) (ok_inj h) (tt, refl)
  hits_of-Hit P (x ∷ xs) hits all h =
      let (hit, e, h') = bind-ok (hit_of re uuid x) _ hits h in
      let (more, e', h'') = bind-ok (hits_of re uuid xs) _ hits h' in
      let (rest, len) = hits_of-Hit P xs more all.1 e' in
      subst (λ hs. All (Hit P) hs × (length hs ≡ suc (length xs))) (ok_inj h'')
        (((x, all.0, e), rest), ap suc len)

  Quotes-hit :
      (x : ScoredRecord re.Float) (h : SearchHit re.Float) (i : ℕ)
      → hit_of re uuid x ≡ ok h
      → Quotes uuid x.scored (cite i h)
  Quotes-hit x h i e =
      let (document, read, e') = bind-ok (uuid x.scored.document_id) _ h e in
      let (chunk, read', e'') = bind-ok (uuid x.scored.chunk_id) _ h e' in
      subst (λ k. Quotes uuid x.scored (cite i k)) (ok_inj e'')
        (record {
          document = document;
          chunk = chunk;
          document_read = read;
          chunk_read = read';
          document_id = refl;
          chunk_id = refl;
          text = refl;
          filename = refl;
        })

  abbrev pub IsCited : Records re.Float → Citation → Type 0
  IsCited store c = Any (λ e. Quotes uuid e.1 c) store

  IsCited-cite :
      (store : Records re.Float) (h : SearchHit re.Float) (i : ℕ)
      → Hit (λ x. Any (λ e. e.1 ≡ x.scored) store) h
      → IsCited store (cite i h)
  IsCited-cite store h i (x, m, e) =
      Any-imp (λ r. r.1 ≡ x.scored) (λ r. Quotes uuid r.1 (cite i h)) store
        (λ r same. subst (λ y. Quotes uuid y (cite i h)) (sym same) (Quotes-hit x h i e)) m

  cite_all-IsCited :
      (store : Records re.Float) (hits : List (SearchHit re.Float)) (i : ℕ)
      → All (Hit (λ x. Any (λ e. e.1 ≡ x.scored) store)) hits
      → All (IsCited store) (cite_all i hits)
        × AreMarked (i + 1) (cite_all i hits)
        × (length (cite_all i hits) ≡ length hits)
  unfolding cite_all
  cite_all-IsCited store [] i all = (tt, tt, refl)
  cite_all-IsCited store (h ∷ hits) i all =
      let (cited, marked, len) = cite_all-IsCited store hits (i + 1) all.1 in
      ((IsCited-cite store h i all.0, cited), (refl, marked), ap suc len)

respond-citations :
    {S : Type 0} (prompt : String) (router : Option (Ask S)) (payload : ComplianceInput)
    (cs : List Citation) (s : S) (out : ComplianceOutput)
    → (respond prompt router payload cs s).0 ≡ ok out
    → (out.citations ≡ cs) × (out.grounded ≡ not (is_nil cs))
unfolding respond
respond-citations prompt router payload [] s out h = let same = ok_inj h in rw (← same) (refl, refl)
respond-citations prompt none payload (c ∷ cs) s out h =
    let same = ok_inj h in rw (← same) (refl, refl)
respond-citations prompt (some ask) payload (c ∷ cs) s out h =
    let (r, asked, answered) =
      and_then-ok (ask (synthesis_request prompt payload (c ∷ cs)) s).0 _
        (ask (synthesis_request prompt payload (c ∷ cs)) s).1 out h in
    let same = ok_inj answered in rw (← same) (refl, refl)

module _ (re : Reals) (uuid : String → Result ℕ) (embed : String → List re.Float) (prompt : String)
    {S : Type 0} (router : Option (Ask S)) (store : Records re.Float) (payload : ComplianceInput)
    (s : S) where
  abbrev found : Result (RetrievalOutput re.Float)
  found =
      Retrieval.run re uuid embed (record { query = payload.question; top_k = payload.top_k }) store

  abbrev pub IsGrounded : ComplianceOutput → Type 0
  IsGrounded out =
      All (IsCited re uuid store) out.citations
      × AreMarked 1 out.citations
      × (length out.citations ≤ payload.top_k)
      × (out.grounded ≡ not (is_nil out.citations))

  IsGrounded-found :
      (r : Result (RetrievalOutput re.Float)) (out : ComplianceOutput)
      → found ≡ r
      → (respond_to re uuid embed prompt router payload r s).0 ≡ ok out
      → IsGrounded out
  unfolding Retrieval.run
  IsGrounded-found (err e) out f h = absurd (err_ok h)
  IsGrounded-found (ok retrieval) out f h =
      let (same, grounded) =
        respond-citations prompt router payload (cite_all 0 retrieval.hits) s out h in
      let scored = query re (embed payload.question) payload.top_k store in
      let (hits, e, e') = bind-ok re uuid (hits_of re uuid scored) _ retrieval f in
      let (are_hits, len) =
        hits_of-Hit re uuid (λ x. Any (λ e. e.1 ≡ x.scored) store) scored hits
          (query-stored re (embed payload.question) payload.top_k store) e in
      let (cited, marked, len') = cite_all-IsCited re uuid store hits 0 are_hits in
      let same' : out.citations ≡ cite_all 0 hits =
        same ∙ ap (cite_all 0) (sym (ap (λ (o : RetrievalOutput re.Float). o.hits) (ok_inj e'))) in
      (
        subst (All (IsCited re uuid store)) (sym same') cited,
        subst (AreMarked 1) (sym same') marked,
        omega (
          arith,
          ap length same',
          len',
          len,
          length-query re (embed payload.question) payload.top_k store,
        ),
        grounded ∙ ap (λ cs. not (is_nil cs)) (sym same),
      )

  -- An answer of the compliance agent cites what is stored: each citation repeats the ids, the text
  -- and the file name of a record of the store. The citations are numbered from one, there are no
  -- more of them than were asked for, and the answer counts as grounded exactly when there are any.
  pub run-IsGrounded :
      (out : ComplianceOutput)
      → (run re uuid embed prompt router store payload s).0 ≡ ok out
      → IsGrounded out
  unfolding run
  run-IsGrounded out h = IsGrounded-found found out refl h
