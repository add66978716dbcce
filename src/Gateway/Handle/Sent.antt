-- ===== src/Gateway/Handle/Sent.antt =====
-- What holds of the requests that the attempts send.
use trace_gate.Gateway.Handle.{RequestContext, Request, World}
use trace_gate.Gateway.Handle.Attempts.{
  empty_body, sent_by, template_of, attempt, retried, attempted,
}
use trace_gate.Base.{
  ℕ, zero, suc, ◌≤◌, some, List, [], ◌∷◌, ◌++◌, length, length-append, All, Result, ok, err, ◌≡◌,
  refl, sym, ◌∙◌, subst, arith, Bool-cases, inl, inr, ◌⊎◌, if◌then◌else◌,
}
use trace_gate.Core.Config.{Route, Upstream, origin}
use trace_gate.Policy.Engine.{PolicyEvaluation}
use trace_gate.Gateway.Capture.{Hasher}
use trace_gate.Gateway.Preview.{PrefixBody}
use trace_gate.Gateway.Headers.{HeaderMap, apply_policy_mutations, retry_eligible}
use trace_gate.Gateway.Upstream.{
  AttemptError, Call, elapsed, failed, answered, RequestTemplate, UpstreamRequest, Response,
  SentRequest, Exchange, answer, exchange, request_once, request_with_retries,
  build_upstream_request, upstream_headers, path_or_root,
}
use trace_gate.Gateway.Upstream.Built.{build_upstream_request-IsBuilt}
use trace_gate.Gateway.Upstream.Retries.{Outcome, request_with_retries-Outcome}

module _ {A : Type 0} (P : A → Type 0) where
  abbrev pub Any : List A → Type 0
  Any [] = ⊥
  Any (x ∷ xs) = P x ⊎ Any xs

  All-append : (xs ys : List A) → All P xs → All P ys → All P (xs ++ ys)
  All-append [] ys a b = b
  All-append (x ∷ xs) ys a b = (a.0, All-append xs ys a.1 b)

  Any-append : (xs ys : List A) → Any ys → Any (xs ++ ys)
  Any-append [] ys b = b
  Any-append (x ∷ xs) ys b = inr (Any-append xs ys b)

  All-sent_by : (f : ℕ → List A) → ((i : ℕ) → All P (f i)) → (made : ℕ) → All P (sent_by f made)
  unfolding sent_by
  All-sent_by f each zero = tt
  All-sent_by f each (suc made) =
      All-append (sent_by f made) (f made) (All-sent_by f each made) (each made)

  Any-sent_by : (f : ℕ → List A) (last : ℕ) → Any (f last) → Any (sent_by f (suc last))
  unfolding sent_by
  Any-sent_by f last here = Any-append (sent_by f last) (f last) here

length-sent_by :
    {A : Type 0} (f : ℕ → List A)
    → ((i : ℕ) → length (f i) ≤ 1)
    → (made : ℕ) → length (sent_by f made) ≤ made
unfolding sent_by
length-sent_by f each zero = omega arith
length-sent_by f each (suc made) =
    let before = length-sent_by f each made in
    let here = each made in
    let both = length-append (sent_by f made) (f made) in omega (arith, before, here, both)

module _ (H : HeaderMap) (hasher : Hasher) (w : World H hasher) where
  -- The client answered the request, with this status.
  abbrev pub AnsweredWith : ℕ → SentRequest H → Type 0
  AnsweredWith status s =
      (i : ℕ) × (response : Response H) × (w.client i s ≡ answered response)
      × (status ≡ response.status)

  module _ (context : RequestContext) (request : Request H hasher) (evaluation : PolicyEvaluation)
      (upstream : Upstream) where
    -- The client's request on its way to the upstream, with the edits of the plugins.
    pub record IsSent (body : PrefixBody) (s : SentRequest H) : Type 0 where
      pub method : s.request.method ≡ request.method
      pub version : s.request.version ≡ request.version
      pub uri :
          w.http.parse_uri (origin upstream ++ path_or_root request.path_and_query)
          ≡ ok s.request.uri
      pub headers :
          (host ip : H.Value) × (H.from_str upstream.authority ≡ some host)
          × (H.from_str context.remote_ip ≡ some ip)
          × (s.request.headers
              ≡ upstream_headers H w.http
                  (record {
                    method = request.method;
                    path_and_query = request.path_and_query;
                    version = request.version;
                    headers =
                        apply_policy_mutations H request.headers evaluation.set_headers
                          evaluation.remove_headers;
                  })
                  host
                  context.request_id
                  ip)
      pub same_body : s.body ≡ body

    -- At most so many requests were sent, all of them with this body, and a response is the client's
    -- answer to one of them.
    pub record IsExchange (body : PrefixBody) (most : ℕ) (x : Exchange H) : Type 0 where
      pub sent : All (IsSent body) x.sent
      pub few : length x.sent ≤ most
      pub response : (r : Response H) → x.result ≡ ok r → Any (AnsweredWith r.status) x.sent

    module _ (route : Route) where
      abbrev template : RequestTemplate H
      template = template_of H hasher w context request route evaluation

      answers :
          (i : ℕ) (s : SentRequest H) (call : Call (Response H)) (r : Response H)
          → w.client i s ≡ call
          → answer H w.http context.request_id call ≡ ok r
          → AnsweredWith r.status s
      answers i s elapsed r e h = absurd cc
      answers i s (failed x) r e h = absurd cc
      answers i s (answered response) r e h = (i, response, e, ground arith)

      exchanged :
          (body : PrefixBody) (i : ℕ) (built : Result AttemptError (UpstreamRequest H))
          → build_upstream_request H w.http template upstream context.request_id context.remote_ip
            ≡ built
          → IsExchange body 1 (exchange H w.http (w.client i) context.request_id body built)
      exchanged body i (err e) h = record {
        sent = tt;
        few = omega arith;
        response = λ r e'. absurd cc;
      }
      exchanged body i (ok built) h =
          let b =
            build_upstream_request-IsBuilt H w.http template upstream context.request_id
              context.remote_ip built h in
          record {
            sent = (
              record {
                method = b.method;
                version = b.version;
                uri = b.uri;
                headers = b.headers;
                same_body = refl;
              },
              tt,
            );
            few = omega arith;
            response = λ r e. inl (answers i _ _ r refl e);
          }

      attempt-IsExchange :
          (body : PrefixBody) (i : ℕ)
          → IsExchange body 1 (attempt H hasher w context request route evaluation upstream body i)
      unfolding attempt request_once
      attempt-IsExchange body i = exchanged body i _ refl

      abbrev once : ℕ → Exchange H
      once i = attempt H hasher w context request route evaluation upstream empty_body i

      abbrev result_of : ℕ → Result AttemptError (Response H)
      result_of i = (once i).result

      abbrev sent_of : ℕ → List (SentRequest H)
      sent_of i = (once i).sent

      -- As many attempts as are made, at most, of which a response is the last.
      made_few :
          (attempts : ℕ) (result : Result AttemptError (Response H)) (made : ℕ)
          → Outcome result_of 0 attempts result made
          → made ≤ attempts
      made_few attempts (ok r) made (k, from, below, counted, success, before) = omega arith
      made_few attempts (err e) made (counted, pos, last, before) = omega arith

      last_answers :
          (attempts : ℕ) (result : Result AttemptError (Response H)) (made : ℕ)
          → Outcome result_of 0 attempts result made
          → (r : Response H) → result ≡ ok r
          → Any (AnsweredWith r.status) (sent_by sent_of made)
      last_answers attempts (ok x) made (k, from, below, counted, success, before) r e =
          let here : result_of k ≡ ok r = success ∙ e in
          subst (λ n. Any (AnsweredWith r.status) (sent_by sent_of n)) (sym counted)
            (Any-sent_by (AnsweredWith r.status) sent_of k
              ((attempt-IsExchange empty_body k).response r here))
      last_answers attempts (err x) made o r e = absurd cc

      retried-IsExchange :
          IsExchange empty_body
            (suc route.retries)
            (retried H hasher w context request route evaluation upstream)
      unfolding retried
      retried-IsExchange =
          let run = request_with_retries result_of route.retries in
          let outcome = request_with_retries-Outcome result_of route.retries in
          let made = made_few _ run.0 run.1 outcome in
          let counted = length-sent_by sent_of (λ i. (attempt-IsExchange empty_body i).few) run.1 in
          record {
            sent =
                All-sent_by (IsSent empty_body) sent_of
                  (λ i. (attempt-IsExchange empty_body i).sent) run.1;
            few = omega (arith, made, counted);
            response = last_answers _ run.0 run.1 outcome;
          }

      -- The attempts that the code makes with the body that is left of the request's.
      pub attempted-IsExchange :
          (body : PrefixBody)
          → IsExchange
              (if retry_eligible H request.method request.headers then empty_body else body)
              (if retry_eligible H request.method request.headers then suc route.retries else 1)
              (attempted H hasher w context request route evaluation upstream body)
      unfolding attempted
      attempted-IsExchange body =
          elim (Bool-cases (retry_eligible H request.method request.headers)) [
            | inl e ↦ rw (e, attempted) retried-IsExchange
            | inr e ↦ rw (e, attempted) (attempt-IsExchange body 0)
          ]
