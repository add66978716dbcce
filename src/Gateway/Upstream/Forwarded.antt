-- ===== src/Gateway/Upstream/Forwarded.antt =====
-- What a forwarded request carries.
use trace_gate.Base.{
  Bool, false, any, Option, none, some, List, [], ◌∷◌, ◌≡◌, refl, ap, ◌∙◌, arith, if◌then◌else◌, ok,
  ◌++◌,
}
use trace_gate.Text.{Text, codes, text_eq}
use trace_gate.Core.Config.{Upstream, origin}
use trace_gate.Gateway.Headers.{HeaderMap, HeaderLaws, hop_by_hop, remove_hop_by_hop_headers}
use trace_gate.Gateway.Headers.Edits.{get-remove_hop_by_hop_headers}
use trace_gate.Gateway.Upstream.{
  Http, RequestTemplate, UpstreamRequest, upstream_headers, build_upstream_request,
  request_id_header_value, forward_host, path_or_root,
}
use trace_gate.Gateway.Upstream.Built.{build_upstream_request-IsBuilt}

-- The headers that tracing may write.
abbrev pub trace_headers : List Text
trace_headers = codes "traceparent" ∷ codes "tracestate" ∷ codes "baggage" ∷ []

-- The headers that the proxy sets.
abbrev pub proxy_headers : List Text
proxy_headers =
    codes "host"
    ∷ codes "x-request-id"
    ∷ codes "x-forwarded-host"
    ∷ codes "x-forwarded-for"
    ∷ codes "x-forwarded-proto"
    ∷ []

abbrev pub named : List Text → Text → Bool
named names n = any (λ x. text_eq x n) names

module _ (H : HeaderMap) (law : HeaderLaws H) (http : Http H) where
  -- The propagator writes no other header.
  abbrev pub OnlyTraces : Type 0
  OnlyTraces =
      (m : H.Map) (n : Text)
      → named trace_headers n ≡ false
      → H.get (http.inject_context m) n ≡ H.get m n

  insert_other :
      (m : H.Map) (x n : Text) (v : H.Value)
      → text_eq x n ≡ false
      → H.get (H.insert m x v) n ≡ H.get m n
  insert_other m x n v h = law.get-insert_ne m x n v h

  forward_host_other :
      (o : Option H.Value) (m : H.Map) (n : Text)
      → text_eq (codes "x-forwarded-host") n ≡ false
      → H.get (forward_host H http o m) n ≡ H.get m n
  forward_host_other none m n h = refl
  forward_host_other (some v) m n h = law.get-insert_ne m (codes "x-forwarded-host") n v h

  module _ (t : RequestTemplate H) (host : H.Value) (id : Text) (ip : H.Value) where
    abbrev stripped : H.Map
    stripped = remove_hop_by_hop_headers H t.headers

    abbrev with_host : H.Map
    with_host = H.insert stripped (codes "host") host

    abbrev with_id : H.Map
    with_id = H.insert with_host (codes "x-request-id") (request_id_header_value H http id)

    abbrev with_client_host : H.Map
    with_client_host = forward_host H http (H.get t.headers (codes "host")) with_id

    abbrev with_ip : H.Map
    with_ip = H.insert with_client_host (codes "x-forwarded-for") ip

    abbrev whole : H.Map
    whole = H.insert with_ip (codes "x-forwarded-proto") (http.static_value (codes "http"))

    abbrev pub headers_sent : H.Map
    headers_sent = upstream_headers H http t host id ip

    pub record IsForwarded : Type 0 where
      pub to_host : H.get headers_sent (codes "host") ≡ some host
      pub request_id :
          H.get headers_sent (codes "x-request-id") ≡ some (request_id_header_value H http id)
      pub client : H.get headers_sent (codes "x-forwarded-for") ≡ some ip
      pub proto :
          H.get headers_sent (codes "x-forwarded-proto") ≡ some (http.static_value (codes "http"))
      pub client_host :
          (v : H.Value)
          → H.get t.headers (codes "host") ≡ some v
          → H.get headers_sent (codes "x-forwarded-host") ≡ some v
      pub others :
          (n : Text)
          → named trace_headers n ≡ false
          → named proxy_headers n ≡ false
          → H.get headers_sent n ≡ (if named hop_by_hop n then none else H.get t.headers n)

    module _ (only : OnlyTraces) where
      traced : (n : Text) → named trace_headers n ≡ false → H.get headers_sent n ≡ H.get whole n
      unfolding upstream_headers
      traced n h = only whole n h

      past_proto :
          (n : Text)
          → named trace_headers n ≡ false
          → text_eq (codes "x-forwarded-proto") n ≡ false
          → H.get headers_sent n ≡ H.get with_ip n
      past_proto n h p = traced n h ∙ law.get-insert_ne with_ip (codes "x-forwarded-proto") n _ p

      past_ip :
          (n : Text)
          → named trace_headers n ≡ false
          → text_eq (codes "x-forwarded-proto") n ≡ false
          → text_eq (codes "x-forwarded-for") n ≡ false
          → H.get headers_sent n ≡ H.get with_client_host n
      past_ip n h p q =
          past_proto n h p ∙ law.get-insert_ne with_client_host (codes "x-forwarded-for") n ip q

      past_client_host :
          (n : Text)
          → named trace_headers n ≡ false
          → text_eq (codes "x-forwarded-proto") n ≡ false
          → text_eq (codes "x-forwarded-for") n ≡ false
          → text_eq (codes "x-forwarded-host") n ≡ false
          → H.get headers_sent n ≡ H.get with_id n
      past_client_host n h p q r =
          past_ip n h p q ∙ forward_host_other (H.get t.headers (codes "host")) with_id n r

      others_sent :
          (n : Text)
          → named trace_headers n ≡ false
          → named proxy_headers n ≡ false
          → H.get headers_sent n ≡ (if named hop_by_hop n then none else H.get t.headers n)
      others_sent n h p =
          past_client_host n h (ground arith) (ground arith) (ground arith)
          ∙ law.get-insert_ne with_host (codes "x-request-id") n _ (ground arith)
          ∙ law.get-insert_ne stripped (codes "host") n host (ground arith)
          ∙ get-remove_hop_by_hop_headers H law n t.headers

      host_sent : H.get headers_sent (codes "host") ≡ some host
      unfolding text_eq
      host_sent =
          past_client_host (codes "host") refl refl refl refl
          ∙ law.get-insert_ne with_host (codes "x-request-id") (codes "host") _ refl
          ∙ law.get-insert_self stripped (codes "host") host

      id_sent : H.get headers_sent (codes "x-request-id") ≡ some (request_id_header_value H http id)
      unfolding text_eq
      id_sent =
          past_client_host (codes "x-request-id") refl refl refl refl
          ∙ law.get-insert_self with_host (codes "x-request-id") _

      ip_sent : H.get headers_sent (codes "x-forwarded-for") ≡ some ip
      unfolding text_eq
      ip_sent =
          past_proto (codes "x-forwarded-for") refl refl
          ∙ law.get-insert_self with_client_host (codes "x-forwarded-for") ip

      proto_sent :
          H.get headers_sent (codes "x-forwarded-proto") ≡ some (http.static_value (codes "http"))
      unfolding text_eq
      proto_sent =
          traced (codes "x-forwarded-proto") refl
          ∙ law.get-insert_self with_ip (codes "x-forwarded-proto") _

      client_host_sent :
          (v : H.Value)
          → H.get t.headers (codes "host") ≡ some v
          → H.get headers_sent (codes "x-forwarded-host") ≡ some v
      unfolding text_eq
      client_host_sent v e =
          past_ip (codes "x-forwarded-host") refl refl refl
          ∙ ap (λ o. H.get (forward_host H http o with_id) (codes "x-forwarded-host")) e
          ∙ law.get-insert_self with_id (codes "x-forwarded-host") v

      -- If tracing writes no header but its own three, a request to an upstream carries the upstream's
      -- host, the request id, the client's address, its host if it sent one, and `http` as the
      -- protocol; no hop-by-hop header; and every other header as it was received.
      pub upstream_headers-IsForwarded : IsForwarded
      upstream_headers-IsForwarded = record {
        to_host = host_sent;
        request_id = id_sent;
        client = ip_sent;
        proto = proto_sent;
        client_host = client_host_sent;
        others = others_sent;
      }

  -- Every request that is built has the method and version of the client's, the URI that parses from
  -- the upstream's origin and the client's path, and headers as they are to be forwarded, with the
  -- values of the upstream's authority and of the client's address. Tracing writes no header but
  -- its own three.
  pub build_upstream_request-IsForwarded :
      OnlyTraces
      → (t : RequestTemplate H) (upstream : Upstream) (id remote_ip : Text) (r : UpstreamRequest H)
      → build_upstream_request H http t upstream id remote_ip ≡ ok r
      → (r.method ≡ t.method)
        × (r.version ≡ t.version)
        × (http.parse_uri (origin upstream ++ path_or_root t.path_and_query) ≡ ok r.uri)
        × ((host ip : H.Value) × (H.from_str upstream.authority ≡ some host)
            × (H.from_str remote_ip ≡ some ip)
            × (r.headers ≡ headers_sent t host id ip)
            × IsForwarded t host id ip)
  build_upstream_request-IsForwarded only t upstream id remote_ip r h =
      let b = build_upstream_request-IsBuilt H http t upstream id remote_ip r h in
      let (host, ip, has_host, has_ip, headers) = b.headers in
      (
        b.method,
        b.version,
        b.uri,
        (host, ip, has_host, has_ip, headers, upstream_headers-IsForwarded t host id ip only),
      )
