-- ===== src/Gateway/Upstream/Built.antt =====
-- What `build_upstream_request` puts together, over any map of headers.
use trace_gate.Base.{some, ◌++◌, ◌≡◌, ok, >>=-eq-ok, ok_or-eq-ok, arith}
use trace_gate.Text.{Text}
use trace_gate.Core.Config.{Upstream, origin}
use trace_gate.Gateway.Headers.{HeaderMap}
use trace_gate.Gateway.Upstream.{
  Http, RequestTemplate, UpstreamRequest, upstream_headers, build_upstream_request, header_value,
  path_or_root, to_build_error,
}

module _ (H : HeaderMap) (http : Http H) where
  -- The parts of a request for an upstream.
  pub record IsBuilt (t : RequestTemplate H) (upstream : Upstream) (id remote_ip : Text)
      (r : UpstreamRequest H) : Type 0 where
    pub method : r.method ≡ t.method
    pub version : r.version ≡ t.version
    pub uri : http.parse_uri (origin upstream ++ path_or_root t.path_and_query) ≡ ok r.uri
    pub headers :
        (host ip : H.Value) × (H.from_str upstream.authority ≡ some host)
        × (H.from_str remote_ip ≡ some ip)
        × (r.headers ≡ upstream_headers H http t host id ip)

  pub build_upstream_request-IsBuilt :
      (t : RequestTemplate H) (upstream : Upstream) (id remote_ip : Text) (r : UpstreamRequest H)
      → build_upstream_request H http t upstream id remote_ip ≡ ok r
      → IsBuilt t upstream id remote_ip r
  unfolding build_upstream_request header_value
  build_upstream_request-IsBuilt t upstream id remote_ip r h =
      let (uri, parsed, h1) =
        >>=-eq-ok
          (to_build_error H http
            (http.parse_uri (origin upstream ++ path_or_root t.path_and_query)))
          _ h in
      let (host, has_host, h2) = >>=-eq-ok (header_value H http upstream.authority) _ h1 in
      let (ip, has_ip, h3) = >>=-eq-ok (header_value H http remote_ip) _ h2 in
      record {
        method = ground arith;
        version = ground arith;
        uri = ground arith;
        headers = (
          host,
          ip,
          ok_or-eq-ok (H.from_str upstream.authority) _ has_host,
          ok_or-eq-ok (H.from_str remote_ip) _ has_ip,
          ground arith,
        );
      }
