-- ===== src/Observe/Middleware.antt =====
-- The HTTP middleware of pkg/monitoring/monitoring.go. The handler that it wraps is a run that ends
-- with the codes it gave to WriteHeader, in order; `printed` is the text of a number in a format.
pub mod Status
use jit_bot.Base.{
  ℕ, ◌/◌, Bool, List, [], ◌∷◌, ◌++◌, Option, none, some, Bytes, codes, leb, if◌then◌else◌,
}
use jit_bot.Observe.Run.{
  Run, pure, emits, deferring, Call, extract, set_attributes, end, ◌>>=◌, ◌>>◌,
}
use jit_bot.Observe.Spans.{
  text_attribute, number_attribute, extract_trace_context, start_span, set_span_status,
}

pub record HttpRequest : Type 0 where
  pub method : Bytes
  pub path : Bytes
  pub url : Bytes
  pub user_agent : Bytes
  pub headers : List (Bytes × List Bytes)

-- The writer that the handler sees: the recorded code, and the codes passed on to the server's.
pub record ResponseWriter : Type 0 where
  pub status_code : ℕ
  pub passed_on : List ℕ

unfoldable pub write_header : ResponseWriter → ℕ → ResponseWriter
write_header writer code = record { status_code = code; passed_on = writer.passed_on ++ code ∷ [] }

unfoldable pub write_headers : ResponseWriter → List ℕ → ResponseWriter
unfolding write_header
write_headers writer [] = writer
write_headers writer (code ∷ rest) = write_headers (write_header writer code) rest

abbrev pub wrapped : ResponseWriter
wrapped = record { status_code = 200; passed_on = [] }

-- The first value of each header that has one.
unfoldable pub extract_headers_map : List (Bytes × List Bytes) → List (Bytes × Bytes)
extract_headers_map [] = []
extract_headers_map ((key, []) ∷ rest) = extract_headers_map rest
extract_headers_map ((key, value ∷ values) ∷ rest) = (key, value) ∷ extract_headers_map rest

-- The calls behind the handler.
unfoldable pub request_status : {E : Type 0} → (ℕ → Bytes) → ℕ → ℕ → ℕ → List (Call E)
unfolding set_span_status
request_status printed span status_code duration =
    set_attributes span (
      number_attribute (codes "http.status_code") status_code
      ∷ number_attribute (codes "http.duration_ms") (duration / 1000000)
      ∷ [])
    ∷ (if leb 400 status_code
        then set_span_status span none (codes "HTTP " ++ printed status_code)
        else set_span_status span none (codes "HTTP request completed"))

module _ {E S : Type 0} (printed : ℕ → Bytes) where
  unfoldable pub http_middleware : HttpRequest → ℕ → (ℕ → Run E S (List ℕ)) → Run E S ResponseWriter
  unfolding extract_trace_context start_span request_status write_headers extract_headers_map
  http_middleware r duration next = do
    extract_trace_context (extract_headers_map r.headers)
    span ← start_span (codes "HTTP " ++ (r.method ++ (codes " " ++ r.path))) (
        text_attribute (codes "http.method") r.method
        ∷ text_attribute (codes "http.url") r.url
        ∷ text_attribute (codes "http.user_agent") r.user_agent
        ∷ [])
    deferring (end span ∷ []) (do
      given ← next span
      let writer = write_headers wrapped given
      emits (request_status printed span writer.status_code duration)
      pure writer)
