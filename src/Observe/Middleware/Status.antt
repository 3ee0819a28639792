-- ===== src/Observe/Middleware/Status.antt =====
-- What the HTTP middleware of pkg/monitoring/monitoring.go reports of a request.
use jit_bot.Base.{
  ℕ, ◌≡◌, refl, ◌++◌, append_assoc, append-nil, last_or, Bool-cases, leb, inl, inr, List, [], ◌∷◌,
  some, Bytes, codes,
}
use jit_bot.Observe.Run.{
  Attribute, Call, Code, Provider, Process, Run, done, emit, with_span, deferring, ◌>>=◌,
  tracer_start_lem, end, extract,
}
use jit_bot.Observe.Spans.{text_attribute, start_span}
use jit_bot.Observe.Middleware.{
  HttpRequest, ResponseWriter, write_header, write_headers, wrapped, extract_headers_map,
  request_status, http_middleware,
}
use jit_bot.Observe.Track.Calls.{statuses, errors, ends}

-- The recorded code is the last one given, and all of them are passed on.
write_headers_lem :
    (w : ResponseWriter) (given : List ℕ)
    → write_headers w given
      ≡ record { status_code = last_or w.status_code given; passed_on = w.passed_on ++ given }
unfolding write_headers
write_headers_lem w [] = rw append-nil refl
write_headers_lem w (code ∷ rest) =
    rw (write_headers_lem (write_header w code) rest, write_header) (simp append_assoc)

abbrev request_name : HttpRequest → Bytes
request_name r = codes "HTTP " ++ (r.method ++ (codes " " ++ r.path))

abbrev request_attributes : HttpRequest → List Attribute
request_attributes r =
    text_attribute (codes "http.method") r.method
    ∷ text_attribute (codes "http.url") r.url
    ∷ text_attribute (codes "http.user_agent") r.user_agent
    ∷ []

module _ {E S : Type 0} where
  -- The state in which the wrapped handler is called.
  abbrev pub in_request : HttpRequest → Process E S → Process E S
  in_request r w =
      with_span (request_name r) (request_attributes r)
        (emit (extract (extract_headers_map r.headers) ∷ []) w)

module _ {E : Type 0} where
  abbrev pub IsOk : ℕ → List (Call E) → Type 0
  IsOk span calls =
      (statuses calls ≡ (span, Code.ok_code) ∷ []) × (errors calls ≡ []) × (ends calls ≡ span ∷ [])

  request_status-IsOk :
      (printed : ℕ → Bytes) (span code duration : ℕ)
      → IsOk span (request_status printed span code duration ++ end span ∷ [])
  unfolding request_status
  request_status-IsOk printed span code duration = elim (Bool-cases (leb 400 code)) [
    | inl h ↦ rw h (refl, refl, refl)
    | inr h ↦ rw h (refl, refl, refl)
  ]

-- With a tracer the middleware hands on what the handler wrote and records the last code given to
-- WriteHeader, or 200; whatever that code is, an error of the client or of the server included, the
-- span of the request gets the status Ok and no error, and is ended once.
pub http_middleware-IsOk :
    {E S : Type 0} (printed : ℕ → Bytes) (r : HttpRequest) (duration : ℕ)
    (next : ℕ → Run E S (List ℕ)) (w w' : Process E S) (given : List ℕ) {p : Provider}
    → w.tracer ≡ some p
    → next w.spans (in_request r w) ≡ done given w'
    → (calls : List (Call E)) × ((http_middleware printed r duration next w
          ≡ done (record { status_code = last_or 200 given; passed_on = given }) (emit calls w'))
        × IsOk w.spans calls)
unfolding http_middleware
http_middleware-IsOk printed r duration next w w' given h ran = (
  request_status printed w.spans (last_or 200 given) duration ++ end w.spans ∷ [],
  (
    rw
        (
          http_middleware,
          start_span,
          ◌>>=◌,
          tracer_start_lem (request_name r) (request_attributes r)
              (emit (extract (extract_headers_map r.headers) ∷ []) w) h,
          deferring,
          ◌>>=◌,
          ran,
          write_headers_lem wrapped given,
        )
        (simp append_assoc),
    request_status-IsOk printed w.spans (last_or 200 given) duration,
  ),
)
