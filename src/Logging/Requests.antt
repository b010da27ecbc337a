-- ===== src/Logging/Requests.antt =====
-- src/core/middleware/requestLogger.middleware.ts and src/core/cls/cls.service.ts: a request that
-- passes the middleware, the server behind it, and the `finish` event of the response. The clock is
-- an argument, and so is the way in which JavaScript writes a number in a template.
use coupang_eats_backend_v.Base.{
  ℕ, ◌-◌, String, ◌≡◌, refl, ap, Option, none, some, List, [], ◌∷◌, ◌++◌, ◌<>◌, ◌==◌, if◌then◌else◌,
}
use coupang_eats_backend_v.Logging.Service.{
  Logged, logged_object, at_info, Entry, Journal, LoggerService, format, entry, info,
}

-- headers, the last one that was set first
abbrev pub Headers : Type 0
Headers = List (String × String)

abbrev pub header_of : String → Headers → Option String
header_of k [] = none
header_of k ((j, v) ∷ hs) = if j == k then some v else header_of k hs

-- what the middleware reads of a request, with a body and a query of any shape
pub record LoggedRequest (B Q : Type 0) : Type 0 where
  pub method : String
  pub original_url : String
  pub body : B
  pub query : Q
  pub ip : Option String

-- the objects of the two log calls
pub data Line (B Q : Type 0) : Type 0 where
  started :
      (request_id method url : String) (body : B) (query : Q) (ip user_agent : Option String)
      → Line B Q
  finished : (request_id method url : String) (status_code duration : ℕ) → Line B Q

pub record Exchange (B Q : Type 0) : Type 0 where
  pub request_headers : Headers
  pub response_headers : Headers
  pub journal : Journal (Line B Q)

module _ {B Q : Type 0} (v7 : ℕ → String) (number_text : ℕ → String) (s : LoggerService) where
  abbrev pub start_line : String → LoggedRequest B Q → Headers → Logged (Line B Q)
  start_line request_id request headers = logged_object (
      started request_id request.method request.original_url request.body request.query request.ip
        (header_of "user-agent" headers))

  abbrev pub start_message : LoggedRequest B Q → String
  start_message request = "Start Request: " <> request.method <> " " <> request.original_url

  -- `use` up to `next`, for the id of `RequestContextService.getRequestId`
  unfoldable pub use_middleware : String → LoggedRequest B Q → Exchange B Q → Exchange B Q
  use_middleware request_id request x =
      let request_headers = ("x-request-id", request_id) ∷ x.request_headers in
      record {
        request_headers = request_headers;
        response_headers = ("X-Request-ID", request_id) ∷ x.response_headers;
        journal =
            info v7 s "RequestLoggerMiddleware" (start_line request_id request request_headers)
              (start_message request) x.journal;
      }

  abbrev pub finish_line : String → LoggedRequest B Q → ℕ → ℕ → Logged (Line B Q)
  finish_line request_id request status_code duration =
      logged_object (finished request_id request.method request.original_url status_code duration)

  abbrev pub finish_message : LoggedRequest B Q → ℕ → ℕ → String
  finish_message request status_code duration =
      "Finish Request: "
      <> request.method
      <> " "
      <> request.original_url
      <> " "
      <> number_text status_code
      <> " - "
      <> number_text duration
      <> "ms"

  -- the listener of `finish`, for the start time, the time and the status
  unfoldable pub on_finish : String → LoggedRequest B Q → ℕ → ℕ → ℕ → Exchange B Q → Exchange B Q
  on_finish request_id request start_time now status_code x =
      let duration = now - start_time in
      record x {
        journal =
            info v7 s "RequestLoggerMiddleware"
              (finish_line request_id request status_code duration)
              (finish_message request status_code duration) x.journal;
      }

  unfoldable pub at_end :
      String → LoggedRequest B Q → ℕ → Option (ℕ × ℕ) → Exchange B Q → Exchange B Q
  at_end request_id request start_time none x = x
  at_end request_id request start_time (some (status_code, now)) x =
      on_finish request_id request start_time now status_code x

  -- a request on its way: `next` is the server behind the middleware, which gives the status and the
  -- time of the `finish` event, if the response finishes
  unfoldable pub serve_logged :
      String
      → LoggedRequest B Q
      → ℕ
      → (Exchange B Q → Option (ℕ × ℕ) × Exchange B Q)
      → Exchange B Q
      → Exchange B Q
  serve_logged request_id request start_time next x =
      let r = next (use_middleware request_id request x) in
      at_end request_id request start_time r.0 r.1

  -- the server behind the middleware adds entries, and sets headers other than the id's
  pub record Behaves (next : Exchange B Q → Option (ℕ × ℕ) × Exchange B Q) : Type 0 where
    pub writes :
        (x : Exchange B Q)
        → (es : List (Entry (Line B Q))) × ((next x).1.journal.entries ≡ es ++ x.journal.entries)
    pub keeps :
        (x : Exchange B Q)
        → header_of "X-Request-ID" (next x).1.response_headers
          ≡ header_of "X-Request-ID" x.response_headers

  pub record Traced (request_id : String) (request : LoggedRequest B Q)
      (start_time now status_code : ℕ) (x y : Exchange B Q) : Type 0 where
    pub between : List (Entry (Line B Q))
    pub first : Entry (Line B Q)
    pub last : Entry (Line B Q)
    pub entries : y.journal.entries ≡ last ∷ (between ++ (first ∷ x.journal.entries))
    pub start :
        first.log.log_data
        ≡ some (
            started request_id request.method request.original_url request.body request.query
              request.ip
              (header_of "user-agent" x.request_headers))
    pub finish :
        last.log.log_data
        ≡ some
            (finished request_id request.method request.original_url status_code (now - start_time))
    pub told : header_of "X-Request-ID" y.response_headers ≡ some request_id

  module _ (request_id : String) (request : LoggedRequest B Q) (start_time now status_code : ℕ)
      (next : Exchange B Q → Option (ℕ × ℕ) × Exchange B Q) (x : Exchange B Q)
      (behaves : Behaves next) where
    on_finish-Traced : Traced request_id request start_time now status_code x (
        on_finish request_id request start_time now status_code
          (next (use_middleware request_id request x)).1)
    unfolding use_middleware on_finish info format
    on_finish-Traced =
        let y = use_middleware request_id request x in
        let ending =
          entry v7 s at_info "RequestLoggerMiddleware"
            (finish_line request_id request status_code (now - start_time))
            (finish_message request status_code (now - start_time)) (next y).1.journal.drawn in
        record {
          between = (behaves.writes y).0;
          first =
              entry v7 s at_info "RequestLoggerMiddleware"
                (start_line request_id request y.request_headers) (start_message request)
                x.journal.drawn;
          last = ending;
          entries = ap (λ l. ending ∷ l) (behaves.writes y).1;
          start = refl;
          finish = refl;
          told = behaves.keeps y;
        }

    -- For a request whose response finishes, behind a server that only adds entries to the log and
    -- leaves the header X-Request-ID alone: the log has two new entries of the middleware around those
    -- of the server. The first one has the method, the URL, the body, the query, the address and the
    -- user agent of the request as it came, the last one the status and the time that it took, and both have the id that the client finds in the header.
    pub serve_logged-Traced :
        (next (use_middleware request_id request x)).0 ≡ some (status_code, now)
        → Traced request_id request start_time now status_code x
            (serve_logged request_id request start_time next x)
    unfolding serve_logged at_end
    serve_logged-Traced ends = rw ends on_finish-Traced
