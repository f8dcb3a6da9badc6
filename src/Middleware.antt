-- ===== src/Middleware.antt =====
-- internal/http/middleware: the requests and replies of net/http as far as the middleware reads
-- them, and the middleware that needs no state: recovery.go, bodylimit.go and logging.go.
pub mod Auth
pub mod RateLimit
pub mod Server
use tekton_events_relay.Prelude.{
  ℕ, String, Option, none, some, Map, insert, erase, text_at, ◌<>◌, ◌==◌, if◌then◌else◌,
}

-- `body` is what reading the body to its end gives, none where that fails; `max_body` is the limit
-- that http.MaxBytesReader puts on it. Header names are in their canonical form.
pub record Request : Type 0 where
  pub method : String
  pub remote_addr : String
  pub headers : Map String
  pub body : Option String
  pub max_body : Option ℕ
  pub request_id : Option String

pub record Reply : Type 0 where
  pub status : ℕ
  pub headers : Map String
  pub body : String

-- A handler replies, or panics with the reply's headers as it left them.
pub data Response : Type 0 where
  replied : Reply → Response
  panicked : Map String → Response

-- `W` is the world on which the handlers act; the map is the reply's headers so far.
abbrev pub HttpHandler : Type 0 → Type 0
HttpHandler W = Request → Map String → W → Response × W

-- http.Error
unfoldable pub http_error : ℕ → String → Map String → Response
http_error status message headers = replied (record {
  status = status;
  headers =
      insert "X-Content-Type-Options" "nosniff"
        (insert "Content-Type" "text/plain; charset=utf-8" (erase "Content-Length" headers));
  body = message <> "\n";
})

module _ {W : Type 0} where
  -- Where the handler had written its status before it panicked, net/http keeps that status; the
  -- status of a panic is read as 500 here.
  abbrev pub recovered : Response × W → Response × W
  unfolding http_error
  recovered (replied reply, w) = (replied reply, w)
  recovered (panicked headers, w) = (http_error 500 "Internal Server Error" headers, w)

  unfoldable pub panic_recovery : HttpHandler W → HttpHandler W
  panic_recovery next r headers w = recovered (next r headers w)

  unfoldable pub body_limit : ℕ → HttpHandler W → HttpHandler W
  body_limit max_bytes next r headers w = next (record r { max_body = some max_bytes }) headers w

  -- `fresh_id` is what generateRequestID returns. The log lines are not modelled.
  unfoldable pub request_logging : String → HttpHandler W → HttpHandler W
  request_logging fresh_id next r headers w =
      let given : String = text_at r.headers "X-Request-Id" in
      let id : String = if given == "" then fresh_id else given in
      next (record r { request_id = some id }) (insert "X-Request-Id" id headers) w
