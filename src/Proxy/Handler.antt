-- ===== src/Proxy/Handler.antt =====
-- `ProxyHandler` of sabah/server/openai_proxy.py. The client stays connected; `route` is the path of
-- `urlsplit`, `dumps` is `json.dumps(...).encode("utf-8")`, and `backend` what the backend answers.
pub mod Received
pub mod Passed
use sabah_mo_e_accelerator.Base.{
  ℕ, Bool, true, false, List, [], ◌∷◌, ◌++◌, ◌||◌, Option, none, some, length, take, if◌then◌else◌,
}
use sabah_mo_e_accelerator.Base.Text.{String, str_eq, starts_with, one_of}
use sabah_mo_e_accelerator.Proxy.Chunks.{frame, last_chunk}
use sabah_mo_e_accelerator.Proxy.Types.{
  Fault, os_error, other_error, Verb, get, post, Length, absent, malformed, number, Request,
  Forwarded, Response, Answer, refused, replied, Header, type_of, length_of, no_store, no_cache,
  keep_alive, chunked, Sent, head, bytes, Served, State, health, Payload, healthy, not_found,
  unavailable,
}

abbrev pub text_or : Option String → String → String
text_or none default = default
text_or (some s) default = s

-- `self.headers.get("Accept", "") == "text/event-stream"` or the type of the answer says so.
unfoldable pub is_stream : Request → String → Bool
is_stream r content_type =
    str_eq (text_or r.accept "") "text/event-stream" || starts_with content_type "text/event-stream"

-- The loop that passes the pieces on: what it sends, and the exception that ends it, if any.
unfoldable pub relay : List (List ℕ) → Option Fault → Served
relay [] none = record { sent = bytes last_chunk ∷ []; raised = none }
relay [] (some f) = record { sent = []; raised = some f }
relay ([] ∷ pieces) broken = record { sent = bytes last_chunk ∷ []; raised = none }
relay ((b ∷ bs) ∷ pieces) broken =
    let rest = relay pieces broken in
    record { sent = bytes (frame (b ∷ bs)) ∷ rest.sent; raised = rest.raised }

-- `resp.read()`
unfoldable pub whole : List (List ℕ) → List ℕ
whole [] = []
whole (piece ∷ pieces) = piece ++ whole pieces

abbrev stream_headers : String → List Header
stream_headers content_type = type_of content_type ∷ no_cache ∷ keep_alive ∷ chunked ∷ []

unfoldable pub reply_stream : Response → String → Served
unfolding relay
reply_stream resp content_type =
    let rest = relay resp.pieces resp.broken in
    record {
      sent = head resp.status (stream_headers content_type) ∷ rest.sent;
      raised = rest.raised;
    }

unfoldable pub reply_whole : Response → String → Served
unfolding whole
reply_whole resp content_type = elim resp.broken [
  | some f ↦ record { sent = []; raised = some f }
  | none ↦
      let body = whole resp.pieces in
      record {
        sent =
            head resp.status (type_of content_type ∷ length_of (length body) ∷ [])
            ∷ bytes body
            ∷ [];
        raised = none;
      }
]

-- The part of `_proxy` under `try`.
unfoldable pub answer : Request → Answer → Served
unfolding is_stream reply_stream reply_whole
answer r (refused f) = record { sent = []; raised = some f }
answer r (replied resp) =
    let content_type = text_or resp.content_type "application/json" in
    if is_stream r content_type
    then reply_stream resp content_type
    else reply_whole resp content_type

-- `int(self.headers.get("Content-Length", "0"))`, with no value for its `ValueError`.
abbrev pub declared : Length → Option ℕ
declared absent = some 0
declared (number n) = some n
declared malformed = none

-- The body of the request, which only a `POST` has.
unfoldable pub request_body : Request → ℕ → Option (List ℕ)
unfolding take
request_body r n = elim r.verb [ get ↦ none | post ↦ some (take n r.content) ]

unfoldable pub forwarded_type : Request → Option (List ℕ) → Option String
forwarded_type r none = none
forwarded_type r (some body) = some (text_or r.content_type "application/json")

-- The call of `conn.request`.
unfoldable pub forward : Request → ℕ → Forwarded
unfolding request_body forwarded_type
forward r n =
    let body = request_body r n in
    record {
      method = r.verb;
      target = r.path;
      body = body;
      accept = text_or r.accept "application/json";
      content_type = forwarded_type r body;
    }

module _ {J : Type 0} (dumps : Payload J → List ℕ) where
  -- `_json`
  unfoldable pub json : ℕ → Payload J → List Sent
  json status payload =
      let raw = dumps payload in
      head status (type_of "application/json" ∷ length_of (length raw) ∷ no_store ∷ [])
      ∷ bytes raw
      ∷ []

  -- The handler of `except` in `_proxy`.
  unfoldable pub except_os_error : Served → Served
  unfolding json
  except_os_error s = elim s.raised [
    | none ↦ s
    | some os_error ↦ record { sent = s.sent ++ json 502 (unavailable os_error); raised = none }
    | some other_error ↦ s
  ]

  module _ (backend : Forwarded → Answer) where
    -- `_proxy`; the `ValueError` of `int` is raised before anything is sent.
    unfoldable pub proxy : Request → Served
    unfolding except_os_error answer forward
    proxy r = elim (declared r.content_length) [
      | none ↦ record { sent = []; raised = some other_error }
      | some n ↦ except_os_error (answer r (backend (forward r n)))
    ]

    module _ (route : String → String) (state : State J) where
      unfoldable pub do_get : Request → Served
      unfolding json proxy health
      do_get r =
          let path = route r.path in
          if one_of path ("/health" ∷ "/v1/health" ∷ [])
          then record { sent = json 200 (healthy (health state)); raised = none }
          else if str_eq path "/v1/models"
          then proxy r
          else record { sent = json 404 not_found; raised = none }

      unfoldable pub do_post : Request → Served
      unfolding json proxy
      do_post r =
          if one_of (route r.path) ("/v1/chat/completions" ∷ "/v1/completions" ∷ [])
          then proxy r
          else record { sent = json 404 not_found; raised = none }

      -- The dispatch of `BaseHTTPRequestHandler` on the verb.
      unfoldable pub handle : Request → Served
      unfolding do_get do_post
      handle r = elim r.verb [ get ↦ do_get r | post ↦ do_post r ]
