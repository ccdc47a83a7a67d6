-- ===== src/Proxy/Handler/Passed.antt =====
-- What the client receives of a request that is passed on to the backend, in sabah/server/openai_proxy.py.
use sabah_mo_e_accelerator.Base.{
  ℕ, ◌≡◌, refl, ap, sym, subst, ◌∙◌, inl, inr, Bool, true, false, List, [], Option, none, some, All,
  Bool-cases,
}
use sabah_mo_e_accelerator.Base.Text.{String}
use sabah_mo_e_accelerator.Proxy.Chunks.Read.{join, dechunk-frames}
use sabah_mo_e_accelerator.Proxy.Types.{
  Fault, os_error, other_error, Verb, get, post, Request, Forwarded, Response, Answer, refused,
  replied, Served, State, Payload, unavailable,
}
use sabah_mo_e_accelerator.Proxy.Handler.{
  text_or, declared, is_stream, whole, reply_stream, reply_whole, answer, forward, except_os_error,
  proxy, do_get, do_post, handle,
}
use sabah_mo_e_accelerator.Proxy.Handler.Received.{
  framing, read_body, received, Proxied, framing-counted, NonEmpty, relay-frames, whole-join,
  counted-received,
}

-- The exception that the backend's answer ends with, its pieces, and whether it is streamed.
abbrev pub fault_of : Answer → Option Fault
fault_of (refused f) = some f
fault_of (replied resp) = resp.broken

abbrev pub pieces_of : Answer → List (List ℕ)
pieces_of (refused f) = []
pieces_of (replied resp) = resp.pieces

abbrev pub type_text : Response → String
type_text resp = text_or resp.content_type "application/json"

unfoldable pub is_streamed : Request → Answer → Bool
is_streamed r (refused f) = false
is_streamed r (replied resp) = is_stream r (type_text resp)

module _ {J : Type 0} (dumps : Payload J → List ℕ) where
  -- An answer that is not broken reaches the client.
  answer-received :
      (r : Request) (resp : Response)
      → resp.broken ≡ none
      → All NonEmpty resp.pieces
      → (received (except_os_error dumps (answer r (replied resp))).sent
          ≡ some (resp.status, join resp.pieces))
        × ((except_os_error dumps (answer r (replied resp))).raised ≡ none)
  unfolding answer except_os_error
  answer-received r resp unbroken full = elim (Bool-cases (is_stream r (type_text resp))) [
    | inl stream ↦
        let (read, calm) = relay-frames resp.pieces full in
        rw (stream, reply_stream, unbroken, calm)
          (
            unfold received framing read_body in rw (read, dechunk-frames resp.pieces full) refl,
            refl,
          )
    | inr plain ↦
        rw (plain, reply_whole, unbroken)
          (
            counted-received resp.status (whole resp.pieces) _ (framing-counted _ _ _)
                ∙ ap (λ body. some (resp.status, body)) (whole-join resp.pieces),
            refl,
          )
  ]

  -- An answer that is broken off, by the exception and by whether the answer is a stream.
  abbrev pub Ended : Fault → Bool → Served → Type 0
  Ended other_error stream s = s.raised ≡ some other_error
  Ended os_error false s =
      (s.raised ≡ none) × (received s.sent ≡ some (502, dumps (unavailable os_error)))
  Ended os_error true s = (s.raised ≡ none) × (received s.sent ≡ none)

  module _ (backend : Forwarded → Answer) (route : String → String) (state : State J) (r : Request)
      (n : ℕ) (length_declared : declared r.content_length ≡ some n)
      (to_backend : Proxied r.verb (route r.path)) where
    proxy_lem : proxy dumps backend r ≡ except_os_error dumps (answer r (backend (forward r n)))
    unfolding proxy
    proxy_lem = rw (length_declared, proxy) refl

    handle-proxy :
        (v : Verb)
        → r.verb ≡ v
        → Proxied v (route r.path)
        → handle dumps backend route state r ≡ proxy dumps backend r
    unfolding handle do_get do_post
    handle-proxy get e p = rw (e, p) refl
    handle-proxy post e (inl p) = rw (e, p) refl
    handle-proxy post e (inr p) = rw (e, p) refl

    handle_lem :
        handle dumps backend route state r
        ≡ except_os_error dumps (answer r (backend (forward r n)))
    handle_lem = handle-proxy r.verb refl to_backend ∙ proxy_lem

    -- Let a request go to the backend, and let the backend's answer come in pieces that are not empty
    -- and not be broken off. Then the client receives one answer, with the status of the backend and
    -- all the bytes of its body, and no exception leaves the handler: whether the answer is streamed
    -- in chunks or sent whole.
    pub handle-received :
        (resp : Response)
        → backend (forward r n) ≡ replied resp
        → resp.broken ≡ none
        → All NonEmpty resp.pieces
        → (received (handle dumps backend route state r).sent
            ≡ some (resp.status, join resp.pieces))
          × ((handle dumps backend route state r).raised ≡ none)
    handle-received resp e unbroken full =
        subst (λ s. (received s.sent ≡ some (resp.status, join resp.pieces)) × (s.raised ≡ none))
          (sym (handle_lem ∙ ap (λ a. except_os_error dumps (answer r a)) e))
          (answer-received r resp unbroken full)
