-- ===== src/Proxy/Handler/Received.antt =====
-- What a client reads off the bytes that `ProxyHandler` of sabah/server/openai_proxy.py sends.
use sabah_mo_e_accelerator.Base.{
  ℕ, ◌<◌, ◌≡◌, refl, ap, ◌⊎◌, true, List, [], ◌∷◌, ◌++◌, Option, none, some, ◌==◌, if◌then◌else◌,
  length, All, arith,
}
use mathlib.Core.List.{append-nil}
use sabah_mo_e_accelerator.Base.Text.{String}
use sabah_mo_e_accelerator.Proxy.Chunks.Read.{◌>>=?◌, dechunk, frames, join}
use sabah_mo_e_accelerator.Proxy.Types.{
  type_of, Fault, Verb, get, post, Header, length_of, chunked, Sent, head, bytes,
}
use sabah_mo_e_accelerator.Proxy.Handler.{relay, whole}

-- The bytes behind a head: no other head may stand between them.
unfoldable pub content_of : List Sent → Option (List ℕ)
content_of [] = some []
content_of (bytes b ∷ rest) = content_of rest >>=? λ c. some (b ++ c)
content_of (head status headers ∷ rest) = none

pub data Framing : Type 0 where
  counted : ℕ → Framing
  in_chunks : Framing

-- How the headers say where the body ends.
unfoldable pub framing : List Header → Option Framing
framing [] = none
framing (length_of n ∷ headers) = some (counted n)
framing (chunked ∷ headers) = some in_chunks
framing (_ ∷ headers) = framing headers

unfoldable pub read_body : List ℕ → Framing → Option (List ℕ)
read_body content (counted n) = if length content == n then some content else none
read_body content in_chunks = dechunk (length content) content

-- The one answer that a client reads: its status and its body.
unfoldable pub received : List Sent → Option (ℕ × List ℕ)
unfolding content_of framing read_body
received [] = none
received (bytes b ∷ rest) = none
received (head status headers ∷ rest) = content_of rest >>=? λ content.
    framing headers >>=? λ f. read_body content f >>=? λ body. some (status, body)

-- The requests that are passed on to the backend, by verb and path.
abbrev pub Proxied : Verb → String → Type 0
Proxied get path = path ≡ "/v1/models"
Proxied post path = (path ≡ "/v1/chat/completions") ⊎ (path ≡ "/v1/completions")

abbrev pub NonEmpty : List ℕ → Type 0
NonEmpty piece = 0 < length piece

pub relay-frames :
    (pieces : List (List ℕ))
    → All NonEmpty pieces
    → (content_of (relay pieces none).sent ≡ some (frames pieces))
      × ((relay pieces none).raised ≡ none)
unfolding relay content_of
relay-frames [] h = (refl, refl)
relay-frames ([] ∷ pieces) h = absurd (omega (arith, h.0))
relay-frames ((b ∷ bs) ∷ pieces) h =
    let (read, calm) = relay-frames pieces h.1 in (rw read refl, calm)

pub relay-broken :
    (pieces : List (List ℕ)) (f : Fault)
    → All NonEmpty pieces
    → (relay pieces (some f)).raised ≡ some f
unfolding relay
relay-broken [] f h = refl
relay-broken ([] ∷ pieces) f h = absurd (omega (arith, h.0))
relay-broken ((b ∷ bs) ∷ pieces) f h = relay-broken pieces f h.1

pub whole-join : (pieces : List (List ℕ)) → whole pieces ≡ join pieces
unfolding whole
whole-join [] = refl
whole-join (piece ∷ pieces) = ap (λ l. piece ++ l) (whole-join pieces)

-- A second head makes the first answer unreadable.
pub content_of-head :
    (first : List Sent) (status : ℕ) (headers : List Header) (rest : List Sent)
    → content_of (first ++ head status headers ∷ rest) ≡ none
unfolding content_of
content_of-head [] status headers rest = refl
content_of-head (bytes b ∷ first) status headers rest =
    rw (content_of-head first status headers rest) refl
content_of-head (head s hs ∷ first) status headers rest = refl

pub counted-received :
    (status : ℕ) (body : List ℕ) (headers : List Header)
    → framing headers ≡ some (counted (length body))
    → received (head status headers ∷ bytes body ∷ []) ≡ some (status, body)
unfolding received
counted-received status body headers h =
    let exact : (length body == length body) ≡ true = ground arith in
    rw (append-nil, h) (ground (arith, exact))

pub framing-counted :
    (text : String) (n : ℕ) (rest : List Header)
    → framing (type_of text ∷ length_of n ∷ rest) ≡ some (counted n)
unfolding framing
framing-counted text n rest = refl
