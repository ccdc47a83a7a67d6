-- ===== src/Proxy/Types.antt =====
-- What passes through `ProxyHandler` of sabah/server/openai_proxy.py: requests, the answers of the
-- backend and what is sent to the client, and `_State`. A JSON value of the runtime has the type
-- `J`. The texts of `_State.health` that never change are left out.
use sabah_mo_e_accelerator.Base.{ℕ, zero, suc, Bool, true, false, List, Option, none, some}
use sabah_mo_e_accelerator.Base.Text.{String}

-- The classes of exceptions that `_proxy` tells apart: `OSError` with its subclasses, and others, as
-- `http.client.HTTPException`.
pub data Fault : Type 0 where
  os_error other_error : Fault

pub data Verb : Type 0 where
  get post : Verb

-- The header `Content-Length` of a request.
pub data Length : Type 0 where
  absent malformed : Length
  number : ℕ → Length

-- `path` is `self.path`; `content` is what the client sends after the head.
pub record Request : Type 0 where
  pub verb : Verb
  pub path : String
  pub accept : Option String
  pub content_type : Option String
  pub content_length : Length
  pub content : List ℕ

-- The arguments of `conn.request`.
pub record Forwarded : Type 0 where
  pub method : Verb
  pub target : String
  pub body : Option (List ℕ)
  pub accept : String
  pub content_type : Option String

-- The answer of the backend: its body in the pieces that `resp.read(8192)` returns, and the exception
-- that a later read raises, if any.
pub record Response : Type 0 where
  pub status : ℕ
  pub content_type : Option String
  pub pieces : List (List ℕ)
  pub broken : Option Fault

pub data Answer : Type 0 where
  refused : Fault → Answer
  replied : Response → Answer

-- The headers that the handler sends itself.
pub data Header : Type 0 where
  type_of : String → Header
  length_of : ℕ → Header
  no_store no_cache keep_alive chunked : Header

-- What goes to the client: the head of an answer, or bytes.
pub data Sent : Type 0 where
  head : ℕ → List Header → Sent
  bytes : List ℕ → Sent

-- What a handler has sent when it is left, and the exception that leaves it, if any.
pub record Served : Type 0 where
  pub sent : List Sent
  pub raised : Option Fault

-- The file that the runtime writes: whether it is there, and what each attempt to read it gives.
pub record StatusFile (J : Type 0) : Type 0 where
  pub exists : Bool
  pub attempt : ℕ → Option J

-- The rounds of `for _ in range(3)`, the next attempt first.
unfoldable pub attempts : {J : Type 0} → ℕ → ℕ → (ℕ → Option J) → Option J
attempts zero i attempt = none
attempts (suc n) i attempt = elim (attempt i) [
  | some j ↦ some j
  | none ↦ attempts n (suc i) attempt
]

-- `read_runtime_status`
unfoldable pub read_runtime_status : {J : Type 0} → Option (StatusFile J) → Option J
unfolding attempts
read_runtime_status none = none
read_runtime_status (some f) = elim f.exists [ true ↦ attempts 3 0 f.attempt | false ↦ none ]

-- `process` is what `poll` of the backend's process gives, if there is a process.
pub record State (J : Type 0) : Type 0 where
  pub model : String
  pub model_name : String
  pub architecture : String
  pub execution : String
  pub backend : String
  pub process : Option (Option ℕ)
  pub status_file : Option (StatusFile J)

pub record Health (J : Type 0) : Type 0 where
  pub is_ok : Bool
  pub execution : String
  pub backend : String
  pub architecture : String
  pub model : String
  pub model_path : String
  pub sabah_runtime : Option J

-- `self.process is None or self.process.poll() is None`
unfoldable pub is_running : Option (Option ℕ) → Bool
is_running none = true
is_running (some none) = true
is_running (some (some code)) = false

-- `_State.health`
unfoldable pub health : {J : Type 0} → State J → Health J
unfolding is_running read_runtime_status
health s = record {
  is_ok = is_running s.process;
  execution = s.execution;
  backend = s.backend;
  architecture = s.architecture;
  model = s.model_name;
  model_path = s.model;
  sabah_runtime = read_runtime_status s.status_file;
}

-- The bodies that the handler makes itself.
pub data Payload (J : Type 0) : Type 0 where
  healthy : Health J → Payload J
  not_found : Payload J
  unavailable : Fault → Payload J
