-- ===== src/Tests/Proxy.antt =====
-- Requests through the proxy, and starts of the backend.
use sabah_mo_e_accelerator.Base.{
  ℕ, ◌*◌, ◌≡◌, refl, inr, true, List, [], ◌∷◌, Option, none, some, ok, Error, raise, arith,
  if◌then◌else◌, ltb,
}
use mathlib.Core.Logic.{◌↔◌}
use sabah_mo_e_accelerator.Base.Text.{String, str_eq}
use sabah_mo_e_accelerator.Proxy.Types.{
  os_error, Fault, post, number, Request, Forwarded, Response, Answer, replied, State, Payload,
  healthy, not_found, unavailable,
}
use sabah_mo_e_accelerator.Proxy.Handler.{handle}
use sabah_mo_e_accelerator.Proxy.Handler.Received.{received}
use sabah_mo_e_accelerator.Proxy.Handler.Passed.{handle-received}
use sabah_mo_e_accelerator.Proxy.Backend.{
  Launch, command, Environment, backend_launch, find_candidate, Round, status, Waited, ready,
  wait_backend, text, num,
}
use sabah_mo_e_accelerator.Proxy.Backend.Wait.{Loads, wait_backend-Loads}
use sabah_mo_e_accelerator.Proxy.Backend.Environ.{Same, backend_launch-Same}

-- A body for each payload.
abbrev dumps : Payload ℕ → List ℕ
dumps (healthy h) = 1 ∷ []
dumps not_found = 2 ∷ []
dumps (unavailable f) = 3 ∷ []

abbrev state : State ℕ
state = record {
  model = "/models/m.gguf";
  model_name = "m.gguf";
  architecture = "qwen3moe";
  execution = "REFERENCE";
  backend = "llama.cpp";
  process = some none;
  status_file = none;
}

abbrev request : Request
request = record {
  verb = post;
  path = "/v1/completions";
  accept = some "text/event-stream";
  content_type = none;
  content_length = number 2;
  content = 123 ∷ 125 ∷ [];
}

abbrev streamed : Option Fault → Response
streamed broken = record {
  status = 200;
  content_type = some "text/event-stream";
  pieces = (100 ∷ 97 ∷ []) ∷ (116 ∷ []) ∷ [];
  broken = broken;
}

abbrev backend : Option Fault → Forwarded → Answer
backend broken f = replied (streamed broken)

abbrev route : String → String
route path = path

handle-received_example :
    (received (handle dumps (backend none) route state request).sent
      ≡ some (200, 100 ∷ 97 ∷ 116 ∷ []))
    × ((handle dumps (backend none) route state request).raised ≡ none)
handle-received_example =
    handle-received dumps (backend none) route state request 2 refl (inr refl) (streamed none) refl
      refl (omega arith, (omega arith, tt))

-- The second answer goes into the stream of the first.
broken_stream : received (handle dumps (backend (some os_error)) route state request).sent ≡ none
unfolding handle received
broken_stream = refl

-- A server that answers 503 for a round and then has loaded.
abbrev loading : ℕ → Round
loading i = record { time = 1000 * i; poll = none; probe = status (if ltb i 1 then 503 else 200) }

loading_run : wait_backend 0 900000 loading ≡ some ready
unfolding wait_backend
loading_run = refl

wait_backend-Loads_example :
    (w : Waited) × (wait_backend 0 900000 loading ≡ some w)
    × ((w ≡ ready) ↔ ((k : ℕ) × Loads 900000 loading k))
wait_backend-Loads_example = wait_backend-Loads 0 900000 loading (omega arith, λ i. omega arith)

abbrev launch : Launch
launch = record {
  exe = "/bin/llama-server";
  model = "/models/m.gguf";
  backend_port = 18080;
  context = 4096;
  n_gpu_layers = 99;
  hot_bytes = 1073741824;
  parallel = 4;
  validate = true;
}

abbrev environ : Environment
environ = ("PATH", text "/bin") ∷ ("SABAH_LLAMA_TRACE", num 1) ∷ []

abbrev status_of : ℕ → String
status_of port = "/tmp/status.json"

backend_launch-Same_example :
    (env reference : Environment) × (stale : Option String) × (backend_launch
        (λ path. true)
        "/lib/rt.so"
        status_of
        environ
        "sabah"
        launch
      ≡ ok (command launch, env, stale))
    × (backend_launch (λ path. true) "/lib/rt.so" status_of environ "reference" launch
        ≡ ok (command launch, reference, none))
    × Same launch environ env reference
backend_launch-Same_example =
    backend_launch-Same (λ path. true) "/lib/rt.so" status_of environ launch refl

unknown_backend :
    backend_launch (λ path. true) "/lib/rt.so" status_of environ "other" launch
    ≡ raise Error.value_error
unfolding backend_launch
unknown_backend = refl

found :
    find_candidate
      (λ path. str_eq path "/b/llama-server")
      ("" ∷ "/a/llama-server" ∷ "/b/llama-server" ∷ [])
    ≡ ok "/b/llama-server"
unfolding find_candidate
found = refl
