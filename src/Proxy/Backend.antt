-- ===== src/Proxy/Backend.antt =====
-- The backend process of sabah/server/openai_proxy.py: which program is started, with what, and the
-- wait until it has loaded the model. `isfile` and `exists` are those of `os.path`.
pub mod Wait
pub mod Environ
use sabah_mo_e_accelerator.Base.{
  ℕ, zero, suc, ◌+◌, ◌/◌, Bool, true, false, not, ◌&&◌, List, [], ◌∷◌, ◌++◌, Option, none, some,
  ltb, ◌==◌, if◌then◌else◌, Result, ok, raise, Error, ◌>>=◌, insert,
}
use sabah_mo_e_accelerator.Base.Text.{String, str_eq, starts_with_any, string_discrete}

-- The loop of `find_llama_server` and `find_llama_cli` over the candidates; the path is made absolute
-- by its user.
unfoldable pub find_candidate : (String → Bool) → List String → Result String
find_candidate isfile [] = raise Error.io_error
find_candidate isfile (path ∷ paths) =
    let rest = find_candidate isfile paths in
    if not (str_eq path "") && isfile path then ok path else rest

-- An argument or a variable of the environment: a text, or a number that `str` prints.
pub data Value : Type 0 where
  text : String → Value
  num : ℕ → Value

abbrev pub Environment : Type 0
Environment = List (String × Value)

-- The arguments of `backend_launch`.
pub record Launch : Type 0 where
  pub exe : String
  pub model : String
  pub backend_port : ℕ
  pub context : ℕ
  pub n_gpu_layers : ℕ
  pub hot_bytes : ℕ
  pub parallel : ℕ
  pub validate : Bool

-- `cmd`
unfoldable pub command : Launch → List Value
command l =
    text l.exe
    ∷ text "-m"
    ∷ text l.model
    ∷ text "--host"
    ∷ text "127.0.0.1"
    ∷ text "--port"
    ∷ num l.backend_port
    ∷ text "--ctx-size"
    ∷ num l.context
    ∷ text "--n-gpu-layers"
    ∷ num l.n_gpu_layers
    ∷ text "--cpu-moe"
    ∷ text "--no-webui"
    ∷ text "--parallel"
    ∷ num l.parallel
    ∷ []

-- The names that are not inherited.
abbrev pub own_prefixes : List String
own_prefixes = "SABAH_LLAMA" ∷ "SABAH_RT_LIB" ∷ "GGML_OP_OFFLOAD" ∷ []

unfoldable pub inherited : Environment → Environment
inherited [] = []
inherited (e ∷ environ) =
    let rest = inherited environ in if starts_with_any e.0 own_prefixes then rest else e ∷ rest

-- `env[k] = v`
abbrev pub put : String → Value → Environment → Environment
put = insert string_discrete

unfoldable pub shared : Environment → Environment
unfolding inherited insert
shared environ = put "GGML_OP_OFFLOAD_MIN_BATCH" (num 1) (inherited environ)

-- The first `env.update` of the backend `sabah`.
unfoldable pub with_runtime : String → String → ℕ → Environment → Environment
unfolding insert
with_runtime library status hot_bytes env = put "SABAH_LLAMA_STATUS_FILE" (text status) (
    put "SABAH_LLAMA_HOT_BYTES" (num hot_bytes)
      (put "SABAH_RT_LIB" (text library) (put "SABAH_LLAMA" (num 1) env)))

-- The second, for `validate`.
unfoldable pub with_checks : Bool → Environment → Environment
unfolding insert
with_checks false env = env
with_checks true env =
    put "SABAH_LLAMA_VERIFY_BYTES" (text "fetch") (put "SABAH_LLAMA_SELFCHECK" (num 2) env)

-- `backend_launch`: the command, the environment, and the status file of an earlier run that is
-- removed, if there is one. `library` is `RUNTIME_LIB`, `status` the status file of a port.
unfoldable pub backend_launch :
    (String → Bool)
    → String
    → (ℕ → String)
    → Environment
    → String
    → Launch
    → Result (List Value × Environment × Option String)
unfolding command shared with_runtime with_checks
backend_launch exists library status environ backend l =
    let file = status l.backend_port in
    let env = shared environ in
    if str_eq backend "sabah"
    then (if exists library
        then ok (
          command l,
          with_checks l.validate (with_runtime library file l.hot_bytes env),
          (if exists file then some file else none),
        )
        else raise Error.io_error)
    else (if str_eq backend "reference" then ok (command l, env, none) else raise Error.value_error)

-- What a round of `_wait_backend` meets: the time at its test, `process.poll()`, and the answer to
-- `GET /health`.
pub data Probe : Type 0 where
  status : ℕ → Probe
  os_error other_error : Probe

pub record Round : Type 0 where
  pub time : ℕ
  pub poll : Option ℕ
  pub probe : Probe

-- How `_wait_backend` ends: it returns, or raises `RuntimeError`, `TimeoutError`, or an exception of
-- the probe that is no `OSError`.
pub data Waited : Type 0 where
  ready exited timed_out failed : Waited

-- What a round does: it ends the wait, or goes on.
unfoldable pub probed : Probe → Option Waited
probed (status s) = if s == 200 then some ready else none
probed os_error = none
probed other_error = some failed

unfoldable pub round_end : ℕ → Round → Option Waited
unfolding probed
round_end deadline r =
    if ltb r.time deadline
    then elim r.poll [ some code ↦ some exited | none ↦ probed r.probe ]
    else some timed_out

-- The loop, on fuel; `none` means that the fuel ran out.
unfoldable pub wait_from : ℕ → ℕ → (ℕ → Round) → ℕ → Option Waited
unfolding round_end
wait_from zero deadline rounds i = none
wait_from (suc f) deadline rounds i = elim (round_end deadline (rounds i)) [
  | some w ↦ some w
  | none ↦ wait_from f deadline rounds (suc i)
]

-- `_wait_backend` from the time `start`, in milliseconds, with fuel for a round in each second and two more.
unfoldable pub wait_backend : ℕ → ℕ → (ℕ → Round) → Option Waited
unfolding wait_from
wait_backend start timeout rounds =
    wait_from (suc (suc (timeout / 1000))) (start + timeout) rounds 0
