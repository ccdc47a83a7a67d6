-- ===== src/Proxy/Backend/Environ.antt =====
-- Both backends of `backend_launch` of sabah/server/openai_proxy.py get the same command, and
-- environments that differ in the runtime's own variables only.
use sabah_mo_e_accelerator.Base.{
  ℕ, ◌≡◌, ◌≢◌, refl, sym, ap, ◌∙◌, inl, inr, Bool, true, false, [], ◌∷◌, Option, none, some, ok,
  lookup, lookup-insert, Bool-cases, if◌then◌else◌, arith,
}
use sabah_mo_e_accelerator.Base.Text.{String, starts_with_any, string_discrete, str_ne}
use sabah_mo_e_accelerator.Proxy.Backend.{
  Value, text, num, Environment, Launch, command, own_prefixes, inherited, put, shared,
  with_runtime, with_checks, backend_launch,
}

abbrev pub get : String → Environment → Option Value
get = lookup string_discrete

-- The names that are not inherited, and the one of them that both backends set.
abbrev pub IsOwn : String → Type 0
IsOwn k = starts_with_any k own_prefixes ≡ true

abbrev pub IsForeign : String → Type 0
IsForeign k = starts_with_any k own_prefixes ≡ false

abbrev pub min_batch : String
min_batch = "GGML_OP_OFFLOAD_MIN_BATCH"

names_differ : (j k : String) → IsOwn j → IsForeign k → j ≢ k
names_differ j k own foreign e = cc (own, foreign, ap (λ s. starts_with_any s own_prefixes) e)

get-put_self : (k : String) (v : Value) (env : Environment) → get k (put k v env) ≡ some v
get-put_self k v env = ground (arith, lookup-insert string_discrete k k v env)

get-put_other :
    (j k : String) (v : Value) (env : Environment) → j ≢ k → get k (put j v env) ≡ get k env
get-put_other j k v env h = ground (arith, lookup-insert string_discrete j k v env)

-- An own name is set without a change to the foreign ones.
get-put_own :
    (j k : String) (v : Value) (env : Environment)
    → IsOwn j
    → IsForeign k
    → get k (put j v env) ≡ get k env
get-put_own j k v env own foreign = get-put_other j k v env (names_differ j k own foreign)

-- A variable is dropped or inherited.
inherited_own :
    (e : String × Value) (environ : Environment)
    → IsOwn e.0
    → inherited (e ∷ environ) ≡ inherited environ
unfolding inherited
inherited_own e environ h = rw h refl

inherited_foreign :
    (e : String × Value) (environ : Environment)
    → IsForeign e.0
    → inherited (e ∷ environ) ≡ e ∷ inherited environ
unfolding inherited
inherited_foreign e environ h = rw h refl

get_first :
    (k : String) (e : String × Value) (environ : Environment)
    → k ≢ e.0
    → get k (e ∷ environ) ≡ get k environ
unfolding lookup
get_first k e environ h = ground arith

get_next :
    (k : String) (e : String × Value) (d d' : Environment)
    → get k d ≡ get k d'
    → get k (e ∷ d) ≡ get k (e ∷ d')
unfolding lookup
get_next k e d d' h = rw h refl

get-inherited :
    (k : String) (environ : Environment) → IsForeign k → get k (inherited environ) ≡ get k environ
get-inherited k [] h = unfold inherited in refl
get-inherited k (e ∷ environ) h = elim (Bool-cases (starts_with_any e.0 own_prefixes)) [
  | inl own ↦
      ap (get k) (inherited_own e environ own)
      ∙ get-inherited k environ h
      ∙ sym (get_first k e environ (λ q. names_differ e.0 k own h (sym q)))
  | inr foreign ↦
      ap (get k) (inherited_foreign e environ foreign)
      ∙ get_next k e (inherited environ) environ (get-inherited k environ h)
]

get-inherited_own :
    (k : String) (environ : Environment) → IsOwn k → get k (inherited environ) ≡ none
get-inherited_own k [] h = unfold inherited in unfold lookup in refl
get-inherited_own k (e ∷ environ) h = elim (Bool-cases (starts_with_any e.0 own_prefixes)) [
  | inl own ↦ ap (get k) (inherited_own e environ own) ∙ get-inherited_own k environ h
  | inr foreign ↦
      ap (get k) (inherited_foreign e environ foreign)
      ∙ get_first k e (inherited environ) (names_differ k e.0 h foreign)
      ∙ get-inherited_own k environ h
]

-- The environments of the backends `sabah` and `reference`, started in the same one.
pub record Same (l : Launch) (environ env reference : Environment) : Type 0 where
  pub foreign :
      (k : String) → IsForeign k → (get k env ≡ get k environ) × (get k reference ≡ get k environ)
  pub offload : (get min_batch env ≡ some (num 1)) × (get min_batch reference ≡ some (num 1))
  pub only_offload : (k : String) → IsOwn k → min_batch ≢ k → get k reference ≡ none
  pub runtime : get "SABAH_LLAMA" env ≡ some (num 1)
  pub budget : get "SABAH_LLAMA_HOT_BYTES" env ≡ some (num l.hot_bytes)

shared-foreign :
    (k : String) (environ : Environment) → IsForeign k → get k (shared environ) ≡ get k environ
unfolding shared
shared-foreign k environ h =
    get-put_own min_batch k (num 1) (inherited environ) refl h ∙ get-inherited k environ h

shared-own :
    (k : String) (environ : Environment) → IsOwn k → min_batch ≢ k → get k (shared environ) ≡ none
unfolding shared
shared-own k environ h other =
    get-put_other min_batch k (num 1) (inherited environ) other ∙ get-inherited_own k environ h

-- What the variables of the runtime leave alone.
with_runtime-other :
    (library file : String) (n : ℕ) (env : Environment) (k : String)
    → "SABAH_LLAMA" ≢ k
    → "SABAH_RT_LIB" ≢ k
    → "SABAH_LLAMA_HOT_BYTES" ≢ k
    → "SABAH_LLAMA_STATUS_FILE" ≢ k
    → get k (with_runtime library file n env) ≡ get k env
unfolding with_runtime
with_runtime-other library file n env k a b c d =
    get-put_other _ k (text file) _ d
    ∙ get-put_other _ k (num n) _ c
    ∙ get-put_other _ k (text library) _ b
    ∙ get-put_other _ k (num 1) env a

with_checks-other :
    (v : Bool) (env : Environment) (k : String)
    → "SABAH_LLAMA_SELFCHECK" ≢ k
    → "SABAH_LLAMA_VERIFY_BYTES" ≢ k
    → get k (with_checks v env) ≡ get k env
unfolding with_checks
with_checks-other false env k a b = refl
with_checks-other true env k a b =
    get-put_other _ k (text "fetch") _ b ∙ get-put_other _ k (num 2) env a

module _ (l : Launch) (library file : String) (environ : Environment) where
  started : Environment
  started = with_checks l.validate (with_runtime library file l.hot_bytes (shared environ))

  started-foreign : (k : String) → IsForeign k → get k started ≡ get k environ
  unfolding started
  started-foreign k h =
      let other = λ (j : String) (own : IsOwn j). names_differ j k own h in
      with_checks-other l.validate _ k (other _ refl) (other _ refl)
      ∙ with_runtime-other library file l.hot_bytes (shared environ) k (other _ refl) (other _ refl)
          (other _ refl) (other _ refl)
      ∙ shared-foreign k environ h

  shared-min_batch : get min_batch (shared environ) ≡ some (num 1)
  unfolding shared
  shared-min_batch = get-put_self min_batch (num 1) (inherited environ)

  started-min_batch : get min_batch started ≡ some (num 1)
  unfolding started
  started-min_batch =
      with_checks-other l.validate _ min_batch (str_ne _ _ refl) (str_ne _ _ refl)
      ∙ with_runtime-other library file l.hot_bytes (shared environ) min_batch (str_ne _ _ refl)
          (str_ne _ _ refl) (str_ne _ _ refl) (str_ne _ _ refl)
      ∙ shared-min_batch

  started-runtime : get "SABAH_LLAMA" started ≡ some (num 1)
  unfolding started with_runtime
  started-runtime =
      with_checks-other l.validate _ "SABAH_LLAMA" (str_ne _ _ refl) (str_ne _ _ refl)
      ∙ get-put_other _ "SABAH_LLAMA" (text file) _ (str_ne _ _ refl)
      ∙ get-put_other _ "SABAH_LLAMA" (num l.hot_bytes) _ (str_ne _ _ refl)
      ∙ get-put_other _ "SABAH_LLAMA" (text library) _ (str_ne _ _ refl)
      ∙ get-put_self "SABAH_LLAMA" (num 1) (shared environ)

  started-budget : get "SABAH_LLAMA_HOT_BYTES" started ≡ some (num l.hot_bytes)
  unfolding started with_runtime
  started-budget =
      with_checks-other l.validate _ "SABAH_LLAMA_HOT_BYTES" (str_ne _ _ refl) (str_ne _ _ refl)
      ∙ get-put_other _ "SABAH_LLAMA_HOT_BYTES" (text file) _ (str_ne _ _ refl)
      ∙ get-put_self "SABAH_LLAMA_HOT_BYTES" (num l.hot_bytes) _

  started-Same : Same l environ started (shared environ)
  started-Same = record {
    foreign = λ k h. (started-foreign k h, shared-foreign k environ h);
    offload = (started-min_batch, shared-min_batch);
    only_offload = λ k h other. shared-own k environ h other;
    runtime = started-runtime;
    budget = started-budget;
  }

-- If the runtime library is there, `backend_launch` returns for `sabah` and for `reference`, with the
-- same command. A variable whose name has none of the own prefixes has in both environments the
-- value that it has in the inherited one; both offload small batches; that is the only own variable
-- that `reference` gets, whatever is inherited; and `sabah` gets the switch and the budget of the hot
-- tier.
pub backend_launch-Same :
    (exists : String → Bool) (library : String) (status : ℕ → String) (environ : Environment)
    (l : Launch)
    → exists library ≡ true
    → (env reference : Environment) × (stale : Option String) × (backend_launch exists library
          status environ "sabah" l
        ≡ ok (command l, env, stale))
      × (backend_launch exists library status environ "reference" l
          ≡ ok (command l, reference, none))
      × Same l environ env reference
unfolding backend_launch started
backend_launch-Same exists library status environ l built =
    let file = status l.backend_port in
    (
      started l library file environ,
      shared environ,
      (if exists file then some file else none),
      rw built refl,
      refl,
      started-Same l library file environ,
    )
