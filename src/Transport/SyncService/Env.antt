-- ===== src/Transport/SyncService/Env.antt =====
-- readEnvVars of sync_service.go. `os.LookupEnv` and `strconv.Atoi` are arguments; an `int` is the
-- model's ℤ.
use hub_of_hubs_status_trans.Base.{
  ℕ, ◌-◌, ◌%◌, ◌<◌, ◌≡◌, refl, ap, ◌∙◌, String, Option, none, some, str_append, arith, ◌↔◌, sym,
}

-- `negsuc n` is -(n + 1).
pub data ℤ : Type 0 where
  pos : ℕ → ℤ
  negsuc : ℕ → ℤ

pub data Parsed : Type 0 where
  number : ℤ → Parsed
  invalid : String → Parsed

pub record Environment : Type 0 where
  pub lookup_env : String → Option String
  pub atoi : String → Parsed

-- What reading variables gives: a value, or the message of an error.
pub data Lookup (A : Type 0) : Type 0 where
  value : A → Lookup A
  failure : String → Lookup A

infixl 5 ◌>>=◌
abbrev ◌>>=◌ : {A B : Type 0} → Lookup A → (A → Lookup B) → Lookup B
failure message >>= continue = failure message
value a >>= continue = continue a

pub record EnvVars : Type 0 where
  pub protocol : String
  pub host : String
  pub port : ℕ
  pub polling_interval : ℤ

-- The conversion to `uint16`.
unfoldable pub uint16 : ℤ → ℕ
uint16 (pos n) = n % 65536
uint16 (negsuc n) = 65535 - n % 65536

module _ (env : Environment) where
  unfoldable pub required : String → Lookup String
  required name = elim (env.lookup_env name) [
    | none ↦ failure (str_append "not found environment variable: " name)
    | some v ↦ value v
  ]

  -- Both messages call the text a port.
  unfoldable pub number_of : String → String → Lookup ℤ
  number_of name v = elim (env.atoi v) [
    | invalid message ↦ failure (
        str_append "the environment var "
          (str_append name (str_append " is not valid port - " message)))
    | number n ↦ value n
  ]

  unfoldable pub read_env_vars : Lookup EnvVars
  unfolding required number_of
  read_env_vars = do
    protocol ← required "SYNC_SERVICE_PROTOCOL"
    host ← required "SYNC_SERVICE_HOST"
    port_string ← required "SYNC_SERVICE_PORT"
    port ← number_of "SYNC_SERVICE_PORT" port_string
    polling_interval_string ← required "SYNC_SERVICE_POLLING_INTERVAL"
    polling_interval ← number_of "SYNC_SERVICE_POLLING_INTERVAL" polling_interval_string
    value (record {
      protocol = protocol;
      host = host;
      port = uint16 port;
      polling_interval = polling_interval;
    })

-- What the environment holds for a result: each variable is set, and both numbers can be read.
pub record IsRead (env : Environment) (v : EnvVars) : Type 0 where
  pub port_string : String
  pub port_number : ℤ
  pub interval_string : String
  pub protocol_set : env.lookup_env "SYNC_SERVICE_PROTOCOL" ≡ some v.protocol
  pub host_set : env.lookup_env "SYNC_SERVICE_HOST" ≡ some v.host
  pub port_set : env.lookup_env "SYNC_SERVICE_PORT" ≡ some port_string
  pub port_read : env.atoi port_string ≡ number port_number
  pub port_converted : v.port ≡ uint16 port_number
  pub interval_set : env.lookup_env "SYNC_SERVICE_POLLING_INTERVAL" ≡ some interval_string
  pub interval_read : env.atoi interval_string ≡ number v.polling_interval

abbrev value_or : {A : Type 0} → Lookup A → A → A
value_or (value a) b = a
value_or (failure message) b = b

value-injective : {A : Type 0} {a b : A} → value a ≡ value b → a ≡ b
value-injective {A} {a} h = ap (λ r. value_or r a) h

value_before :
    {A B : Type 0} (first : Lookup A) (continue : A → Lookup B) {last : B}
    → (first >>= continue) ≡ value last
    → (a : A) × (first ≡ value a) × (continue a ≡ value last)
value_before (failure message) continue reached = cc
value_before (value a) continue reached = (a, refl, reached)

required-set :
    (env : Environment) (name v : String)
    → required env name ≡ value v
    → env.lookup_env name ≡ some v
unfolding required
required-set env name v h = ground arith

number_of-read :
    (env : Environment) (name v : String) (n : ℤ)
    → number_of env name v ≡ value n
    → env.atoi v ≡ number n
unfolding number_of
number_of-read env name v n h = ground arith

uint16-lt : (z : ℤ) → uint16 z < 65536
unfolding uint16
uint16-lt (pos n) = omega arith
uint16-lt (negsuc n) = omega arith

-- `readEnvVars` succeeds with a result exactly if the environment has all four variables with both
-- numbers as in the result, the port after its conversion to 16 bits.
pub read_env_vars-value :
    (env : Environment) (v : EnvVars) → (read_env_vars env ≡ value v) ↔ IsRead env v
unfolding read_env_vars required number_of
read_env_vars-value env v = (
  λ h.
      let (protocol, e1, h1) = value_before _ _ h in
      let (host, e2, h2) = value_before _ _ h1 in
      let (port_string, e3, h3) = value_before _ _ h2 in
      let (port, e4, h4) = value_before _ _ h3 in
      let (interval_string, e5, h5) = value_before _ _ h4 in
      let (interval, e6, h6) = value_before _ _ h5 in
      let same = value-injective h6 in
      record {
        port_string = port_string;
        port_number = port;
        interval_string = interval_string;
        protocol_set = required-set env _ _ e1 ∙ ap (λ w. some w.protocol) same;
        host_set = required-set env _ _ e2 ∙ ap (λ w. some w.host) same;
        port_set = required-set env _ _ e3;
        port_read = number_of-read env _ _ _ e4;
        port_converted = sym (ap (λ w. w.port) same);
        interval_set = required-set env _ _ e5;
        interval_read = number_of-read env _ _ _ e6 ∙ ap (λ w. number w.polling_interval) same;
      },
  λ r. ground (
    arith, r.protocol_set, r.host_set, r.port_set, r.port_read, r.port_converted, r.interval_set,
    r.interval_read,
  ),
)
