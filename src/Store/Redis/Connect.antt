-- ===== src/Store/Redis/Connect.antt =====
-- internal/store/redisstore/redisstore.go: the set-up. The file system, the parsers of certificates
-- and the clients of go-redis are parameters.
use forwardlimit.Common.{Bool, ◌&&◌, ◌||◌, not, Option, none, some, List, [], ◌∷◌, if◌then◌else◌}
use forwardlimit.Common.Int.{ℤ}
use forwardlimit.Common.Float.{Float}
use forwardlimit.Common.Text.{Text, codes, is_empty, text_eq}
use forwardlimit.Store.{Store, Reply, Error}
use forwardlimit.Store.Redis.{Commands, consume}
use forwardlimit.Store.Redis.Tokens.{BucketCommands, take}

pub record Config : Type 0 where
  pub addrs : List Text
  pub mode : Text
  pub tls_enabled : Bool
  pub tls_skip_verify : Bool
  pub tls_ca_file : Text
  pub tls_cert_file : Text
  pub tls_key_file : Text
  pub pool_size : ℤ
  pub max_retries : ℤ
  pub dial_timeout : ℤ
  pub read_timeout : ℤ
  pub write_timeout : ℤ
  pub key_prefix : Text

-- What keeps a store from being built.
pub data Refusal : Type 0 where
  no_addresses ca_unreadable ca_without_certificate pair_unreadable half_pair : Refusal
  unknown_mode : Text → Refusal

pub data Built {ℓ} (A : Type ℓ) : Type ℓ where
  made : A → Built A
  refused : Refusal → Built A

-- The fields of `tls.Config` that are set; TLS is at least 1.2. `P` is a pool of certificates and `C`
-- a certificate with its key.
pub record TlsConfig (P C : Type 0) : Type 0 where
  pub skip_verify : Bool
  pub root_cas : Option P
  pub certificates : List C

-- `ClusterOptions` and `Options` of go-redis: every address, or the first.
pub data Topology : Type 0 where
  cluster : List Text → Topology
  single : Text → Topology

pub record ClientOptions (P C : Type 0) : Type 0 where
  pub topology : Topology
  pub tls : Option (TlsConfig P C)
  pub pool_size : ℤ
  pub max_retries : ℤ
  pub dial_timeout : ℤ
  pub read_timeout : ℤ
  pub write_timeout : ℤ

-- `Store`: the options that its client is made from, and the prefix.
pub record Connection (P C : Type 0) : Type 0 where
  pub client : ClientOptions P C
  pub prefix : Text

-- `NewWithClient`
abbrev pub new_with_client : {P C : Type 0} → ClientOptions P C → Text → Connection P C
new_with_client client prefix = record { client = client; prefix = prefix }

-- The switch of `New` on the mode.
unfoldable pub topology_of : Text → Text → List Text → Built Topology
unfolding text_eq
topology_of mode first addrs =
    if text_eq mode (codes "cluster")
    then made (cluster addrs)
    else if text_eq mode (codes "single")
    then made (single first)
    else refused (unknown_mode mode)

module _ {P C : Type 0} (read_file : Text → Option Text) (append_certs : Text → Option P)
    (load_pair : Text → Text → Option C) where
  -- The pool of the CA file, if one is named.
  unfoldable pub root_pool : Text → Built (Option P)
  root_pool path = if is_empty path then made none else elim (read_file path) [
    | none ↦ refused ca_unreadable
    | some pem ↦ elim (append_certs pem) [
      | none ↦ refused ca_without_certificate
      | some pool ↦ made (some pool)
    ]
  ]

  -- The client's certificate, if one is named.
  unfoldable pub client_certificates : Text → Text → Built (List C)
  client_certificates cert key =
      if not (is_empty cert) && not (is_empty key)
      then elim (load_pair cert key) [
        | none ↦ refused pair_unreadable
        | some pair ↦ made (pair ∷ [])
      ]
      else if not (is_empty cert) || not (is_empty key)
      then refused half_pair
      else made []

  unfoldable pub build_tls : Config → Built (Option (TlsConfig P C))
  unfolding root_pool client_certificates
  build_tls c = if not c.tls_enabled then made none else elim (root_pool c.tls_ca_file) [
    | refused e ↦ refused e
    | made pool ↦ elim (client_certificates c.tls_cert_file c.tls_key_file) [
      | refused e ↦ refused e
      | made pairs ↦
          made (
            some
              (record { skip_verify = c.tls_skip_verify; root_cas = pool; certificates = pairs }))
    ]
  ]

  unfoldable pub new : Config → Built (Connection P C)
  unfolding build_tls topology_of
  new c = elim c.addrs [
    | [] ↦ refused no_addresses
    | addr ∷ addrs ↦ elim (build_tls c) [
      | refused e ↦ refused e
      | made tls ↦ elim (topology_of c.mode addr (addr ∷ addrs)) [
        | refused e ↦ refused e
        | made topology ↦ made (
            new_with_client
              (record {
                topology = topology;
                tls = tls;
                pool_size = c.pool_size;
                max_retries = c.max_retries;
                dial_timeout = c.dial_timeout;
                read_timeout = c.read_timeout;
                write_timeout = c.write_timeout;
              })
              c.key_prefix)
      ]
    ]
  ]

-- A client of go-redis, as far as the store uses it: `Run` of a script, `Ping` and `Close`.
pub record Client (W : Type 0) : Type 0 where
  pub run : (W → List ℤ × W) → W → Reply (List ℤ) × W
  pub ping : W → Option Error × W
  pub close : W → Option Error × W

module _ {F W P C : Type 0} (float : Float F) (redis : Commands W) (buckets : BucketCommands F W)
    (dial : ClientOptions P C → Client W) where
  -- `Ping`
  abbrev pub ping : Connection P C → W → Option Error × W
  ping c = (dial c.client).ping

  -- `Store`, seen through the interface; `Close` is the client's.
  abbrev pub redis_store : Connection P C → Store W
  redis_store c =
      let client = dial c.client in
      record {
        consume = consume redis client.run c.prefix;
        take = take float buckets client.run c.prefix;
        close = client.close;
      }
