-- ===== src/Server/Connected.antt =====
-- `buildStore` of cmd/forwardlimit/main.go at settings that `Load` of internal/config/config.go accepts.
use forwardlimit.Common.{◌≡◌, refl, true, some, List, [], ◌∷◌, ◌⊎◌, inl, inr, Bool-cases, arith}
use forwardlimit.Common.Text.{Text, codes, is_empty, text_eq}
use forwardlimit.Store.Redis.Connect.{
  Connection, Built, made, root_pool, client_certificates, build_tls, topology_of, new,
}
use forwardlimit.Settings.{Settings, RedisSettings}
use forwardlimit.Settings.Checks.{is_one_of, modes}
use forwardlimit.Settings.Load.{load, loaded}
use forwardlimit.Settings.Usable.{IsStoreReady, load-IsUsable}
use forwardlimit.Server.{Platform}
use forwardlimit.Server.Assembly.{config_of, chain, build_store}

abbrev IsMade {ℓ} : {A : Type ℓ} → Built A → Type ℓ
IsMade {A} r = (a : A) × (r ≡ made a)

-- The files of TLS that the settings name and that are there can be used.
pub record AreFilesGood {F W P C : Type 0} (p : Platform F W P C) (c : Settings) : Type 0 where
  pub readable :
      p.exists c.redis.tls_ca_file ≡ true → (t : Text) × (p.read_file c.redis.tls_ca_file ≡ some t)
  pub pem :
      (t : Text)
      → p.read_file c.redis.tls_ca_file ≡ some t
      → (pool : P) × (p.append_certs t ≡ some pool)
  pub pair :
      p.exists c.redis.tls_cert_file ≡ true
      → p.exists c.redis.tls_key_file ≡ true
      → (pair : C) × (p.load_pair c.redis.tls_cert_file c.redis.tls_key_file ≡ some pair)

topology_of-IsMade :
    (mode first : Text) (addrs : List Text)
    → is_one_of modes mode ≡ true
    → IsMade (topology_of mode first addrs)
unfolding topology_of
topology_of-IsMade mode first addrs h = elim (Bool-cases (text_eq mode (codes "cluster"))) [
  | inl y ↦ rw (y, topology_of) (_, refl)
  | inr n ↦
      let single : text_eq mode (codes "single") ≡ true = ground arith in
      rw (n, single, topology_of) (_, refl)
]

addrs_cases : (l : List Text) → (l ≡ []) ⊎ ((a : Text) × (rest : List Text) × (l ≡ a ∷ rest))
addrs_cases [] = inl refl
addrs_cases (a ∷ rest) = inr (a, rest, refl)

module _ {F W P C : Type 0} (p : Platform F W P C) (c : Settings) (good : AreFilesGood p c)
    (ready : IsStoreReady p.exists c) where
  abbrev r : RedisSettings
  r = c.redis

  root_pool-IsMade : IsMade (root_pool p.read_file p.append_certs p.load_pair r.tls_ca_file)
  unfolding root_pool
  root_pool-IsMade = elim (Bool-cases (is_empty r.tls_ca_file)) [
    | inl y ↦ rw (y, root_pool) (_, refl)
    | inr n ↦
        let there : p.exists r.tls_ca_file ≡ true = ground (arith, ready.ca_there) in
        let (t, e) = good.readable there in
        let (pool, f) = good.pem t e in rw (n, e, f, root_pool) (_, refl)
  ]

  client_certificates-IsMade :
      IsMade
        (client_certificates p.read_file p.append_certs p.load_pair r.tls_cert_file r.tls_key_file)
  unfolding client_certificates
  client_certificates-IsMade = elim (Bool-cases (is_empty r.tls_cert_file)) [
    | inl y ↦ rw (← ready.pair_whole, y, client_certificates) (_, refl)
    | inr n ↦
        let cert : p.exists r.tls_cert_file ≡ true = ground (arith, ready.cert_there) in
        let key : p.exists r.tls_key_file ≡ true =
          ground (arith, ready.key_there, ready.pair_whole) in
        let (pair, e) = good.pair cert key in
        rw (← ready.pair_whole, n, e, client_certificates) (_, refl)
  ]

  build_tls-IsMade : IsMade (build_tls p.read_file p.append_certs p.load_pair (config_of r))
  unfolding build_tls
  build_tls-IsMade = elim (Bool-cases r.tls_enabled) [
    | inr off ↦ rw (off, build_tls) (_, refl)
    | inl on ↦
        let (pool, e) = root_pool-IsMade in
        let (certs, f) = client_certificates-IsMade in rw (on, e, f, build_tls) (_, refl)
  ]

  new-IsMade : IsMade (new p.read_file p.append_certs p.load_pair (config_of r))
  unfolding new
  new-IsMade = elim (addrs_cases r.addrs) [
    | inl e ↦ absurd (ground (arith, e, ready.some_addr))
    | inr (a, rest, e) ↦
        let (tls, f) = build_tls-IsMade in
        let (topology, g) = topology_of-IsMade r.mode a (a ∷ rest) ready.mode_known in
        rw (e, f, g, new) (_, refl)
  ]

build_store-made :
    {F W P C : Type 0} (p : Platform F W P C) (c : Settings) (conn : Connection P C)
    → c.redis.enabled ≡ true
    → new p.read_file p.append_certs p.load_pair (config_of c.redis) ≡ made conn
    → build_store p c ≡ chain p c conn
unfolding build_store
build_store-made p c conn on m = rw (on, m, build_store) refl

-- Settings that `Load` accepts and that do not disable the store never leave the server without one: the
-- store on Redis is built, behind the breaker and the cache that the settings ask for, if the files of TLS
-- that they name can be read and hold what they are to hold.
pub build_store-chain :
    {F W P C : Type 0} (p : Platform F W P C) (c : Settings)
    → load p.getenv p.parse_bool p.parse_int p.parse_duration p.exists ≡ loaded c
    → c.redis.enabled ≡ true
    → AreFilesGood p c
    → (conn : Connection P C) × (new p.read_file p.append_certs p.load_pair (config_of c.redis)
        ≡ made conn)
      × (build_store p c ≡ chain p c conn)
build_store-chain p c e on good =
    elim (load-IsUsable p.getenv p.parse_bool p.parse_int p.parse_duration p.exists c e).store [
      | inl off ↦ absurd (ground (arith, off, on))
      | inr ready ↦
          let (conn, m) = new-IsMade p c good ready in (conn, m, build_store-made p c conn on m)
    ]
