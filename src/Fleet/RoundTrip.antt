-- ===== src/Fleet/RoundTrip.antt =====
-- A resolved device is written with every key, and reads back as itself under any defaults.
use sismatic.Common.{
  ℕ, String, ◌≡◌, refl, sym, ap, subst, Bool, true, false, Option, none, some, List, [], arith, all,
  ascending, Result, ok, err, ◌>>=◌, ok_injective,
}
use sismatic.Fleet.Config.{Defaults, RawDevice, DeviceConfig, ConfigError, from_secs}
use sismatic.Fleet.Fingerprint.{derive_uuid}
use sismatic.Fleet.Resolve.{resolve, require, interval, canonicalize_disabled, inherited, or_else}
use sismatic.Fleet.Export.{as_secs, secs_or_zero}
use sismatic.Fleet.Live.{raw_of}
use sismatic.Fleet.Written.{is_canonical, canonical_set-ascending, canonical_set_fixed}

as_secs-from_secs : (secs : ℕ) → as_secs (from_secs secs) ≡ secs
as_secs-from_secs secs = omega arith

interval-secs_or_zero : (secs : ℕ) → interval (secs_or_zero (interval secs)) ≡ interval secs
interval-secs_or_zero secs = ground arith

-- The keys of a device, none of them left out.
record Keys : Type 0 where
  pub id : String
  pub host : String
  pub port : ℕ
  pub username : String
  pub password : String
  pub connect_secs : ℕ
  pub exchange_secs : ℕ
  pub eager : Bool
  pub sis_keepalive_secs : ℕ
  pub eager_retry_secs : ℕ
  pub cold_backoff_secs : ℕ
  pub auto_disable_after : ℕ
  pub self_heal_secs : ℕ

module _ (new_v5 : List ℕ → List ℕ → String) where
  abbrev built :
      Keys → ℕ → ℕ → Option ℕ → Option ℕ → Option ℕ → Option ℕ → List String → DeviceConfig
  built k connect exchange keepalive retry backoff heal fields = derive_uuid new_v5 (record {
    uuid = "00000000-0000-0000-0000-000000000000";
    id = k.id;
    host = k.host;
    port = k.port;
    username = k.username;
    password = k.password;
    connect_timeout = connect;
    exchange_timeout = exchange;
    eager = k.eager;
    sis_keepalive = keepalive;
    eager_retry = retry;
    cold_backoff = backoff;
    disabled_fields = fields;
    auto_disable_after = k.auto_disable_after;
    self_heal = heal;
  })

  abbrev resolved_keys : Keys → List String → DeviceConfig
  resolved_keys k fields =
      built k (from_secs k.connect_secs) (from_secs k.exchange_secs) (interval k.sis_keepalive_secs)
        (interval k.eager_retry_secs) (interval k.cold_backoff_secs) (interval k.self_heal_secs)
        fields

  data FromKeys (c : DeviceConfig) : Type 0 where
    from_keys :
        (k : Keys) (fields : List String)
        → c ≡ resolved_keys k fields
        → ascending fields ≡ true
        → all is_canonical fields ≡ true
        → FromKeys c

  canonicalize_disabled-ascending :
      (device : String) (fields : Option (List String)) (out : List String)
      → canonicalize_disabled device fields ≡ ok out
      → (ascending out ≡ true) × (all is_canonical out ≡ true)
  unfolding canonicalize_disabled ascending all
  canonicalize_disabled-ascending device none out h =
      let is : [] ≡ out = ok_injective h in (ap ascending (sym is), ap (all is_canonical) (sym is))
  canonicalize_disabled-ascending device (some fields) out h =
      canonical_set-ascending device fields [] out h refl refl

  abbrev keys_of : Defaults → RawDevice → String → String → Keys
  keys_of defaults raw username password = record {
    id = raw.id;
    host = raw.host;
    port = inherited raw.port defaults.port 22023;
    username = username;
    password = password;
    connect_secs = inherited raw.connect_secs defaults.connect_secs 5;
    exchange_secs = inherited raw.exchange_secs defaults.exchange_secs 3;
    eager = inherited raw.eager defaults.eager false;
    sis_keepalive_secs = inherited raw.sis_keepalive_secs defaults.sis_keepalive_secs 120;
    eager_retry_secs = inherited raw.eager_retry_secs defaults.eager_retry_secs 30;
    cold_backoff_secs = inherited raw.cold_backoff_secs defaults.cold_backoff_secs 30;
    auto_disable_after = inherited raw.auto_disable_after defaults.auto_disable_after 2;
    self_heal_secs = inherited raw.self_heal_secs defaults.self_heal_secs 0;
  }

  finished-FromKeys :
      (defaults : Defaults) (raw : RawDevice) (c : DeviceConfig)
      (username password : Result String ConfigError) (set : Result (List String) ConfigError)
      → ((out : List String)
          → set ≡ ok out
          → (ascending out ≡ true) × (all is_canonical out ≡ true))
      → (do
        u ← username
        p ← password
        fields ← set
        ok (resolved_keys (keys_of defaults raw u p) fields))
        ≡ ok c
      → FromKeys c
  finished-FromKeys defaults raw c (ok u) (ok p) (ok fields) sorted h =
      let (up, canonical) = sorted fields refl in
      from_keys (keys_of defaults raw u p) fields (sym (ok_injective h)) up canonical
  finished-FromKeys defaults raw c (ok u) (ok p) (err e) sorted h = absurd (cc)
  finished-FromKeys defaults raw c (ok u) (err e) set sorted h = absurd (cc)
  finished-FromKeys defaults raw c (err e) password set sorted h = absurd (cc)

  resolve-FromKeys :
      (defaults : Defaults) (raw : RawDevice) (c : DeviceConfig)
      → resolve new_v5 defaults raw ≡ ok c
      → FromKeys c
  unfolding resolve
  resolve-FromKeys defaults raw c h =
      finished-FromKeys defaults raw c
        (require raw.id "username" (or_else raw.username defaults.username))
        (require raw.id "password" (or_else raw.password defaults.password))
        (canonicalize_disabled raw.id (or_else raw.disabled_fields defaults.disabled_fields))
        (canonicalize_disabled-ascending raw.id
          (or_else raw.disabled_fields defaults.disabled_fields))
        h

  resolve-raw_of_keys :
      (defaults : Defaults) (k : Keys) (fields : List String)
      → ascending fields ≡ true
      → all is_canonical fields ≡ true
      → resolve new_v5 defaults (raw_of (resolved_keys k fields)) ≡ ok (resolved_keys k fields)
  unfolding resolve raw_of canonicalize_disabled require derive_uuid
  resolve-raw_of_keys defaults k fields up canonical = λ i.
      canonical_set_fixed k.id fields [] up canonical i >>= λ disabled. ok (
        built k (from_secs (as_secs-from_secs k.connect_secs i))
          (from_secs (as_secs-from_secs k.exchange_secs i))
          (interval-secs_or_zero k.sis_keepalive_secs i)
          (interval-secs_or_zero k.eager_retry_secs i) (interval-secs_or_zero k.cold_backoff_secs i)
          (interval-secs_or_zero k.self_heal_secs i) disabled)

  -- What a device resolves to, written out with every key, resolves to itself, whatever the
  -- defaults are then.
  pub resolve-raw_of :
      (defaults others : Defaults) (raw : RawDevice) (c : DeviceConfig)
      → resolve new_v5 defaults raw ≡ ok c
      → resolve new_v5 others (raw_of c) ≡ ok c
  resolve-raw_of defaults others raw c h = elim (resolve-FromKeys defaults raw c h) [
    | from_keys k fields is up canonical ↦
        subst (λ d. resolve new_v5 others (raw_of d) ≡ ok d) (sym is)
          (resolve-raw_of_keys others k fields up canonical)
  ]

  pub resolve-id :
      (defaults : Defaults) (raw : RawDevice) (c : DeviceConfig)
      → resolve new_v5 defaults raw ≡ ok c
      → c.id ≡ raw.id
  unfolding resolve derive_uuid
  resolve-id defaults raw c h =
      named (require raw.id "username" (or_else raw.username defaults.username))
        (require raw.id "password" (or_else raw.password defaults.password))
        (canonicalize_disabled raw.id (or_else raw.disabled_fields defaults.disabled_fields)) h
    where
      named :
          (username password : Result String ConfigError) (set : Result (List String) ConfigError)
          → (do
            u ← username
            p ← password
            fields ← set
            ok (resolved_keys (keys_of defaults raw u p) fields))
            ≡ ok c
          → c.id ≡ raw.id
      named (ok u) (ok p) (ok fields) h = ap (λ d. d.id) (sym (ok_injective h))
      named (ok u) (ok p) (err e) h = absurd (cc)
      named (ok u) (err e) set h = absurd (cc)
      named (err e) password set h = absurd (cc)
