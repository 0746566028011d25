-- ===== src/Fleet/Fingerprint.antt =====
-- crates/sismatic-core/src/devices/config.rs, `fingerprint`: the bytes that a device's identity is
-- drawn from. The uuid crate's `Uuid::new_v5` is an argument, a function of a namespace and of bytes.
use sismatic.Common.{
  ℕ, String, Bool, true, false, Option, none, some, List, [], ◌∷◌, ◌++◌, length, as_bytes,
  to_le_bytes,
}
use sismatic.Fleet.Config.{DeviceConfig}

-- `(bytes.len() as u64).to_le_bytes()` and then the bytes, before what is put after them.
unfoldable pub put : List ℕ → List ℕ → List ℕ
unfolding to_le_bytes
put bytes rest = to_le_bytes 8 (length bytes) ++ bytes ++ rest

-- A duration counts its nanoseconds in a `u128`.
unfoldable pub optional_bytes : Option ℕ → List ℕ
unfolding to_le_bytes
optional_bytes none = b'-' ∷ []
optional_bytes (some nanos) = to_le_bytes 16 nanos

unfoldable pub put_opt_duration : Option ℕ → List ℕ → List ℕ
unfolding put optional_bytes
put_opt_duration value rest = put (optional_bytes value) rest

unfoldable pub put_all : List String → List ℕ → List ℕ
unfolding put as_bytes
put_all [] rest = rest
put_all (field ∷ fields) rest = put (as_bytes field) (put_all fields rest)

abbrev bool_byte : Bool → ℕ
bool_byte true = 1
bool_byte false = 0

-- The buffer, field by field.
unfoldable pub fingerprint_bytes : DeviceConfig → List ℕ
unfolding put put_opt_duration put_all as_bytes to_le_bytes
fingerprint_bytes c = put (as_bytes c.id) (
    put (as_bytes c.host) (
      put (to_le_bytes 2 c.port) (
        put (as_bytes c.username) (
          put (as_bytes c.password) (
            put (to_le_bytes 16 c.connect_timeout) (
              put (to_le_bytes 16 c.exchange_timeout) (
                put (bool_byte c.eager ∷ []) (
                  put_opt_duration c.sis_keepalive (
                    put_opt_duration c.eager_retry (
                      put_opt_duration c.cold_backoff (
                        put (to_le_bytes 8 (length c.disabled_fields)) (
                          put_all c.disabled_fields (
                            put (to_le_bytes 4 c.auto_disable_after)
                              (put_opt_duration c.self_heal []))))))))))))))

abbrev pub device_namespace : List ℕ
device_namespace =
    31 ∷ 154 ∷ 76 ∷ 46 ∷ 123 ∷ 99 ∷ 77 ∷ 24 ∷ 158 ∷ 5 ∷ 194 ∷ 122 ∷ 131 ∷ 17 ∷ 109 ∷ 64 ∷ []

unfoldable pub fingerprint : (List ℕ → List ℕ → String) → DeviceConfig → String
unfolding fingerprint_bytes
fingerprint new_v5 config = new_v5 device_namespace (fingerprint_bytes config)

-- `DeviceConfig::derive_uuid`.
unfoldable pub derive_uuid : (List ℕ → List ℕ → String) → DeviceConfig → DeviceConfig
unfolding fingerprint
derive_uuid new_v5 config = record config { uuid = fingerprint new_v5 config }
