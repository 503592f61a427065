-- ===== src/Db/Config/Versions.antt =====
-- The versions of a device's configurations.
use Prim.Native.Nat.{max}
use ecu_telemetry.Prelude.{
  ℕ, ◌+◌, ◌<◌, ◌≡◌, refl, some, List, [], ◌∷◌, map, ◌&&◌, ◌==◌, if◌then◌else◌, arith,
}
use ecu_telemetry.Prelude.Tables.{select, update}
use ecu_telemetry.Python.Floats.{Floats}
use ecu_telemetry.Python.Text.{Text, ◌===◌, ===_iff}
use ecu_telemetry.Bus.{Time}
use ecu_telemetry.Db.Types.{DeviceConfig, Database}
use ecu_telemetry.Db.Devices.{get_device}
use ecu_telemetry.Db.Config.{
  config_row, is_version, latest, current_config, config_version, reported_version, new_config,
  ack_config,
}

module _ ⦃fl : Floats⦄ where
  open fl use {Float}

  latest-newer :
      (k : Text) (row : DeviceConfig) (cs : List DeviceConfig)
      → row.device_id ≡ k
      → config_version (latest k cs) < row.version
      → latest k (row ∷ cs) ≡ some row
  unfolding latest
  latest-newer k row cs e h = ground (arith, ===_iff row.device_id k)

  -- The version after the last one and the one that the device has reported.
  abbrev pub next_version : Text → Database → ℕ
  next_version k db =
      max (config_version (current_config db k)) (reported_version (get_device db k)) + 1

  -- A new configuration is the current one afterwards, with the values that were given and a version
  -- one above both the last version and the one that the device has reported.
  pub new_config-current :
      (k : Text) (hz level : ℕ) (rpm temp current : Float) (now : Time) (db : Database)
      → ((new_config k hz level rpm temp current now db).1
          ≡ some (config_row k (next_version k db) hz level rpm temp current now))
        × (current_config (new_config k hz level rpm temp current now db).0 k
            ≡ some (config_row k (next_version k db) hz level rpm temp current now))
  unfolding new_config current_config
  new_config-current k hz level rpm temp current now db =
      let newer =
        latest-newer k (config_row k (next_version k db) hz level rpm temp current now) db.configs
          refl (unfold current_config in omega arith) in
      (newer, newer)

  -- The stored configurations of a device with a version.
  abbrev pub versions_of : Text → ℕ → List DeviceConfig → List DeviceConfig
  versions_of k v cs = select (λ (c : DeviceConfig). (c.device_id === k) && (c.version == v)) cs

  update-versions_of :
      (k j : Text) (v w : ℕ) (f : DeviceConfig → DeviceConfig) (cs : List DeviceConfig)
      → ((c : DeviceConfig) → (f c).version ≡ c.version)
      → ((c : DeviceConfig) → (f c).device_id ≡ c.device_id)
      → versions_of j w (update (is_version k v) f cs)
        ≡ (if (k === j) && (v == w) then map f (versions_of j w cs) else versions_of j w cs)
  update-versions_of k j v w f [] hv hd = ground arith
  update-versions_of k j v w f (c ∷ cs) hv hd = ground (
    arith,
    update-versions_of k j v w f cs hv hd,
    hv c,
    hd c,
    ===_iff k j,
    ===_iff c.device_id k,
    ===_iff c.device_id j,
  )

  -- Acknowledging a version of a device's configuration gives every stored row with that version of
  -- that device the status and the time, changes no other row, and leaves the order as it is.
  pub ack_config-versions_of :
      (k j : Text) (v w : ℕ) (status : Text) (now : Time) (db : Database)
      → versions_of j w (ack_config k v status now db).configs ≡ (
          if (k === j) && (v == w)
          then map
              (λ (c : DeviceConfig). record c { ack_status = status; acked_at = some now })
              (versions_of j w db.configs)
          else versions_of j w db.configs)
  unfolding ack_config
  ack_config-versions_of k j v w status now db =
      update-versions_of k j v w _ db.configs (λ c. refl) (λ c. refl)
