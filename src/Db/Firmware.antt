-- ===== src/Db/Firmware.antt =====
-- The firmware and fw_jobs tables of backend/app/db.py.
use ecu_telemetry.Prelude.{
  ℕ, ◌+◌, Bool, not, ◌||◌, Option, List, [], ◌∷◌, ◌++◌, ◌==◌, if◌then◌else◌,
}
use ecu_telemetry.Prelude.Tables.{find, update}
use ecu_telemetry.Python.Floats.{Floats}
use ecu_telemetry.Python.Text.{Text, text, ◌===◌}
use ecu_telemetry.Bus.{Time}
use ecu_telemetry.Db.Types.{Firmware, FwJob, Database}

-- INSERT OR REPLACE by the primary key.
replace_firmware : Firmware → List Firmware → List Firmware
replace_firmware fw [] = fw ∷ []
replace_firmware fw (f ∷ fs) =
    let rest = replace_firmware fw fs in if f.version === fw.version then fw ∷ fs else f ∷ rest

-- json.loads(history) with one more entry.
abbrev pub add_status : Text → Time → FwJob → FwJob
add_status status now j = record j {
  status = status;
  updated_at = now;
  history = j.history ++ ((status, now) ∷ []);
}

-- `job["status"] not in ("complete", "rejected", "failed")`
unfoldable pub in_progress : FwJob → Bool
in_progress j = not (
    (j.status === text "complete")
    || ((j.status === text "rejected") || (j.status === text "failed")))

module _ ⦃fl : Floats⦄ where
  unfoldable pub firmware_get : Database → Text → Option Firmware
  firmware_get db version = find (λ f. f.version === version) db.firmware

  unfoldable pub firmware_add : Text → Text → ℕ → ℕ → Time → Database → Database
  unfolding replace_firmware
  firmware_add version notes size crc now db =
      let fw : Firmware = record {
        version = version;
        notes = notes;
        size_bytes = size;
        crc = crc;
        created_at = now;
      } in
      record db { firmware = replace_firmware fw db.firmware }

  unfoldable pub fw_job_create : Text → Text → Option Text → Time → Database → Database × FwJob
  fw_job_create device_id target from_version now db =
      let j : FwJob = record {
        id = db.next_job;
        device_id = device_id;
        target_version = target;
        from_version = from_version;
        status = text "pending";
        created_at = now;
        updated_at = now;
        history = (text "pending", now) ∷ [];
      } in
      (record db { fw_jobs = j ∷ db.fw_jobs; next_job = db.next_job + 1 }, j)

  unfoldable pub fw_job_get : Database → ℕ → Option FwJob
  fw_job_get db jid = find (λ j. j.id == jid) db.fw_jobs

  -- ORDER BY id DESC LIMIT 1
  unfoldable pub fw_job_latest : Database → Text → Option FwJob
  fw_job_latest db device_id = find (λ j. j.device_id === device_id) db.fw_jobs

  -- An unknown id changes nothing.
  unfoldable pub fw_job_update : ℕ → Text → Time → Database → Database
  fw_job_update jid status now db = record db {
    fw_jobs = update (λ j. j.id == jid) (add_status status now) db.fw_jobs;
  }
