-- ===== src/Db/Diagnoses.antt =====
-- The diagnoses table: save_diagnosis and diagnoses of backend/app/db.py, without the context column.
use ecu_telemetry.Prelude.{ℕ, ◌+◌, List, ◌∷◌, take}
use ecu_telemetry.Prelude.Tables.{select}
use ecu_telemetry.Python.Floats.{Floats}
use ecu_telemetry.Python.Text.{Text, ◌===◌}
use ecu_telemetry.Bus.{Time}
use ecu_telemetry.Db.Types.{Diagnosis, DiagnosisRow, Database}

module _ ⦃fl : Floats⦄ where
  unfoldable pub save_diagnosis :
      Text → Text → Diagnosis → Time → Database → Database × DiagnosisRow
  save_diagnosis k model result now db =
      let row : DiagnosisRow = record {
        id = db.next_diagnosis;
        device_id = k;
        created_at = now;
        model = model;
        result = result;
      } in
      (record db { diagnoses = row ∷ db.diagnoses; next_diagnosis = db.next_diagnosis + 1 }, row)

  unfoldable pub diagnoses : Text → ℕ → Database → List DiagnosisRow
  diagnoses k limit db = take limit (select (λ r. r.device_id === k) db.diagnoses)
