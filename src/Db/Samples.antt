-- ===== src/Db/Samples.antt =====
-- The telemetry table and its write buffer: buffer_telemetry, flush and prune of backend/app/db.py.
-- Rows stand in the order in which they were written.
use ecu_telemetry.Prelude.{
  ℕ, ◌+◌, ◌-◌, ◌*◌, ◌≡◌, refl, not, List, [], ◌∷◌, ◌++◌, arith, append_assoc, ltb, length,
  length-append,
}
use ecu_telemetry.Prelude.Tables.{select}
use ecu_telemetry.Python.Floats.{Floats}
use ecu_telemetry.Bus.{Time, second}
use ecu_telemetry.Db.Types.{Sample, Database}

module _ ⦃fl : Floats⦄ where
  unfoldable pub buffer_telemetry : Sample → Database → Database
  buffer_telemetry row db = record db { tel_buf = db.tel_buf ++ (row ∷ []) }

  unfoldable pub flush : Database → Database × ℕ
  flush db = (record db { telemetry = db.telemetry ++ db.tel_buf; tel_buf = [] }, length db.tel_buf)

  -- `retention` is retention_h in clock ticks.
  unfoldable pub prune : Time → Time → Database → Database
  prune retention now db =
      let cutoff = now - retention in
      let old_logs = cutoff - 6 * 86400 * second in
      record db {
        telemetry = select (λ r. not (ltb r.ts cutoff)) db.telemetry;
        logs = select (λ r. not (ltb r.ts old_logs)) db.logs;
      }

  -- All samples that were taken and not pruned, stored or waiting.
  abbrev pub samples : Database → List Sample
  samples db = db.telemetry ++ db.tel_buf

  -- Buffering a sample and flushing stores it behind all earlier samples, which stay in their order,
  -- and nothing is left waiting.
  pub flush-buffer_telemetry :
      (row : Sample) (db : Database)
      → ((flush (buffer_telemetry row db)).0.telemetry ≡ samples db ++ (row ∷ []))
        × ((flush (buffer_telemetry row db)).0.tel_buf ≡ [])
        × ((flush (buffer_telemetry row db)).1 ≡ length db.tel_buf + 1)
  unfolding flush buffer_telemetry
  flush-buffer_telemetry row db =
      (rw append_assoc, refl, omega (arith, length-append db.tel_buf (row ∷ [])))
