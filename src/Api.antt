-- ===== src/Api.antt =====
-- The handlers of backend/app/api.py: what they answer. JSON, routing and the event stream are left out.
pub mod Config
pub mod Registry
pub mod Control
pub mod Views
pub mod Deploy
pub mod Steps
use ecu_telemetry.Prelude.{ℕ, Bool, true, false}
use ecu_telemetry.Python.Result.{Error}
use ecu_telemetry.Python.Floats.{Floats}
use ecu_telemetry.Python.Text.{Text, text}
use ecu_telemetry.Ingest.State.{Ingest}

-- What a handler ends with: its answer, an HTTPException's status, or another exception.
pub data Answer (A : Type 0) : Type 0 where
  answered : A → Answer A
  refused : ℕ → Answer A
  raised : Error → Answer A

abbrev pub pushed_text : Bool → Text → Text
pushed_text true other = text "pushed"
pushed_text false other = other

module _ ⦃fl : Floats⦄ where
  abbrev pub Reply : Type 0 → Type 0
  Reply A = Ingest × Answer A
