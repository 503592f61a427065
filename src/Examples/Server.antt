-- ===== src/Examples/Server.antt =====
-- Examples of the server, its connections and its counters.
use ecu_telemetry.Prelude.{◌+◌, ◌-◌, ◌%◌, ◌^◌, ◌≡◌, refl, true, false, some, [], ◌∷◌, arith}
use ecu_telemetry.Python.Result.{bad_length}
use ecu_telemetry.Protocol.Header.{unpack_header}
use ecu_telemetry.Protocol.Frame.{decode}
use ecu_telemetry.Ingest.Stats.{DeviceStats, new_stats, note_seq}
use ecu_telemetry.Ingest.Stats.Gaps.{after, sum, after-seq_gaps, note_seq-stale, after-window}
use ecu_telemetry.Ingest.State.{Ingest, on_datagram}
use ecu_telemetry.Ingest.State.Keeps.{Sound, Counted, on_datagram-rejects}
use ecu_telemetry.Ingest.Dispatch.Steps.{here, step, datagram, Reach-Sound}
use ecu_telemetry.Prelude.Tables.{lookup}
use ecu_telemetry.Python.Text.{text, ◌===◌}
use ecu_telemetry.Db.Types.{Firmware}
use ecu_telemetry.Db.Devices.{new_device, get_device}
use ecu_telemetry.Db.Firmware.{firmware_get}
use ecu_telemetry.Api.Registry.{firmware_deploy}
use ecu_telemetry.Api.Deploy.{Waits, firmware_deploy-Waits}
use ecu_telemetry.Proxy.{Impairments, Stats, Draw, datagram_received}
use ecu_telemetry.Proxy.Balance.{Balanced, datagram_received-Balanced}
use ecu_telemetry.Examples.{two, device, empty, server, net, world, world-IsUnique}

Reach-Sound_example : Sound (on_datagram (1 ∷ []) 5 server)
Reach-Sound_example =
    Reach-Sound net server (on_datagram (1 ∷ []) 5 server)
      (step server server (on_datagram (1 ∷ []) 5 server) (here server)
        (datagram (1 ∷ []) 5 server))
      world-IsUnique

on_datagram-rejects_example :
    ((on_datagram (1 ∷ []) 5 server).world ≡ world)
    × Counted
        (unpack_header (1 ∷ []))
        (record server { total_frames = 1 })
        (on_datagram (1 ∷ []) 5 server)
unfolding decode unpack_header
on_datagram-rejects_example = on_datagram-rejects (1 ∷ []) 5 server bad_length refl

-- The counters of a device whose last frame had the largest number.
abbrev at_end : DeviceStats
at_end = record new_stats { last_seq = some (2 ^ 32 - 1) }

after-seq_gaps_example : (after (2 ^ 32 - 1) (1 ∷ 4 ∷ []) at_end).seq_gaps + 2 ≡ 5
unfolding sum
after-seq_gaps_example =
    after-seq_gaps (2 ^ 32 - 1) (1 ∷ 4 ∷ []) at_end refl (omega arith)
      ((omega arith, omega arith), ((omega arith, omega arith), tt))

note_seq-stale_example : note_seq ((2 ^ 32 - 1 + (2 ^ 32 - 2)) % 2 ^ 32) at_end ≡ at_end
note_seq-stale_example = note_seq-stale (2 ^ 32 - 1) 2 at_end refl (omega arith) (omega arith)

after-window_example : (after (2 ^ 32 - 1) (1 ∷ 4 ∷ []) at_end).window ≡ (1, 1) ∷ (1, 4) ∷ []
after-window_example =
    after-window (2 ^ 32 - 1) (1 ∷ 4 ∷ []) at_end refl (omega arith) (omega arith)
      ((omega arith, omega arith), ((omega arith, omega arith), tt))

abbrev fw : Firmware
fw = record { version = text "1.2.3"; notes = []; size_bytes = 100; crc = 7; created_at = 1 }

-- The device is known, a firmware is registered, and no connection is open.
abbrev ready : Ingest
ready = record server {
  world = record world {
    db = record empty { devices = new_device device 1 ∷ []; firmware = fw ∷ [] };
  };
}

firmware_deploy-Waits_example :
    Waits device (text "1.2.3") (firmware_deploy net device (text "1.2.3") 9 ready).0
unfolding get_device firmware_get lookup ◌===◌
firmware_deploy-Waits_example =
    firmware_deploy-Waits net device (text "1.2.3") 9 ready (new_device device 1) fw refl refl refl

abbrev idle : Stats
idle = record {
  received = 0;
  forwarded = 0;
  dropped = 0;
  duplicated = 0;
  reordered = 0;
  returned = 0;
}

abbrev twice : Impairments
twice = record { drop = false; delay_ms = true; jitter_ms = false; reorder = false; dup = true }

abbrev draw : Draw
draw = record { jitter = false; reorder = false }

datagram_received-Balanced_example :
    Balanced (datagram_received twice true false draw draw idle) idle
datagram_received-Balanced_example = datagram_received-Balanced twice true false draw draw idle
