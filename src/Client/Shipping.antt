-- ===== src/Client/Shipping.antt =====
-- client/internal/shipper: the buffers of logs.go and metrics.go, and what their flushes take.
-- A method holds the mutex while it uses the buffer, so that it is one step; a flush that Add starts
-- in a goroutine is a step of its own, which is pending until it is taken.
pub mod Flushes
pub mod Stored
pub mod Streamed
use jackrabbit.Base.{
  ℕ, suc, ◌-◌, String, ℤ, string_eq, ◌==◌, leb, if◌then◌else◌, Bool, true, false, Option, none,
  some, List, [], ◌∷◌, ◌++◌, length,
}
use jackrabbit.Models.{Time, Float64}

pub record LogEntry : Type 0 where
  pub command_id : String
  pub source : String
  pub level : String
  pub line : String
  pub seq : ℤ
  pub timestamp : Time

pub record MetricEntry : Type 0 where
  pub command_id : String
  pub cpu_percent : Float64
  pub mem_mb : Float64
  pub gpu_percent : Float64
  pub sample_time : Time

-- The buffer, the flushes that are started and have not run, the batches that were handed to the
-- server, oldest first, and for each whether the server took it.
pub record Shipper (E : Type 0) : Type 0 where
  pub buffer : List E
  pub pending : ℕ
  pub batches : List (List E × Bool)

unfoldable pub new_shipper : {E : Type 0} → Shipper E
new_shipper = record { buffer = []; pending = 0; batches = [] }

abbrev pub max_batch_size : ℕ
max_batch_size = 100

abbrev pub level_of : String → String
level_of source = if source == "stderr" then "error" else "info"

-- Add's entry.
abbrev pub log_entry : String → String → String → ℤ → Time → LogEntry
log_entry command_id source line seq timestamp = record {
  command_id = command_id;
  source = source;
  level = level_of source;
  line = line;
  seq = seq;
  timestamp = timestamp;
}

-- Add: a buffer that is full starts a flush.
unfoldable pub add : {E : Type 0} → E → Shipper E → Shipper E
add entry s =
    let buffer = s.buffer ++ entry ∷ [] in
    record s {
      buffer = buffer;
      pending = if leb max_batch_size (length buffer) then suc s.pending else s.pending;
    }

handed : {E : Type 0} → Bool → Shipper E → List E → Shipper E
handed shipped s [] = s
handed shipped s (entry ∷ entries) = record s {
  buffer = [];
  batches = s.batches ++ (entry ∷ entries, shipped) ∷ [];
}

-- flush, with the server's answer to the batch: a batch that is refused is only logged.
unfoldable pub flush : {E : Type 0} → Bool → Shipper E → Shipper E
unfolding handed
flush shipped s = handed shipped s s.buffer

-- A goroutine that Add started.
unfoldable pub flush_pending : {E : Type 0} → Bool → Shipper E → Shipper E
unfolding flush
flush_pending shipped s = flush shipped (record s { pending = s.pending - 1 })

-- A tick of MetricShipper.Start: a sample is collected where a process runs and can be measured.
unfoldable pub sample_tick : Bool → Option MetricEntry → Shipper MetricEntry → Shipper MetricEntry
unfolding flush
sample_tick shipped none s = flush shipped s
sample_tick shipped (some entry) s = flush shipped (record s { buffer = s.buffer ++ entry ∷ [] })
