-- ===== src/Models.antt =====
-- The rows and options that travel between the parts of the server: server/internal/models/models.go,
-- and UpdateCommandOpts of server/internal/store/interface.go.
-- A time.Time is a number of nanoseconds, a pgtype.UUID the number that its 16 bytes spell, a
-- pointer an Option. A nil and an empty slice of tags are one: no query tells them apart.
use jackrabbit.Base.{ℕ, String, ℤ, Bool, Option, List}

abbrev pub Time : Type 0
Time = ℕ

abbrev pub Uuid : Type 0
Uuid = ℕ

-- The bit pattern of a float64; the server stores these and never computes with them.
abbrev pub Float64 : Type 0
Float64 = ℕ

-- A value of the JSON object that is a command's payload: a string, or the text of any other value.
pub data PayloadValue : Type 0 where
  text : String → PayloadValue
  other : String → PayloadValue

abbrev pub Payload : Type 0
Payload = List (String × PayloadValue)

pub record Runner : Type 0 where
  pub slug : String
  pub name : String
  pub tags : List String
  pub status : String
  pub concurrency_limit : ℤ
  pub gpu_capable : Bool
  pub active_count : ℤ
  pub last_seen : Option Time
  pub orphaned_at : Option Time
  pub created_at : Time
  pub updated_at : Time

pub record Command : Type 0 where
  pub id : Uuid
  pub target_type : String
  pub target_value : String
  pub payload : Payload
  pub status : String
  pub assigned_runner : Option String
  pub retry_count : ℤ
  pub max_retries : ℤ
  pub timeout_secs : ℤ
  pub exit_code : Option ℤ
  pub error_message : Option String
  pub kill_requested_at : Option Time
  pub deadline : Option Time
  pub created_at : Time
  pub claimed_at : Option Time
  pub started_at : Option Time
  pub finished_at : Option Time

pub record Log : Type 0 where
  pub id : ℕ
  pub command_id : Option Uuid
  pub runner_slug : Option String
  pub source : String
  pub level : Option String
  pub line : String
  pub seq : ℤ
  pub ts : Time

pub record Metric : Type 0 where
  pub id : ℕ
  pub command_id : Option Uuid
  pub runner_slug : Option String
  pub cpu_percent : Option Float64
  pub mem_mb : Option Float64
  pub gpu_percent : Option Float64
  pub gpu_mem_mb : Option Float64
  pub rolled_up : Bool
  pub sample_ts : Time

pub record MetricRollup : Type 0 where
  pub id : ℕ
  pub command_id : Option Uuid
  pub runner_slug : Option String
  pub resolution : String
  pub bucket_ts : Time
  pub avg_cpu : Option Float64
  pub avg_mem : Option Float64
  pub avg_gpu : Option Float64
  pub avg_gpu_mem : Option Float64

pub record LogRetentionPolicy : Type 0 where
  pub id : ℕ
  pub scope : String
  pub scope_id : Option String
  pub max_age_days : Option ℤ
  pub max_size_mb : Option ℤ
  pub created_at : Time
  pub updated_at : Time

pub record UpdateCommandOpts : Type 0 where
  pub exit_code : Option ℤ
  pub error_message : Option String
  pub started_at : Option Time
  pub finished_at : Option Time
