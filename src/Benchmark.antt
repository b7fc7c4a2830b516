-- ===== src/Benchmark.antt =====
-- user/benchmark/benchmark.go: the counters behind the statistics. Durations are the 64 bits of a
-- `time.Duration`.
use bdr.Common.{ℕ, ◌+◌, Bool, if◌then◌else◌, u64}

pub record BenchmarkStats : Type 0 where
  pub up : Bool
  pub total_bytes_written : ℕ
  pub total_packets_sent : ℕ
  pub hashing_time : ℕ
  pub hashing_bytes : ℕ
  pub buffer_overflows : ℕ
  pub reconnection_events : ℕ
  pub writing_time : ℕ

unfoldable pub new_benchmark_stats : Bool → BenchmarkStats
new_benchmark_stats up = record {
  up = up;
  total_bytes_written = 0;
  total_packets_sent = 0;
  hashing_time = 0;
  hashing_bytes = 0;
  buffer_overflows = 0;
  reconnection_events = 0;
  writing_time = 0;
}

unfoldable pub record_write : ℕ → ℕ → BenchmarkStats → BenchmarkStats
record_write duration bytes bs =
    if bs.up
    then record bs {
      total_bytes_written = u64 (bs.total_bytes_written + bytes);
      writing_time = u64 (bs.writing_time + duration);
      total_packets_sent = u64 (bs.total_packets_sent + 1);
    }
    else bs

unfoldable pub record_hashing : ℕ → ℕ → BenchmarkStats → BenchmarkStats
record_hashing duration bytes bs =
    if bs.up
    then record bs {
      hashing_time = u64 (bs.hashing_time + duration);
      hashing_bytes = u64 (bs.hashing_bytes + bytes);
    }
    else bs

unfoldable pub record_buffer_overflow : BenchmarkStats → BenchmarkStats
record_buffer_overflow bs =
    if bs.up then record bs { buffer_overflows = u64 (bs.buffer_overflows + 1) } else bs

unfoldable pub record_reconnection : BenchmarkStats → BenchmarkStats
record_reconnection bs =
    if bs.up then record bs { reconnection_events = u64 (bs.reconnection_events + 1) } else bs
