-- ===== src/Asr/SegmentIds.antt =====
-- src/asr/mod.rs, `SegmentIds(Arc<AtomicU64>)`: the value of its counter.
use larmindon_core.Base.{ℕ, ◌+◌, ◌%◌, ◌^◌}

abbrev pub u64_mod : ℕ
u64_mod = 2 ^ 64

unfoldable pub new : ℕ
new = 1

-- `fetch_add(1)` returns the value before, and wraps.
unfoldable pub next : ℕ → ℕ × ℕ
next counter = (counter, (counter + 1) % u64_mod)
