-- ===== src/Common.antt =====
-- pkg/common/atomic.go: a string behind a mutex, so every method is one atomic step.
use go_mod_edge_utils.Prelude.{String, Bool, true, false, ◌==◌, string_eq, if◌then◌else◌}

pub record AtomicString : Type 0 where
  pub value : String

unfoldable pub set : String → AtomicString → AtomicString
set v b = record b { value = v }

-- `CompareAndSwap`: whether the value was another, and so has changed.
unfoldable pub compare_and_swap : String → AtomicString → AtomicString × Bool
compare_and_swap new b = if b.value == new then (b, false) else (record b { value = new }, true)
