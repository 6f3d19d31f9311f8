-- ===== src/Network/Wait.antt =====
-- What ends the wait of a disruptor: its timer, or its context. Used for the `select` statements
-- of pkg/agent/network/disruptor.go and pkg/agent/network/partition.go.
use xk6_disruptor.Prelude.{Option, none, some, Error, message, ℤ, pos}

-- time.Second, in nanoseconds.
abbrev pub second : ℤ
second = pos 1000000000

abbrev pub duration_too_short : Error
duration_too_short = message "duration must be at least 1 second"

pub data Wake : Type 0 where
  timer : Wake
  context_done : Error → Wake

-- case <-time.After(duration): return nil; case <-ctx.Done(): return ctx.Err()
unfoldable pub wait : Wake → Option Error
wait timer = none
wait (context_done e) = some e
