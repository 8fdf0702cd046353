-- ===== src/Retry/Tests.antt =====
-- Policies and delays at concrete values, and the theorems of Bounds applied to them.
use docbuilder.Common.{◌≡◌, refl, arith}
use docbuilder.Common.Int.{pos, negsuc, mul64, one_shl64}
use docbuilder.Retry.Bounds.{IsUsable, growth, delay-ideal, delay_overflow}
use docbuilder.Retry.{exponential, second, thirty_seconds, Policy, delay}

abbrev doubling : Policy
doubling = record {
  mode = exponential;
  initial = pos second;
  max = pos thirty_seconds;
  max_retries = pos 100;
}

doubling-IsUsable : IsUsable doubling second thirty_seconds
doubling-IsUsable = record {
  initial_is = refl;
  max_is = refl;
  first_pos = omega arith;
  ordered = omega arith;
}

delay_third : delay doubling (pos 3) ≡ pos 4000000000
unfolding delay mul64 one_shl64
delay_third = refl

-- 2^34 seconds do not fit in an int64: the delay is negative, and so no delay at all.
delay_wraps : delay doubling (pos 35) ≡ negsuc 1266874889709551615
unfolding delay mul64 one_shl64
delay_wraps = refl

delay-ideal_example : delay doubling (pos 4) ≡ pos 8000000000
unfolding growth
delay-ideal_example =
    delay-ideal doubling second thirty_seconds doubling-IsUsable 3 (unfold growth in omega arith)

delay_overflow_example : delay doubling (pos 66) ≡ pos 0
delay_overflow_example = delay_overflow doubling thirty_seconds 1 refl refl
