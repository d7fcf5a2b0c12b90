-- ===== src/Cpu/Controller/Tests.antt =====
-- A controller whose loads are measured in quarters of a percent.
use loadmaster.Prelude.{◌≡◌, refl, [], ◌∷◌, arith}
use loadmaster.Prelude.Int.{pos, negsuc}
use loadmaster.Cpu.Controller.{Measured, update, after_updates}
use loadmaster.Cpu.Controller.Demand.{Controls, after_updates-Controls}

-- The last first: the system is 30 percent below its target, then 60 above it; others take 20.
abbrev low : Measured
low = record { target = 100; system_avg = pos 280; process_avg = pos 200 }

abbrev high : Measured
high = record { target = 100; system_avg = pos 640; process_avg = pos 560 }

-- 0.02 * (30 - 60) is -0.6, which is 120 times 1/200.
second_integral : (after_updates 4 400 (high ∷ low ∷ [])).integral ≡ negsuc 119
unfolding after_updates update
second_integral = refl

second_demand : (after_updates 4 400 (high ∷ low ∷ [])).demand ≡ 79
unfolding after_updates update
second_demand = refl

-- The output would pass the capacity of 50, so the integral stays.
frozen_integral : (after_updates 4 50 (low ∷ [])).integral ≡ pos 0
unfolding after_updates update
frozen_integral = refl

after_updates-Controls_example :
    Controls 4 400 high
      (after_updates 4 400 (low ∷ [])).integral
      (after_updates 4 400 (high ∷ low ∷ []))
after_updates-Controls_example = after_updates-Controls 4 399 high (low ∷ []) (omega arith)
