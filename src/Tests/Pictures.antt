-- ===== src/Tests/Pictures.antt =====
-- The jitter buffer at concrete inputs.
use libp2pchannel.Prelude.{ℕ, ◌≡◌, refl, true, some, [], ◌∷◌, arith, replicate, ◌-◌, ◌^◌}
use libp2pchannel.Jitter.{
  jitter_destroy, jitter_init, Jitter, JitterFrame, Picture, zero_frame, jitter_pop,
}
use libp2pchannel.Jitter.Inv.{IsValid, count_valid}
use libp2pchannel.Jitter.Order.{Popped, jitter_pop-Popped}

-- A frame before and a frame behind the wrap, the later one first in memory.
abbrev held : ℕ → JitterFrame
held seq = record {
  y = some (1 ∷ []);
  u = some [];
  v = some [];
  lsy = 1;
  lsu = 0;
  lsv = 0;
  w = 1;
  h = 1;
  timestamp_us = 100;
  seq = seq;
  valid = true;
}

abbrev across_wrap : Jitter
across_wrap = record {
  frames = held 1 ∷ held (2 ^ 32 - 1) ∷ replicate 6 zero_frame;
  count = 2;
  target_delay_us = 50;
}

abbrev picture : Picture
picture = record {
  y = 1 ∷ 2 ∷ 3 ∷ 4 ∷ [];
  u = 5 ∷ [];
  v = 6 ∷ [];
  lsy = 2;
  lsu = 1;
  lsv = 1;
  w = 2;
  h = 2;
  timestamp_us = 300;
  seq = 2;
}

across_wrap-IsValid : IsValid across_wrap
unfolding count_valid zero_frame
across_wrap-IsValid = record { slots = refl; counted = refl }

jitter_pop-Popped_example :
    Popped
      (2 ^ 32 - 2)
      across_wrap
      400
      (jitter_pop across_wrap 400).0
      (jitter_pop across_wrap 400).1
unfolding zero_frame
jitter_pop-Popped_example = jitter_pop-Popped (2 ^ 32 - 2) across_wrap 400 (omega arith) (
  λ e. (omega arith, omega arith),
  (
    λ e. (omega arith, omega arith),
    (
      λ e. (omega arith, omega arith),
      (
        λ e. (omega arith, omega arith),
        (
          λ e. (omega arith, omega arith),
          (
            λ e. (omega arith, omega arith),
            (λ e. (omega arith, omega arith), (λ e. (omega arith, omega arith), tt)),
          ),
        ),
      ),
    ),
  ),
)

freed : (jitter_destroy (jitter_init 50)).count ≡ 0
unfolding jitter_destroy jitter_init
freed = refl
