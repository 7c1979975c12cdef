-- ===== src/Schedule/Ramp.antt =====
-- How the clients of a task start and stop one after the other.
use native.Mathlib.Nat.{
  mul-le-mul_left, mul-le-mul_right, mul-lt-mul_of_pos_left, mul-lt-mul_of_pos_right, mul-zero,
}
use solr_benchmark.Prelude.{
  ℕ, suc, ◌-◌, ◌*◌, ◌≤◌, ◌<◌, ◌≡◌, true, some, leb, Bool-cases, inl, inr, arith,
}
use solr_benchmark.Allocator.{TaskAllocation}
use solr_benchmark.Schedule.{client_duration, is_over, ramp_up_wait_time}

leb-mul : (a b k : ℕ) → 0 < k → leb (a * k) (b * k) ≡ leb a b
leb-mul a b k pos = elim (Bool-cases (leb a b)) [
  | inl le ↦ let h : a ≤ b = ground (arith, le) in ground (arith, mul-le-mul_right k h)
  | inr gt ↦ let h : b < a = ground (arith, gt) in ground (arith, mul-lt-mul_of_pos_right h pos)
]

-- Among the clients of a task, one with a smaller index never runs longer: at every time at which a
-- client is over, each client before it is over, too; and the last client is over exactly when the
-- whole period has passed.
pub client_duration_lem :
    (base ramp_down total i j elapsed : ℕ)
    → i ≤ j
    → j < total
    → ((is_over elapsed (some (client_duration base ramp_down j total)) ≡ true)
        → is_over elapsed (some (client_duration base ramp_down i total)) ≡ true)
      × (is_over elapsed (some (client_duration base ramp_down (total - 1) total))
          ≡ leb base elapsed)
unfolding client_duration
client_duration_lem base ramp_down total i j elapsed before inside =
    let less = mul-le-mul_left {m = total - 1 - j} {n = total - 1 - i} ramp_down (omega arith) in
    let none_left : ramp_down * (total - 1 - (total - 1)) ≡ 0 =
      let e : total - 1 - (total - 1) ≡ 0 = omega arith in rw e (mul-zero ramp_down) in
    (
      λ over. ground (arith, less),
      ground (
        arith,
        none_left,
        leb-mul base elapsed total (omega arith),
        leb-mul base elapsed 1 (omega arith),
      ),
    )

-- With a ramp-up period, a client waits less than the period, and a client with a smaller index does
-- not wait longer, by exact fractions over the same total.
pub ramp_up_wait_time_lem :
    (period : ℕ) (a b : TaskAllocation)
    → a.task.ramp_up_time_period ≡ some (suc period)
    → b.task.ramp_up_time_period ≡ some (suc period)
    → a.total_clients ≡ b.total_clients
    → a.global_client_index ≤ b.global_client_index
    → b.global_client_index < b.total_clients
    → ((ramp_up_wait_time a).0 ≤ (ramp_up_wait_time b).0)
      × ((ramp_up_wait_time b).0 < suc period * (ramp_up_wait_time b).1)
      × ((ramp_up_wait_time a).1 ≡ (ramp_up_wait_time b).1)
unfolding ramp_up_wait_time
ramp_up_wait_time_lem period a b e f same before inside =
    rw (e, f)
      (mul-le-mul_left (suc period) before, mul-lt-mul_of_pos_left inside (omega arith), same)
