-- ===== src/Core/Ids.antt =====
-- The ids of requests that wait for a response.
use greybus_for_zephyr.Base.{ℕ, zero, suc, ◌+◌, ◌%◌, ◌^◌, ◌<◌, ◌≡◌, ◌≢◌, ◌==◌, if◌then◌else◌, arith}
use greybus_for_zephyr.Core.{State}
use greybus_for_zephyr.Core.Send.{take_id, next_id}

-- The id of the n-th request from now on that wants a response, if nothing else takes ids.
abbrev pub nth_id : ℕ → State → ℕ
nth_id zero s = (next_id s).0
nth_id (suc n) s = nth_id n (next_id s).1

-- The id behind `i`, in the cycle of 1 to 65535.
abbrev pub id_after : ℕ → ℕ
id_after i = if i == 65535 then 1 else i + 1

-- No request that wants a response has the id 0, which is for those that want none.
pub next_id_ne_zero : (s : State) → (0 < (next_id s).0) × ((next_id s).0 < 2 ^ 16)
unfolding next_id take_id
next_id_ne_zero s = ground arith

next_id_state : (s : State) → (next_id s).1.request_id % 2 ^ 16 ≡ ((next_id s).0 + 1) % 2 ^ 16
unfolding next_id take_id
next_id_state s = ground arith

next_id-next_id : (s : State) → (next_id (next_id s).1).0 ≡ id_after (next_id s).0
unfolding next_id take_id
next_id-next_id s = ground arith

nth_id_closed : (n : ℕ) (s : State) → nth_id n s ≡ ((next_id s).0 + 65534 + n) % 65535 + 1
nth_id_closed zero s = omega (arith, next_id_ne_zero s)
nth_id_closed (suc n) s =
    ground (arith, nth_id_closed n (next_id s).1, next_id-next_id s, next_id_ne_zero s)

-- Of 65535 successive requests that want a response no two have the same id, wherever the count
-- of ids stands, and also where it wraps, if nothing
-- else takes ids between them.
pub ids_distinct : (m n : ℕ) (s : State) → m < n → n < m + 65535 → nth_id m s ≢ nth_id n s
ids_distinct m n s lt near = omega (arith, nth_id_closed m s, nth_id_closed n s)

-- Taking an id changes the count of ids alone.
pub next_id-ops : (s : State) → (next_id s).1.ops ≡ s.ops
unfolding next_id take_id
next_id-ops s = ground arith

pub next_id-cports : (s : State) → (next_id s).1.cports ≡ s.cports
unfolding next_id take_id
next_id-cports s = ground arith

pub next_id-trace : (s : State) → (next_id s).1.trace ≡ s.trace
unfolding next_id take_id
next_id-trace s = ground arith

pub next_id-next_op : (s : State) → (next_id s).1.next_op ≡ s.next_op
unfolding next_id take_id
next_id-next_op s = ground arith
