-- ===== src/Mesh/Random.antt =====
-- src/hal_linux.c: the random numbers, and the delays that mesh.c draws from them.
use meshcore_repeater.Common.{ℕ, ◌+◌, ◌-◌, ◌*◌, ◌/◌, ◌%◌, ◌^◌, ◌≤◌, leb, if◌then◌else◌, arith}
use Prim.Native.Nat.{bit_xor}
use meshcore_repeater.Packet.{Packet}
use meshcore_repeater.Packet.Codec.{raw_length}
use meshcore_repeater.Mesh.State.{Mesh, Env}

-- uint64_t xorshift.
unfoldable pub xorshift64 : ℕ → ℕ
xorshift64 x0 =
    let x1 = bit_xor x0 (x0 * 2 ^ 13 % 2 ^ 64) in
    let x2 = bit_xor x1 (x1 / 2 ^ 7) in bit_xor x2 (x2 * 2 ^ 17 % 2 ^ 64)

-- The new state and a number between `lo` and `hi`.
unfoldable pub hal_rng_int : ℕ → ℕ → ℕ → ℕ × ℕ
hal_rng_int state lo hi =
    if leb hi lo
    then (state, lo)
    else let state' = xorshift64 state in (state', lo + state' % (hi - lo + 1))

abbrev pub with_rng : Mesh → ℕ → Mesh
with_rng m state = record m { rng_state = state }

-- rand(0..5) slots of half the air time and 4 %, in uint32_t arithmetic.
unfoldable pub flood_backoff_ms : Env → Packet → Mesh → Mesh × ℕ
unfolding hal_rng_int
flood_backoff_ms env p m =
    let (state, slots) = hal_rng_int m.rng_state 0 5 in
    let t = env.airtime (raw_length p) * 52 % 2 ^ 32 / 50 / 2 in
    (with_rng m state, slots * t % 2 ^ 32)

abbrev pub mesh_reply_delay_ms : ℕ
mesh_reply_delay_ms = 300

unfoldable pub reply_delay_ms : Mesh → Mesh × ℕ
unfolding hal_rng_int
reply_delay_ms m =
    let (state, k) = hal_rng_int m.rng_state 0 3 in (with_rng m state, mesh_reply_delay_ms + k * 50)

-- hal_rng_int(0, 3) * 50, before an advert, a probe or a time line.
unfoldable pub small_jitter_ms : Mesh → Mesh × ℕ
unfolding hal_rng_int
small_jitter_ms m = let (state, k) = hal_rng_int m.rng_state 0 3 in (with_rng m state, k * 50)

-- A drawn number lies between the bounds that were asked for, both included.
pub hal_rng_int_bounds :
    (state lo hi : ℕ)
    → lo ≤ hi
    → (lo ≤ (hal_rng_int state lo hi).1) × ((hal_rng_int state lo hi).1 ≤ hi)
unfolding hal_rng_int
hal_rng_int_bounds state lo hi h = ground arith

-- A reply waits 300 to 450 ms.
reply_delay_bounds : (m : Mesh) → (300 ≤ (reply_delay_ms m).1) × ((reply_delay_ms m).1 ≤ 450)
unfolding reply_delay_ms
reply_delay_bounds m = ground arith
