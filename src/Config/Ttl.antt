-- ===== src/Config/Ttl.antt =====
-- pkg/config/ttl.go. A TTL is a uint32 of seconds; a time.Duration is an int64 of nanoseconds. The
-- duration that `time.ParseDuration` yields is an argument: its sign and its magnitude.
use proxygw.Prelude.{
  Bool, Option, arith, false, if◌then◌else◌, leb, none, some, ℕ, ◌%◌, ◌*◌, ◌+◌, ◌/◌, ◌<◌, ◌^◌, ◌↔◌,
  ◌≡◌, ◌≤◌, ◌⊎◌,
}

abbrev pub Ttl : Type 0
Ttl = ℕ

abbrev pub ttl_max : Ttl
ttl_max = 4294967295

-- time.Second
abbrev pub second : ℕ
second = 1000000000

abbrev ttl_max_duration : ℕ
ttl_max_duration = ttl_max * second

-- A signed duration.
pub record Duration : Type 0 where
  pub negative : Bool
  pub nanos : ℕ

-- `ttlMinDuration <= result && result <= ttlMaxDuration`
in_range : Duration → Bool
in_range d = if d.negative then leb d.nanos 0 else leb d.nanos ttl_max_duration

-- The end of `ParseTTL`, behind `time.ParseDuration`, which yields `none` for its error.
pub parse : Option Duration → Option Ttl
unfolding in_range
parse none = none
parse (some d) = if in_range d then some ((d.nanos / second) % 2 ^ 32) else none

-- The product is taken modulo 2^64, as int64 multiplication is.
pub to_duration : Ttl → ℕ
to_duration t = (t * second) % 2 ^ 64

-- The conversion of a TTL of at most 2^32 - 1 seconds to a duration does not overflow int64, and the
-- TTL is what the duration is taken as again.
pub parse-to_duration :
    (t : Ttl)
    → t ≤ ttl_max
    → (to_duration t ≡ t * second)
      × (to_duration t < 2 ^ 63)
      × (parse (some (record { negative = false; nanos = to_duration t })) ≡ some t)
unfolding parse to_duration
parse-to_duration t h = (omega arith, omega arith, ground arith)

-- The duration of a text is taken as a TTL exactly when it is from 0 to 2^32 - 1 seconds, and the
-- TTL is its whole seconds.
pub parse_iff :
    (d : Duration) (t : Ttl)
    → (parse (some d) ≡ some t) ↔ (
        ((d.negative ≡ false) ⊎ (d.nanos ≡ 0))
        × (d.nanos ≤ ttl_max * second)
        × (t * second ≤ d.nanos)
        × (d.nanos < (t + 1) * second))
unfolding parse in_range
parse_iff d t = ground arith
