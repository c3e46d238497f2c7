-- ===== src/Json.antt =====
-- The values that `json.loads` returns, and Python's `==`, `in`, `[]` and `get` on them.
-- A float is the finite number `m / 2 ^ k`; NaN and the infinities, which are not JSON, are left
-- out. An object's keys are distinct in what `json.loads` returns (`IsWellFormed`).
pub mod Equality
pub mod Values
unfoldable pub use Values.*
