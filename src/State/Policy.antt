-- ===== src/State/Policy.antt =====
-- Hash policies and bindings of src/state.rs.
use v6proxy.Prelude.{ℕ, Option, none, some, ◌^◌, ◌-◌, if◌then◌else◌, ◌==◌}
use v6proxy.Text.{Text, codes, eq_text, strip_prefix}
use v6proxy.Text.Numbers.{from_str_radix}

pub data HashPolicy : Type 0 where
  src_ip src_dst five_tuple : HashPolicy

-- `Display` and `FromStr`
unfoldable pub show_policy : HashPolicy → Text
show_policy src_ip = codes "src_ip"
show_policy src_dst = codes "src_dst"
show_policy five_tuple = codes "five_tuple"

unfoldable pub parse_policy : Text → Option HashPolicy
parse_policy s =
    if s == codes "src_ip"
    then some src_ip
    else if s == codes "src_dst"
    then some src_dst
    else if s == codes "five_tuple"
    then some five_tuple
    else none

-- `u64::MAX`
abbrev pub u64_max : ℕ
u64_max = 2 ^ 64 - 1

unfoldable pub parse_seed : Text → Option ℕ
parse_seed value = elim (strip_prefix (codes "0x") value) [
  | some hex ↦ from_str_radix 16 u64_max hex
  | none ↦ from_str_radix 10 u64_max value
]

-- Times are numbers; what the clock returned is an argument of the operations.
pub record Binding : Type 0 where
  pub policy : HashPolicy
  pub seed : ℕ
  pub updated_at : ℕ
