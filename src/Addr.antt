-- ===== src/Addr.antt =====
-- `std::net` as the program uses it: addresses, and their parser.
pub mod Socket
use mathlib.Core.Option
use v6proxy.Prelude.{
  ℕ, zero, suc, ◌+◌, ◌-◌, ◌*◌, ◌/◌, ◌%◌, ◌≡◌, ◌↔◌, Bool, true, false, not, ◌&&◌, ◌||◌, Option, none,
  some, List, [], ◌∷◌, ◌++◌, if◌then◌else◌, ◌==◌, eq_ℕ, Eq, leb, ltb, arith, is_empty, length,
  foldl, refl, replicate,
}
use v6proxy.Text.{Text, codes}
use v6proxy.Text.Numbers.{to_digit}

-- The address as a number of 32 or of 128 bits.
pub data IpAddr : Type 0 where
  v4 : ℕ → IpAddr
  v6 : ℕ → IpAddr

unfoldable pub ip_eq : IpAddr → IpAddr → Bool
ip_eq (v4 a) (v4 b) = a == b
ip_eq (v6 a) (v6 b) = a == b
ip_eq _ _ = false

pub ip_eq_iff : (a b : IpAddr) → (ip_eq a b ≡ true) ↔ (a ≡ b)
unfolding ip_eq
ip_eq_iff (v4 a) (v4 b) = ground arith
ip_eq_iff (v4 a) (v6 b) = ground arith
ip_eq_iff (v6 a) (v4 b) = ground arith
ip_eq_iff (v6 a) (v6 b) = ground arith

instance abbrev pub eq_ip : Eq IpAddr
eq_ip = record { beq = ip_eq; beq_iff = ip_eq_iff }

-- A reader takes what it can from the front of the text, or fails and takes nothing.
abbrev Reader : Type 0 → Type 0
Reader A = Text → Option (A × Text)

infixl 5 ◌>>=◌ ◌>>◌
abbrev ◌>>=◌ : {A B : Type 0} → Reader A → (A → Reader B) → Reader B
◌>>=◌ r f s = elim (r s) [ none ↦ none | some (a, rest) ↦ f a rest ]

abbrev ◌>>◌ : {B : Type 0} → Reader (Unit {0}) → Reader B → Reader B
r >> k = r >>= λ _. k

abbrev done : {A : Type 0} → A → Reader A
done a s = some (a, s)

-- `read_given_char`
given_char : ℕ → Reader (Unit {0})
given_char c [] = none
given_char c (d ∷ s) = if d == c then some (tt, s) else none

-- The digits at the front, with their value and their number.
digit_run : ℕ → ℕ → ℕ → Text → ℕ × ℕ × Text
digit_run radix value count [] = (value, count, [])
digit_run radix value count (c ∷ s) = elim (to_digit radix c) [
  | none ↦ (value, count, c ∷ s)
  | some d ↦ digit_run radix (value * radix + d) (suc count) s
]

has_leading_zero : Text → Bool
has_leading_zero [] = false
has_leading_zero (c ∷ s) = c == b'0'

-- `read_number`, for a type whose largest value is `most`
read_number : ℕ → ℕ → ℕ → Bool → Reader ℕ
unfolding digit_run has_leading_zero
read_number radix max_digits most zero_prefix s =
    let (value, count, rest) = digit_run radix 0 0 s in
    if ltb max_digits count || (count == 0)
    then none
    else if not zero_prefix && has_leading_zero s && ltb 1 count
    then none
    else if leb value most
    then some (value, rest)
    else none

-- `read_separator`
separated : {A : Type 0} → ℕ → ℕ → Reader A → Reader A
unfolding given_char
separated sep zero r = r
separated sep (suc i) r = do given_char sep; r

read_octet : ℕ → Reader ℕ
unfolding separated read_number
read_octet i = separated b'.' i (read_number 10 3 255 false)

read_ipv4_addr : Reader ℕ
unfolding read_octet
read_ipv4_addr = do
  a ← read_octet 0
  b ← read_octet 1
  c ← read_octet 2
  d ← read_octet 3
  done (((a * 256 + b) * 256 + c) * 256 + d)

read_group : ℕ → Reader ℕ
unfolding separated read_number
read_group i = separated b':' i (read_number 16 4 0xffff true)

-- `read_groups`, over the slots that are left: the groups read, and whether an IPv4 address ended
-- them. Only with two slots left is an IPv4 address tried.
read_groups : ℕ → ℕ → List ℕ → Text → List ℕ × Bool × Text
unfolding read_ipv4_addr separated read_group
read_groups zero i groups s = (groups, false, s)
read_groups (suc zero) i groups s = elim (read_group i s) [
  | none ↦ (groups, false, s)
  | some (g, rest) ↦ (groups ++ g ∷ [], false, rest)
]
read_groups (suc (suc left)) i groups s = elim (separated b':' i read_ipv4_addr s) [
  | some (addr, rest) ↦ (groups ++ (addr / 0x10000) ∷ (addr % 0x10000) ∷ [], true, rest)
  | none ↦ elim (read_group i s) [
    | none ↦ (groups, false, s)
    | some (g, rest) ↦ read_groups (suc left) (suc i) (groups ++ g ∷ []) rest
  ]
]

value_of : List ℕ → ℕ
value_of groups = foldl (λ (value g : ℕ). value * 0x10000 + g) 0 groups

-- `read_ipv6_addr`: eight groups, or what `::` abbreviates.
read_ipv6_addr : Reader ℕ
unfolding read_groups read_group given_char value_of
read_ipv6_addr s =
    let (head, with_ipv4, rest) = read_groups 8 0 [] s in
    let abbreviated : Option (ℕ × Text) =
      (do
        given_char b':'
        given_char b':'
        λ after.
            let (tail, _, left) = read_groups (7 - length head) 0 [] after in
            some (value_of (head ++ replicate (8 - length head - length tail) 0 ++ tail), left))
        rest in
    if length head == 8 then some (value_of head, rest) else if with_ipv4 then none else abbreviated

-- `parse_with`: the whole text has to be taken.
whole : {A : Type 0} → Option (A × Text) → Option A
whole none = none
whole (some (a, rest)) = if is_empty rest then some a else none

-- `Ipv6Addr::from_str`
unfoldable pub parse_ipv6 : Text → Option ℕ
unfolding read_ipv6_addr whole
parse_ipv6 s = whole (read_ipv6_addr s)

-- `IpAddr::from_str`
unfoldable pub parse_ip : Text → Option IpAddr
unfolding read_ipv4_addr read_ipv6_addr whole
parse_ip s = elim (read_ipv4_addr s) [
  | some (addr, rest) ↦ Option.map v4 (whole (some (addr, rest)))
  | none ↦ Option.map v6 (whole (read_ipv6_addr s))
]

parse_ip_tests :
    (parse_ip (codes "203.0.113.10") ≡ some (v4 0xcb00710a))
    × (parse_ip (codes "2001:db8::1") ≡ some (v6 0x20010db8000000000000000000000001))
    × (parse_ip (codes "::ffff:127.0.0.1") ≡ some (v6 0xffff7f000001))
    × (parse_ip (codes "::") ≡ some (v6 0))
    × (parse_ip (codes "01.2.3.4") ≡ none)
    × (parse_ip (codes "1.2.3") ≡ none)
    × (parse_ip (codes "1:2:3:4:5:6:7") ≡ none)
    × (parse_ip (codes "1::2::3") ≡ none)
unfolding parse_ip to_digit
parse_ip_tests = (refl, refl, refl, refl, refl, refl, refl, refl)
