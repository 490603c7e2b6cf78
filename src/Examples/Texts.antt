-- ===== src/Examples/Texts.antt =====
-- utils.c: netmasks and addresses, on a reader of decimal numbers that can be run.
use netifd.Prelude.{
  ◌↔◌, ℕ, zero, suc, ◌+◌, ◌-◌, ◌*◌, ◌≤◌, ◌<◌, ◌≡◌, refl, ap, ◌∙◌, [], ◌∷◌, ◌++◌, Bool, true, false,
  ◌&&◌, Option, none, some, ◌==◌, leb, arith, if◌then◌else◌,
}
use netifd.Prelude.Int.{pos}
use netifd.Utils.Fls.{fls, HasDigits, fls-HasDigits}
use netifd.Utils.Netmask.{Text, is_nil, cut_before, parse_ip_and_netmask}
use netifd.Utils.Addresses.{
  decimal, dotted, dotted_mask, ReadsDecimal, ReadsDotted, parse_ip_bounds, parse_ip_roundtrip,
}
use netifd.Utils.Vlist.{Tree, vlist_simple_replace}
use netifd.Utils.Reload.{items, IsSettled, items-replace}
use netifd.Utils.Pid.{check_pid_path, check_pid_path_prefix}

abbrev is_digit : ℕ → Bool
is_digit c = leb b'0' c && leb c b'9'

abbrev read_number : ℕ → Text → ℕ × Text
read_number n [] = (n, [])
read_number n (c ∷ s) =
    let rest = read_number (n * 10 + (c - b'0')) s in if is_digit c then rest else (n, c ∷ s)

abbrev after_dot : (Text → Option ℕ) → Text → Option ℕ
after_dot f [] = none
after_dot f (c ∷ s) = if c == b'.' then f s else none

abbrev read_parts : ℕ → ℕ → Text → Option ℕ
read_parts zero a s =
    let (d, rest) = read_number 0 s in if is_nil rest then some (a * 256 + d) else none
read_parts (suc k) a s =
    let (d, rest) = read_number 0 s in after_dot (read_parts k (a * 256 + d)) rest

abbrev aton : Text → Option ℕ
aton = read_parts 3 0

read_number-decimal : (n : ℕ) → n < 256 → read_number 0 (decimal n) ≡ (n, [])
read_number-decimal n lt = ground arith

read_number-dot :
    (n : ℕ) (s : Text) → n < 256 → read_number 0 (decimal n ++ b'.' ∷ s) ≡ (n, b'.' ∷ s)
read_number-dot n s lt = ground arith

read_part :
    (k a d : ℕ) (s : Text)
    → d < 256
    → read_parts (suc k) a (decimal d ++ b'.' ∷ s) ≡ read_parts k (a * 256 + d) s
read_part k a d s lt =
    ap (λ (r : ℕ × Text). after_dot (read_parts k (a * 256 + r.0)) r.1) (read_number-dot d s lt)

read_last : (a d : ℕ) → d < 256 → read_parts 0 a (decimal d) ≡ some (a * 256 + d)
read_last a d lt =
    ap (λ (r : ℕ × Text). if is_nil r.1 then some (a * 256 + r.0) else none)
      (read_number-decimal d lt)

no_base : (a : ℕ) → 0 * 256 + a ≡ a
no_base a = omega arith

aton-ReadsDotted : ReadsDotted aton
aton-ReadsDotted a b c d la lb lc ld =
    read_part 2 0 a (decimal b ++ b'.' ∷ (decimal c ++ b'.' ∷ decimal d)) la
    ∙ read_part 1 (0 * 256 + a) b (decimal c ++ b'.' ∷ decimal d) lb
    ∙ read_part 0 ((0 * 256 + a) * 256 + b) c (decimal d) lc
    ∙ read_last (((0 * 256 + a) * 256 + b) * 256 + c) d ld
    ∙ ap (λ t. some (((t * 256 + b) * 256 + c) * 256 + d)) (no_base a)

decimal-reads : ReadsDecimal (read_number 0)
decimal-reads n lt = read_number-decimal n lt

-- inet_pton that knows the address 10.0.0.1.
abbrev local : Text
local = dotted 10 0 0 1

abbrev pton : Bool → Text → Option Text
pton v6 s = some s

abbrev parsed : Option Text × ℕ
parsed = parse_ip_and_netmask (read_number 0) aton pton false (local ++ b'/' ∷ decimal 24) 32

parsed_mask : parsed.1 ≡ 24
unfolding parse_ip_and_netmask
parsed_mask = refl

parse_ip_bounds_example :
    (parsed.0 ≡ some local)
    ↔ ((parsed.1 ≤ 32) × (some (cut_before b'/' (local ++ b'/' ∷ decimal 24)) ≡ some local))
parse_ip_bounds_example =
    parse_ip_bounds (read_number 0) aton pton false (local ++ b'/' ∷ decimal 24) 32 local

parse_ip_roundtrip_example :
    (parse_ip_and_netmask (read_number 0) aton pton false (local ++ b'/' ∷ decimal 24) 32
      ≡ (some local, 24))
    × (parse_ip_and_netmask (read_number 0) aton pton false (local ++ b'/' ∷ dotted_mask 24) 32
        ≡ (some local, 24))
parse_ip_roundtrip_example =
    parse_ip_roundtrip (read_number 0) aton pton false local local 24 32 refl refl (omega arith)
      decimal-reads aton-ReadsDotted

fls-HasDigits_example : HasDigits 0x00ff0000 (fls 0x00ff0000)
fls-HasDigits_example = fls-HasDigits 0x00ff0000 (omega arith) (omega arith)

-- Two servers replace one.
abbrev servers : Tree ℕ
servers = record { list = record { item = 8; version = pos 1 } ∷ []; version = pos 1 }

abbrev new_servers : Tree ℕ
new_servers = record {
  list = record { item = 1; version = pos 1 } ∷ record { item = 9; version = pos 1 } ∷ [];
  version = pos 1;
}

abbrev replaced_servers : Tree ℕ × Tree ℕ
replaced_servers = vlist_simple_replace servers new_servers

items-replace_example :
    (items replaced_servers.0.list ≡ 1 ∷ 9 ∷ [])
    × ((replaced_servers.1.list ≡ []) × IsSettled replaced_servers.0)
items-replace_example =
    items-replace servers new_servers ((omega arith, omega arith), tt) (omega arith)

-- The process 7 runs another program, whose path goes on.
abbrev runs_other : ℕ → Option Text
runs_other pid = some (b'/' ∷ b'a' ∷ b'b' ∷ [])

check_pid_path_prefix_example :
    (check_pid_path runs_other false 7 (b'/' ∷ b'a' ∷ []) ≡ true)
    ↔ ((rest : Text) × (runs_other 7 ≡ some (b'/' ∷ b'a' ∷ [] ++ rest)))
check_pid_path_prefix_example = check_pid_path_prefix runs_other false 7 b'/' (b'a' ∷ [])

accepts_other : check_pid_path runs_other false 7 (b'/' ∷ b'a' ∷ []) ≡ true
unfolding check_pid_path
accepts_other = refl
