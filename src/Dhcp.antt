-- ===== src/Dhcp.antt =====
-- The options of net/dhcp.c. The loops that read them look at what is left of the options: it is the
-- list of the bytes from `offset` on.

pub mod Options
pub mod Request
mod Tests
use experiment.Base.{
  ℕ, zero, suc, ◌+◌, ◌*◌, ◌/◌, ◌%◌, ◌^◌, Bool, true, false, Option, none, some, List, [], ◌∷◌, ◌++◌,
  length, take, drop, ltb, ◌==◌, if◌then◌else◌, get_or,
}

-- DHCP_OPTIONS_LEN and the codes of options
abbrev pub options_len : ℕ
options_len = 128

abbrev pub opt_pad : ℕ
opt_pad = 0

abbrev pub opt_dns : ℕ
opt_dns = 6

abbrev pub opt_host_name : ℕ
opt_host_name = 12

abbrev pub opt_requested_ip_addr : ℕ
opt_requested_ip_addr = 50

abbrev pub opt_message_type : ℕ
opt_message_type = 53

abbrev pub opt_server_id : ℕ
opt_server_id = 54

abbrev pub opt_end : ℕ
opt_end = 255

abbrev pub message_type_request : ℕ
message_type_request = 3

-- The loop that both readers run: the data of the first option with a code. It is none at the end
-- mark, behind the last byte, and on a packet that is malformed.
unfoldable pub find_option : (fuel code : ℕ) → List ℕ → Option (List ℕ)
find_option zero code options = none
find_option (suc fuel) code [] = none
find_option (suc fuel) code (c ∷ []) = none
find_option (suc fuel) code (c ∷ len ∷ data_left) = elim (c == opt_end) [
  | true ↦ none
  | false ↦ elim (c == opt_pad) [
    | true ↦ find_option fuel code (len ∷ data_left)
    | false ↦ elim (ltb (length data_left) len) [
      | true ↦ none
      | false ↦ elim (c == code) [
        | true ↦ some (take len data_left)
        | false ↦ find_option fuel code (drop len data_left)
      ]
    ]
  ]
]

-- The number that the four bytes of an address make, and 0 without them.
unfoldable pub ip_value : Option (List ℕ) → ℕ
ip_value none = 0
ip_value (some bytes) =
    if length bytes == 4
    then (get_or bytes 0 0 * 2 ^ 24
        + get_or bytes 1 0 * 2 ^ 16
        + get_or bytes 2 0 * 2 ^ 8
        + get_or bytes 3 0)
      % 2 ^ 32
    else 0

unfoldable pub get_ip_option : (options : List ℕ) (option : ℕ) → ℕ
unfolding find_option ip_value
get_ip_option options option = ip_value (find_option options_len option options)

-- The servers, each as its four bytes, or none for the answer of -1. The caller's array has room for
-- five, which the source does not look at.
unfoldable pub servers : (count : ℕ) → List ℕ → List (List ℕ)
servers zero bytes = []
servers (suc count) bytes = take 4 bytes ∷ servers count (drop 4 bytes)

unfoldable pub dns_value : Option (List ℕ) → Option (List (List ℕ))
unfolding servers
dns_value none = none
dns_value (some bytes) =
    if length bytes % 4 == 0 then some (servers (length bytes / 4) bytes) else none

unfoldable pub get_dns_servers : (options : List ℕ) → Option (List (List ℕ))
unfolding find_option dns_value
get_dns_servers options = dns_value (find_option options_len opt_dns options)

-- The bytes of an address that are copied into a packet.
unfoldable pub address_bytes : List ℕ → List ℕ
address_bytes ip = get_or ip 0 0 ∷ get_or ip 1 0 ∷ get_or ip 2 0 ∷ get_or ip 3 0 ∷ []

-- set_request_dhcp_options: what it stores, and the options behind that stay.
unfoldable pub set_request_options : (ip server_ip options : List ℕ) → List ℕ
unfolding address_bytes
set_request_options ip server_ip options =
    let stored : List ℕ =
      (opt_message_type ∷ 1 ∷ message_type_request ∷ opt_requested_ip_addr ∷ 4 ∷ address_bytes ip)
      ++ (opt_server_id ∷ 4 ∷ address_bytes server_ip)
      ++ (opt_host_name ∷ 5 ∷ 111 ∷ 115 ∷ 100 ∷ 101 ∷ 118 ∷ opt_end ∷ []) in
    stored ++ drop (length stored) options
