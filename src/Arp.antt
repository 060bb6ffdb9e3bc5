-- ===== src/Arp.antt =====
-- net/arp.c and the comparison of addresses of net/network.c: the cache of addresses and the protocol
-- that fills it. An address is the list of its bytes; a packet is what is sent with its
-- header, in the byte order of the network.

pub mod Cache
pub mod Resolve
mod Tests
use experiment.Base.{
  ℕ, zero, suc, ◌+◌, ◌-◌, ◌%◌, ◌^◌, Bool, true, false, ◌&&◌, not, Option, none, some, List, [], ◌∷◌,
  ◌++◌, map, ltb, ◌==◌, if◌then◌else◌, get_or, replicate,
}
use experiment.Base.Int.{is_zero}
use experiment.Str.{memcmp}
use experiment.Net.{htons, ntohs}

abbrev pub Address : Type 0
Address = List ℕ

pub record Entry : Type 0 where
  pub ip : Address
  pub mac : Address
  pub timestamp : ℕ

pub record Packet : Type 0 where
  pub dest_host : Address
  pub src_host : Address
  pub ether_type : ℕ
  pub hw_type : ℕ
  pub protocol_type : ℕ
  pub hw_addr_len : ℕ
  pub protocol_addr_len : ℕ
  pub opcode : ℕ
  pub sender_hw_addr : Address
  pub sender_protocol_addr : Address
  pub target_hw_addr : Address
  pub target_protocol_addr : Address

-- The machine: the variables of network.c and arp.c, the ticks of the scheduler, and what it has
-- sent, the last first. `has_ip` is an address that is not null.
pub record Host : Type 0 where
  pub has_ip : Bool
  pub ip_address : Address
  pub mac_address : Address
  pub arp_cache : List Entry
  pub scheduler_ticks : ℕ
  pub sent : List Packet

-- ARP_CACHE_SIZE and ARP_CACHE_TIMEOUT; ETHERTYPE_ARP and ETHERTYPE_IP; ARP_REQUEST and ARP_REPLY
abbrev pub cache_size : ℕ
cache_size = 256

abbrev pub cache_timeout : ℕ
cache_timeout = 60000

abbrev pub ethertype_arp : ℕ
ethertype_arp = 0x0806

abbrev pub ethertype_ip : ℕ
ethertype_ip = 0x0800

abbrev pub arp_request : ℕ
arp_request = 1

abbrev pub arp_reply : ℕ
arp_reply = 2

abbrev pub broadcast_mac : Address
broadcast_mac = replicate 6 0xFF

abbrev pub empty_entry : Entry
empty_entry = record { ip = replicate 4 0; mac = replicate 6 0; timestamp = 0 }

-- ip[0] == 0
unfoldable pub is_empty : Address → Bool
is_empty ip = get_or ip 0 0 == 0

-- network_compare_ip_addresses
unfoldable pub same_address : Address → Address → Bool
same_address a b = is_zero (memcmp a b 4)

unfoldable pub arp_init : List Entry
arp_init = replicate cache_size empty_entry

unfoldable pub expire : (now : ℕ) → Entry → Entry
unfolding is_empty
expire now e =
    if not (is_empty e.ip) && ltb cache_timeout ((now % 2 ^ 32 + 2 ^ 32 - e.timestamp) % 2 ^ 32)
    then empty_entry
    else e

unfoldable pub remove_expired : (now : ℕ) → List Entry → List Entry
unfolding expire
remove_expired now [] = []
remove_expired now (e ∷ es) = expire now e ∷ remove_expired now es

-- The entry with an address, and what arp_cache_find answers if there is none.
unfoldable pub lookup : Address → List Entry → Option Entry
unfolding same_address
lookup ip [] = none
lookup ip (e ∷ es) = if same_address e.ip ip then some e else lookup ip es

unfoldable pub found : Option Entry → Entry
found none = empty_entry
found (some e) = e

unfoldable pub arp_cache_find : (ip : Address) → Host → Entry × Host
unfolding remove_expired lookup found
arp_cache_find ip h =
    let kept = remove_expired h.scheduler_ticks h.arp_cache in
    (found (lookup ip kept), record h { arp_cache = kept })

-- The first empty entry is filled; in a full cache, none is.
unfoldable pub add_entry : Entry → List Entry → List Entry
unfolding is_empty
add_entry new [] = []
add_entry new (e ∷ es) = if is_empty e.ip then new ∷ es else e ∷ add_entry new es

unfoldable pub arp_cache_add : (ip mac : Address) → Host → Host
unfolding add_entry
arp_cache_add ip mac h = record h {
  arp_cache =
      add_entry (record { ip = ip; mac = mac; timestamp = h.scheduler_ticks % 2 ^ 32 }) h.arp_cache;
}

unfoldable pub arp_receive_reply : Packet → Host → Host
unfolding arp_cache_find arp_cache_add is_empty
arp_receive_reply p h =
    let r = arp_cache_find p.sender_protocol_addr h in
    if is_empty r.0.ip then arp_cache_add p.sender_protocol_addr p.sender_hw_addr r.1 else r.1

abbrev pub network_send_packet : Packet → Host → Host
network_send_packet p h = record h { sent = p ∷ h.sent }

-- The packets that arp_send_request and arp_send_reply make.
unfoldable pub request_packet : (dest_ip : Address) → Host → Packet
request_packet dest_ip h = record {
  dest_host = broadcast_mac;
  src_host = h.mac_address;
  ether_type = htons ethertype_arp;
  hw_type = htons 1;
  protocol_type = htons ethertype_ip;
  hw_addr_len = 6;
  protocol_addr_len = 4;
  opcode = htons arp_request;
  sender_hw_addr = h.mac_address;
  sender_protocol_addr = h.ip_address;
  target_hw_addr = broadcast_mac;
  target_protocol_addr = dest_ip;
}

unfoldable pub reply_packet : Packet → Host → Packet
reply_packet p h = record p {
  dest_host = p.src_host;
  src_host = h.mac_address;
  ether_type = htons ethertype_arp;
  opcode = htons arp_reply;
  sender_hw_addr = h.mac_address;
  sender_protocol_addr = h.ip_address;
  target_hw_addr = p.sender_hw_addr;
  target_protocol_addr = p.sender_protocol_addr;
}

unfoldable pub arp_send_request : (dest_ip : Address) → Host → Host
arp_send_request dest_ip h = network_send_packet (request_packet dest_ip h) h

unfoldable pub arp_send_reply : Packet → Host → Host
arp_send_reply p h = network_send_packet (reply_packet p h) h

unfoldable pub arp_receive : Packet → Host → Host
unfolding arp_send_reply arp_receive_reply same_address
arp_receive p h =
    let mine = h.has_ip && same_address p.target_protocol_addr h.ip_address in
    if ntohs p.opcode == arp_request
    then if mine then arp_send_reply p h else h
    else if ntohs p.opcode == arp_reply
    then if mine then arp_receive_reply p h else h
    else h
