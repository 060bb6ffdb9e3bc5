-- ===== src/Arp/Resolve.antt =====
-- A request and its reply: one host learns the MAC address of another.
use experiment.Base.{ℕ, ◌≡◌, ◌≤◌, true, false, none, [], ◌∷◌, refl, arith}
use experiment.Net.{ntohs}
use experiment.Net.Order.{htons_lem}
use experiment.Arp.{
  Packet, Host, request_packet, reply_packet, cache_timeout, is_empty, same_address, lookup,
  remove_expired, arp_cache_find, arp_send_request, arp_send_reply, arp_receive, arp_receive_reply,
  arp_request, arp_reply, found,
}
use experiment.Arp.Cache.{has_room, wait, arp_cache_find-arp_cache_add, same_address_self}

-- The last packet a host has sent is received by another.
pub deliver : (from to : Host) → Host
deliver from to = elim from.sent [ [] ↦ to | p ∷ ps ↦ arp_receive p to ]

-- The exchange: `a` asks for the address of `b`, `b` answers, and `a` receives the answer.
unfoldable pub exchange : (a b : Host) → Host
unfolding deliver
exchange a b =
    let asked = arp_send_request b.ip_address a in
    let answered = deliver asked b in deliver answered asked

-- A request or a reply for the host's own address is answered or taken in.
pub receive_request :
    (p : Packet) (h : Host)
    → ntohs p.opcode ≡ arp_request
    → h.has_ip ≡ true
    → same_address p.target_protocol_addr h.ip_address ≡ true
    → arp_receive p h ≡ arp_send_reply p h
unfolding arp_receive
receive_request p h op has mine = rw (op, has, mine) refl

pub receive_reply :
    (p : Packet) (h : Host)
    → ntohs p.opcode ≡ arp_reply
    → h.has_ip ≡ true
    → same_address p.target_protocol_addr h.ip_address ≡ true
    → arp_receive p h ≡ arp_receive_reply p h
unfolding arp_receive
receive_reply p h op has mine = rw (op, has, mine) refl

-- The reply of `b` to the request of `a`, as `a` takes it in.
pub exchange_reply :
    (a b : Host)
    → a.has_ip ≡ true
    → b.has_ip ≡ true
    → exchange a b
      ≡ arp_receive_reply
          (reply_packet (request_packet b.ip_address a) b)
          (arp_send_request b.ip_address a)
unfolding exchange deliver arp_send_request arp_send_reply request_packet reply_packet
exchange_reply a b ha hb =
    let request = request_packet b.ip_address a in
    let reply = reply_packet request b in
    let asked = arp_send_request b.ip_address a in
    let answer =
      receive_request request b (htons_lem arp_request (omega arith)).0 hb
        (same_address_self b.ip_address) in
    let taken =
      receive_reply reply asked (htons_lem arp_reply (omega arith)).0 ha
        (same_address_self a.ip_address) in
    rw answer taken

-- The address and the MAC address of a reply are found for the next 60000 ticks.
pub find-receive_reply :
    (p : Packet) (h : Host) (d : ℕ)
    → let kept = remove_expired h.scheduler_ticks h.arp_cache in
      d ≤ cache_timeout
      → is_empty p.sender_protocol_addr ≡ false
      → has_room kept ≡ true
      → lookup p.sender_protocol_addr kept ≡ none
      → (arp_cache_find p.sender_protocol_addr (wait d (arp_receive_reply p h))).0.mac
        ≡ p.sender_hw_addr
unfolding arp_receive_reply arp_cache_find found is_empty
find-receive_reply p h d le some_ip room unknown =
    let kept = remove_expired h.scheduler_ticks h.arp_cache in
    rw unknown
      (arp_cache_find-arp_cache_add p.sender_protocol_addr p.sender_hw_addr
        (record h { arp_cache = kept }) d le some_ip room unknown).1

-- Resolution: `a` asks for the address of `b`, and from the answer on finds the MAC address of `b`
-- under it for 60000 ticks. Both know their own addresses, the first byte of the address of `b` is
-- not 0, and the cache of `a`, less what has expired, has an empty entry and none for that address.
pub exchange-resolves :
    (a b : Host) (d : ℕ)
    → let kept = remove_expired a.scheduler_ticks a.arp_cache in
      a.has_ip ≡ true
      → b.has_ip ≡ true
      → is_empty b.ip_address ≡ false
      → has_room kept ≡ true
      → lookup b.ip_address kept ≡ none
      → d ≤ cache_timeout
      → (arp_cache_find b.ip_address (wait d (exchange a b))).0.mac ≡ b.mac_address
unfolding arp_send_request reply_packet request_packet
exchange-resolves a b d ha hb some_ip room unknown le =
    let reply = reply_packet (request_packet b.ip_address a) b in
    rw (exchange_reply a b ha hb)
      (find-receive_reply reply (arp_send_request b.ip_address a) d le some_ip room unknown)
