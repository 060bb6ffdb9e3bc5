-- ===== src/Arp/Tests.antt =====
-- Runs of the address resolution, and the theorems at them.
use experiment.Base.{◌≡◌, ◌∷◌, [], true, refl, arith}
use experiment.Str.{memcmp}
use experiment.Arp.{
  Address, Host, is_empty, remove_expired, lookup, arp_init, arp_cache_find, expire, same_address,
}
use experiment.Arp.Cache.{wait, has_room}
use experiment.Arp.Resolve.{exchange, exchange-resolves}

abbrev gateway_ip : Address
gateway_ip = 10 ∷ 0 ∷ 2 ∷ 2 ∷ []

abbrev gateway_mac : Address
gateway_mac = 82 ∷ 85 ∷ 10 ∷ 0 ∷ 2 ∷ 2 ∷ []

-- Two hosts just after arp_init, at the end of the range of the clock.
abbrev guest : Host
guest = record {
  has_ip = true;
  ip_address = 10 ∷ 0 ∷ 2 ∷ 15 ∷ [];
  mac_address = 82 ∷ 84 ∷ 0 ∷ 18 ∷ 52 ∷ 86 ∷ [];
  arp_cache = arp_init;
  scheduler_ticks = 4294967290;
  sent = [];
}

abbrev gateway : Host
gateway = record guest { ip_address = gateway_ip; mac_address = gateway_mac }

exchange-resolves_example :
    (arp_cache_find gateway_ip (wait 9 (exchange guest gateway))).0.mac ≡ gateway_mac
unfolding is_empty has_room lookup arp_init same_address memcmp remove_expired expire
exchange-resolves_example = exchange-resolves guest gateway 9 refl refl refl refl refl (omega arith)
