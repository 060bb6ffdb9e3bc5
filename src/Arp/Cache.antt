-- ===== src/Arp/Cache.antt =====
-- The cache of arp.c: an entry that is added is found until it expires.
use experiment.Base.{
  ℕ, zero, suc, ◌+◌, ◌^◌, ◌%◌, ◌≤◌, ◌≡◌, inl, inr, refl, Bool, true, false, ◌||◌, not, none, some,
  List, [], ◌∷◌, Bool-cases, ap, ◌&&◌, ltb, ◌-◌, arith, replicate,
}
use experiment.Str.Compare.{memcmp_self, memcmp_first}
use experiment.Arp.{
  Address, Entry, Host, empty_entry, cache_timeout, is_empty, same_address, expire, remove_expired,
  lookup, add_entry, arp_cache_find, arp_cache_add, found,
}

-- Some entry is empty.
unfoldable pub has_room : List Entry → Bool
unfolding is_empty
has_room [] = false
has_room (e ∷ es) = is_empty e.ip || has_room es

-- An address is the same as itself, and not the address of an empty entry if it has none.
pub same_address_self : (ip : Address) → same_address ip ip ≡ true
unfolding same_address
same_address_self ip = memcmp_self ip 4

pub empty_not_same : (ip : Address) → is_empty ip ≡ false → same_address empty_entry.ip ip ≡ false
unfolding same_address is_empty
empty_not_same [] h = cc
empty_not_same (zero ∷ ip) h = cc
empty_not_same (suc c ∷ ip) h = memcmp_first 0 (suc c) (replicate 3 0) ip 3 (λ e. ground arith)

-- An entry that expires becomes the entry of no address.
pub expire_not_same :
    (now : ℕ) (ip : Address) (e : Entry)
    → is_empty ip ≡ false
    → same_address e.ip ip ≡ false
    → same_address (expire now e).ip ip ≡ false
unfolding expire
expire_not_same now ip e h ne =
    elim (Bool-cases
      (not (is_empty e.ip) && ltb cache_timeout ((now % 2 ^ 32 + 2 ^ 32 - e.timestamp) % 2 ^ 32))) [
        | inl t ↦ rw t (empty_not_same ip h)
        | inr t ↦ rw t ne
      ]

pub lookup-remove_expired :
    (now : ℕ) (ip : Address) (es : List Entry)
    → is_empty ip ≡ false
    → lookup ip es ≡ none
    → lookup ip (remove_expired now es) ≡ none
unfolding lookup remove_expired
lookup-remove_expired now ip [] h e = refl
lookup-remove_expired now ip (x ∷ es) h e = elim (Bool-cases (same_address x.ip ip)) [
  | inl t ↦ ground (arith, t, e)
  | inr t ↦
      rw (expire_not_same now ip x h t) (lookup-remove_expired now ip es h (ground (arith, t, e)))
]

-- An entry whose time is `cache_timeout` ticks ago at most stays.
pub expire_fresh :
    (now d : ℕ) (ip mac : Address)
    → d ≤ cache_timeout
    → let new : Entry = record { ip = ip; mac = mac; timestamp = now % 2 ^ 32 } in
      expire (now + d) new ≡ new
unfolding expire
expire_fresh now d ip mac h =
    let age : ((now + d) % 2 ^ 32 + 2 ^ 32 - now % 2 ^ 32) % 2 ^ 32 ≡ d = omega arith in
    rw age (ground (arith, h))

pub lookup-add_entry :
    (now : ℕ) (new : Entry) (es : List Entry)
    → is_empty new.ip ≡ false
    → expire now new ≡ new
    → has_room es ≡ true
    → lookup new.ip es ≡ none
    → lookup new.ip (remove_expired now (add_entry new es)) ≡ some new
unfolding lookup remove_expired add_entry has_room
lookup-add_entry now new [] h fresh room e = cc
lookup-add_entry now new (x ∷ es) h fresh room e =
    let ne : same_address x.ip new.ip ≡ false = ground (arith, e) in
    let rest : lookup new.ip es ≡ none = ground (arith, e, ne) in
    elim (Bool-cases (is_empty x.ip)) [
      | inl t ↦ rw (t, fresh, same_address_self new.ip) refl
      | inr t ↦
          rw (t, expire_not_same now new.ip x h ne)
            (lookup-add_entry now new es h fresh (ground (arith, room, t)) rest)
    ]

-- The machine, `d` ticks later.
abbrev pub wait : (d : ℕ) → Host → Host
wait d h = record h { scheduler_ticks = h.scheduler_ticks + d }

-- An address that arp_cache_add adds, where the cache has an empty entry and does not know the
-- address, is found with its MAC address for the next 60000 ticks; the clock may wrap in between.
pub arp_cache_find-arp_cache_add :
    (ip mac : Address) (h : Host) (d : ℕ)
    → d ≤ cache_timeout
    → is_empty ip ≡ false
    → has_room h.arp_cache ≡ true
    → lookup ip h.arp_cache ≡ none
    → ((arp_cache_find ip (wait d (arp_cache_add ip mac h))).0.ip ≡ ip)
      × ((arp_cache_find ip (wait d (arp_cache_add ip mac h))).0.mac ≡ mac)
unfolding arp_cache_find arp_cache_add found
arp_cache_find-arp_cache_add ip mac h d le some_ip room unknown =
    let new : Entry = record { ip = ip; mac = mac; timestamp = h.scheduler_ticks % 2 ^ 32 } in
    let kept =
      lookup-add_entry (h.scheduler_ticks + d) new h.arp_cache some_ip
        (expire_fresh h.scheduler_ticks d ip mac le) room unknown in
    (ap (λ r. (found r).ip) kept, ap (λ r. (found r).mac) kept)
