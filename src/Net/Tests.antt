-- ===== src/Net/Tests.antt =====
-- Runs of inet.c and of the checksum, and their theorems there.
use experiment.Base.{ℕ, ◌+◌, ◌/◌, ◌%◌, ◌^◌, ◌≡◌, ◌<◌, refl, List, [], ◌∷◌, ◌++◌, arith}
use experiment.Str.{Chars}
use experiment.Net.{htonl, inet_addr, inet_ntoa_r, checksum}
use experiment.Net.Checksum.{total, is_even, checksum-checksum}

-- "10.0.2.15"
abbrev guest : Chars
guest = 49 ∷ 48 ∷ 46 ∷ 48 ∷ 46 ∷ 50 ∷ 46 ∷ 49 ∷ 53 ∷ []

guest_addr : inet_addr guest ≡ 0x0a00020f
unfolding inet_addr
guest_addr = refl

guest_printed : inet_ntoa_r (htonl 0x0a00020f) ≡ guest
unfolding inet_ntoa_r htonl
guest_printed = refl

-- "1.2.3": an octet is missing, but the string ends where the last may end.
short_addr : inet_addr (49 ∷ 46 ∷ 50 ∷ 46 ∷ 51 ∷ []) ≡ 0
unfolding inet_addr
short_addr = refl

-- "4294967297.0.0.1": the int goes round to 1.
wrapped_octet :
    inet_addr (52 ∷ 50 ∷ 57 ∷ 52 ∷ 57 ∷ 54 ∷ 55 ∷ 50 ∷ 57 ∷ 55 ∷ 46 ∷ 48 ∷ 46 ∷ 48 ∷ 46 ∷ 49 ∷ [])
    ≡ 0x01000001
unfolding inet_addr
wrapped_octet = refl

-- The start of an IPv4 header.
abbrev header : List ℕ
header = 0x45 ∷ 0 ∷ 0 ∷ 0x73 ∷ 0 ∷ 0 ∷ 0x40 ∷ 0 ∷ []

checksum-checksum_example :
    let ck = checksum header 0 in
    (ck < 2 ^ 16)
    × ((0 + total header + ck) % 65535 ≡ 0)
    × (checksum (header ++ (ck % 256 ∷ ck / 256 ∷ [])) 0 ≡ 0)
unfolding is_even total
checksum-checksum_example = checksum-checksum header 0 refl (omega arith)
