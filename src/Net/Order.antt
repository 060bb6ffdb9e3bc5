-- ===== src/Net/Order.antt =====
-- The byte order functions of inet.c.
use experiment.Base.{ℕ, ◌^◌, ◌<◌, ◌≡◌, arith}
use experiment.Net.{ntohl, htonl, ntohs, htons}

-- On 32-bit numbers ntohl and htonl undo each other, and htonl's result has 32 bits.
pub htonl_lem :
    (n : ℕ) → n < 2 ^ 32 → (ntohl (htonl n) ≡ n) × (htonl (ntohl n) ≡ n) × (htonl n < 2 ^ 32)
unfolding ntohl htonl
htonl_lem n h = (omega arith, omega arith, omega arith)

-- On 16-bit numbers ntohs and htons undo each other, and htons's result has 16 bits.
pub htons_lem :
    (n : ℕ) → n < 2 ^ 16 → (ntohs (htons n) ≡ n) × (htons (ntohs n) ≡ n) × (htons n < 2 ^ 16)
unfolding ntohs htons
htons_lem n h = (omega arith, omega arith, omega arith)
