-- ===== src/Net/Address.antt =====
-- inet_addr reads what inet_ntoa_r prints.
