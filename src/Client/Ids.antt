-- ===== src/Client/Ids.antt =====
-- The packet identifiers that getNextPacketId draws.
use fembed_lwip.Common.{ℕ, zero, suc, ◌+◌, ◌%◌, ◌≤◌, ◌<◌, ◌≡◌, ◌≢◌, refl, ◌∙◌, arith}
use fembed_lwip.Client.State.{Client, get_next_packetid}

-- The identifier of the `n`-th call from now on, and the client after it.
unfoldable pub draw : {H : Type 0} → ℕ → Client H → ℕ × Client H
draw zero c = get_next_packetid c
draw (suc n) c = draw n (get_next_packetid c).1

draw_from :
    (n : ℕ) {H : Type 0} (c : Client H)
    → c.next_packetid ≤ 65535
    → (draw n c).0 ≡ (c.next_packetid + n) % 65535 + 1
unfolding draw get_next_packetid
draw_from zero c h = ground arith
draw_from (suc n) {H} c h = draw_from n (get_next_packetid c).1 (ground arith) ∙ ground arith

-- From a client whose last identifier is at most 65535, the `n`-th identifier counts on from it and
-- goes from 65535 round to 1; so it is between 1 and 65535.
pub draw_lem :
    (n : ℕ) {H : Type 0} (c : Client H)
    → c.next_packetid ≤ 65535
    → ((draw n c).0 ≡ (c.next_packetid + n) % 65535 + 1)
      × (1 ≤ (draw n c).0)
      × ((draw n c).0 ≤ 65535)
draw_lem n c h = rw (draw_from n c h) (refl, omega arith, omega arith)

-- From a client whose last identifier is at most 65535, two calls fewer than 65535 apart draw
-- different identifiers.
pub draw_distinct :
    (m n : ℕ) {H : Type 0} (c : Client H)
    → c.next_packetid ≤ 65535
    → m < n
    → n < m + 65535
    → (draw m c).0 ≢ (draw n c).0
draw_distinct m n c h a b = rw (draw_from m c h, draw_from n c h) (omega arith)
