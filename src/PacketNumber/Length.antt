-- ===== src/PacketNumber/Length.antt =====
-- The number of bytes that `pnum_len` chooses is enough, and is the one that `pnlen_needed` finds.
use quic_vibe.Common.{ℕ, ◌+◌, ◌-◌, ◌*◌, ◌^◌, ◌≤◌, ◌<◌, ◌≡◌, arith}
use quic_vibe.Common.Word.{◌-ᵤ◌, ◌*ᵤ◌}
use quic_vibe.PacketNumber.{len_loop, pnum_len, needed_loop, pnlen_needed, encode, decode}
use quic_vibe.PacketNumber.Window.{decode-encode_near}

-- The length chosen holds twice the distance.
enough :
    (need : ℕ)
    → need < 2 ^ 32
    → (1 ≤ len_loop 3 need 1)
      × ((len_loop 3 need 1 ≤ 4)
          × ((256 ≤ 2 ^ (len_loop 3 need 1 * 8)) × (need < 2 ^ (len_loop 3 need 1 * 8))))
unfolding len_loop
enough need h = (ground arith, (ground arith, (ground arith, ground arith)))

-- The two functions that choose a length agree, as long as doubling the distance does not wrap.
pub lengths_agree :
    (pn largest_acked : ℕ)
    → largest_acked ≤ pn
    → pn < largest_acked + 2 ^ 63
    → pnlen_needed pn largest_acked ≡ pnum_len pn largest_acked
unfolding pnlen_needed pnum_len needed_loop len_loop
lengths_agree pn largest_acked h h' = ground arith

-- A receiver recovers a packet number `pn` from the bytes that the sender chooses, when it has
-- received up to some number from what the sender knows to be acknowledged on, fewer than 127
-- after `pn`, and fewer than 2^31 numbers are outstanding; the numbers are below 2^62.
pub decode-pnum_len :
    (pn largest_acked largest_pn : ℕ)
    → largest_acked ≤ largest_pn
    → largest_acked ≤ pn
    → largest_pn + 1 < pn + 128
    → pn < largest_acked + 2 ^ 31
    → pn < 2 ^ 62
    → largest_pn < 2 ^ 62
    → decode (encode pn (pnum_len pn largest_acked)) (pnum_len pn largest_acked) largest_pn ≡ pn
unfolding pnum_len
decode-pnum_len pn largest_acked largest_pn h₁ h₂ h₃ h₄ h₅ h₆ =
    let need = (pn -ᵤ largest_acked) *ᵤ 2 in
    let twice : need ≡ (pn - largest_acked) * 2 = omega arith in
    let (lo, (hi, (wide, fits))) = enough need (omega arith) in
    decode-encode_near (len_loop 3 need 1) largest_pn pn lo hi (omega arith) (omega arith)
      (omega arith, omega arith)
