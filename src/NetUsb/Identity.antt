-- ===== src/NetUsb/Identity.antt =====
-- The addresses that common/net_usb.c derives: their texts, and the hardware address of the interface.
use pico_deck_eddiscovery.Base.{
  ℕ, ◌+◌, ◌≤◌, ◌<◌, ◌≡◌, ◌≢◌, refl, ap, bit_xor, [], ◌∷◌, length, get_or, take, arith,
  length-append,
}
use pico_deck_eddiscovery.Base.Bits.{bit_xor_halves, xor_xor}
use pico_deck_eddiscovery.Base.Text.{decimal, decimal_onto}
use pico_deck_eddiscovery.NetUsb.{ip_text, hardware_address}

decimal-length : (n : ℕ) → n < 256 → length (decimal n) ≤ 3
unfolding decimal decimal_onto
decimal-length n h = ground arith

-- The text of an address of four octets fits the 16 bytes that hold it, with its terminator.
pub length-ip_text :
    (a b c d : ℕ)
    → a < 256
    → b < 256
    → c < 256
    → d < 256
    → length (ip_text (a ∷ b ∷ c ∷ d ∷ [])) + 1 ≤ 16
unfolding ip_text
length-ip_text a b c d h k l m =
    simp length-append (
      omega (arith, decimal-length a h, decimal-length b k, decimal-length c l, decimal-length d m))

flips : (f : ℕ) → bit_xor f 1 ≢ f
flips f h = absurd (omega (arith, h, bit_xor_halves f 1))

-- The interface's hardware address is not the one that the host is told: it differs from it in the
-- last of the six bytes, and a second flip gives that byte back.
pub hardware_address_lem :
    (a b c d e f : ℕ)
    → let mac = a ∷ b ∷ c ∷ d ∷ e ∷ f ∷ [] in
      (hardware_address mac ≢ mac)
      × (take 5 (hardware_address mac) ≡ take 5 mac)
      × (hardware_address (hardware_address mac) ≡ mac)
unfolding hardware_address
hardware_address_lem a b c d e f = (
  λ h. flips f (ap (λ m. get_or m 5 0) h),
  refl,
  ap (λ x. a ∷ b ∷ c ∷ d ∷ e ∷ x ∷ []) (xor_xor (f + 1) f 1 (omega arith)),
)
