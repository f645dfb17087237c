-- ===== src/Keyboard/Ui/Coverage.antt =====
-- The anti-aliasing of icons in PicoDeck-ED-Keyboard/src/ui.c.
use pico_deck_eddiscovery.Base.{ℕ, zero, suc, ◌*◌, ◌/◌, ◌%◌, ◌≤◌, ◌<◌, ◌≡◌, arith}
use pico_deck_eddiscovery.Keyboard.Ui.Tile.{color_with_coverage}

-- Each channel is scaled by the thirds of the coverage and stays within its own bits: full coverage
-- gives the color, none gives black, and no channel gets brighter.
color_with_coverage_lem :
    (color coverage : ℕ)
    → color < 65536
    → coverage ≤ 3
    → let c = color_with_coverage color coverage in
      (c / 2048 ≡ color / 2048 * coverage / 3)
      × (c / 32 % 64 ≡ color / 32 % 64 * coverage / 3)
      × (c % 32 ≡ color % 32 * coverage / 3)
      × (c ≤ color)
unfolding color_with_coverage
color_with_coverage_lem color zero h k = omega (arith, h)
color_with_coverage_lem color (suc zero) h k = omega (arith, h)
color_with_coverage_lem color (suc (suc zero)) h k = omega (arith, h)
color_with_coverage_lem color (suc (suc (suc zero))) h k = omega (arith, h)
color_with_coverage_lem color (suc (suc (suc (suc n)))) h k = absurd (omega (arith, k))
