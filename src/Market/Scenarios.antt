-- ===== src/Market/Scenarios.antt =====
-- A Friday evening and a Tuesday at noon.
use quick_price.Prelude.{ℕ, ◌+◌, ◌*◌, ◌≤◌, ◌<◌, ◌≡◌, ◌≢◌, ◌↔◌, refl, some}
use quick_price.Market.{
  Local, us_equity, minute, weekday, next_open, next_open_from, scheduled_market_status, last_close,
}
use quick_price.Market.Sessions.{OpensOn, next_open_lem, equity_open_iff}

abbrev friday_evening : Local
friday_evening = record { day = 704; clock = 1_200 * minute }

abbrev tuesday_noon : Local
tuesday_noon = record { day = 708; clock = 720 * minute }

monday : next_open friday_evening ≡ some 707
unfolding next_open next_open_from
monday = refl

next_open_lem_example :
    (d : ℕ) × (next_open friday_evening ≡ some d)
    × OpensOn friday_evening d
    × (d ≤ 704 + 3)
    × ((e : ℕ) → 704 ≤ e → OpensOn friday_evening e → d ≤ e)
next_open_lem_example = next_open_lem friday_evening

equity_open_iff_example : (scheduled_market_status us_equity tuesday_noon ≡ "open") ↔ (
    (weekday 708 < 5)
    × (next_open tuesday_noon ≢ some 708)
    × (last_close us_equity tuesday_noon ≢ some 708))
equity_open_iff_example = equity_open_iff tuesday_noon
