-- ===== src/Counter/Tests.antt =====
-- The till's properties, on an invoice paid in two parts.
use nightfall.Common.{refl, Bool, none, some, List, [], ◌∷◌, ◌≡◌, ◌<◌, ◌^◌}
use nightfall.Common.Text.{codes}
use nightfall.Counter.{Invoice, Incoming, confirming, quotes, settlement, status}

abbrev coffee : Invoice
coffee = record {
  reference = codes "A-17";
  amount_darks = some 500;
  description = codes "coffee";
  created_unix = 1_000;
  expires_unix = some 2_000;
  closed_note = none;
}

abbrev first_part : Incoming
first_part = record {
  amount_darks = 300;
  memo = codes " A-17";
  height = some 40;
  timestamp = 1_100;
  reference_id = codes "c0";
}

abbrev second_part : Incoming
second_part = record first_part { amount_darks = 200; height = some 45 }

-- The right amount for somebody else's reference.
abbrev stranger : Incoming
stranger = record first_part { amount_darks = 500; memo = codes "B-1"; height = some 10 }

abbrev payments : List Incoming
payments = first_part ∷ stranger ∷ second_part ∷ []

-- One block earlier the second part is only nine deep.
not_yet : settlement (status coffee payments 9_000) 53 10 ≡ confirming 9 10
unfolding settlement status nightfall.Counter.state_of quotes nightfall.Common.Text.same_text
    nightfall.Common.Text.trim nightfall.Common.Text.trim_end nightfall.Common.Text.trim_start
    nightfall.Common.Text.is_whitespace nightfall.Counter.received
not_yet = refl
