-- ===== src/P2p/Tests.antt =====
-- The properties of messages, on two blocks of a byte each.
use nightfall.Common.{ℕ, zero, suc, ◌≡◌, refl, true, some, List, [], ◌∷◌, take}
use nightfall.Common.Result.{ok}
use nightfall.P2p.{fits_wire, fit_blocks_response, largest_fitting_prefix}
use nightfall.P2p.Cut.{IsCut, fit_blocks_response-IsCut}

abbrev as_chunk : List ℕ → List (List ℕ)
as_chunk bytes = bytes ∷ []

abbrev two_blocks : List ℕ
two_blocks = 11 ∷ 12 ∷ []

both_fit : (n : ℕ) → fits_wire (as_chunk (take n two_blocks)) ≡ true
unfolding fits_wire nightfall.P2p.write_all nightfall.P2p.write nightfall.P2p.new_buffer
both_fit zero = refl
both_fit (suc zero) = refl
both_fit (suc (suc zero)) = refl
both_fit (suc (suc (suc n))) = refl

fit_blocks_response_example : IsCut as_chunk two_blocks (some (ok two_blocks))
unfolding fit_blocks_response largest_fitting_prefix nightfall.P2p.search fits_wire
    nightfall.P2p.write_all nightfall.P2p.write nightfall.P2p.new_buffer
fit_blocks_response_example = fit_blocks_response-IsCut as_chunk two_blocks (λ a b le h. both_fit a)
