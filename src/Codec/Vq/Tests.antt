-- ===== src/Codec/Vq/Tests.antt =====
-- The searches on a codebook of three entries of two numbers.
use securecom_voice.Base.{◌≡◌, refl, some, List, [], ◌∷◌, arith}
use securecom_voice.Base.Int.{ℤ, pos, negsuc, ◌+ℤ◌, ◌-ℤ◌, ◌*ℤ◌}
use securecom_voice.Codec.Rms.{shift_right, mult16_16}
use securecom_voice.Codec.Vq.{
  Candidate, candidates, product, place, offer, offer_all, vq_nbest, vq_nbest_sign,
}
use securecom_voice.Codec.Vq.Nearest.{
  Nearest, by_distance, by_sign, vq_nbest_lem, vq_nbest_sign_lem,
}

abbrev codebook : List ℤ
codebook = pos 1 ∷ pos 0 ∷ pos 3 ∷ pos 1 ∷ negsuc 3 ∷ negsuc 0 ∷ []

abbrev energy : List ℤ
energy = pos 1 ∷ pos 10 ∷ pos 17 ∷ []

abbrev input : List ℤ
input = pos 2 ∷ pos 1 ∷ []

-- What stands in arrays that nothing was written to.
abbrev old : Candidate
old = record { distance = pos 77; index = 99 }

abbrev places : List Candidate
places = old ∷ old ∷ []

-- At equal distances the earlier entry stands in front.
two_nearest :
    vq_nbest input codebook 3 energy places
    ≡ some
        (record { distance = negsuc 1; index = 0 } ∷ record { distance = negsuc 1; index = 1 } ∷ [])
unfolding vq_nbest candidates product offer_all offer place shift_right mult16_16 ◌+ℤ◌ ◌-ℤ◌ ◌*ℤ◌
two_nearest = refl

vq_nbest_lem_example :
    (cs : List Candidate) × (candidates by_distance input 0 3 codebook energy ≡ some cs)
    × Nearest cs places (vq_nbest input codebook 3 energy places)
vq_nbest_lem_example =
    vq_nbest_lem input codebook energy 3 places (omega arith) (omega arith) (omega arith)

vq_nbest_sign_lem_example :
    (cs : List Candidate) × (candidates (by_sign 3) input 0 3 codebook energy ≡ some cs)
    × Nearest cs places (vq_nbest_sign input codebook 3 energy places)
vq_nbest_sign_lem_example =
    vq_nbest_sign_lem input codebook energy 3 places (omega arith) (omega arith) (omega arith)
