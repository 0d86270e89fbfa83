-- ===== src/Codec/Lsp/Agreement.antt =====
-- The encoder and the decoder agree on the line spectral pairs.
use mathlib.Core.Option.{some-injective}
use securecom_voice.Base.{
  subst, ℕ, ◌+◌, ◌*◌, ◌<◌, ◌≡◌, sym, ap, ◌∙◌, false, some, List, ◌++◌, map, arith, length,
  length-take, length-drop, length-map, take, drop,
}
use securecom_voice.Base.Int.{ℤ, pos}
use securecom_voice.Memory.{Allocator}
use securecom_voice.Bits.{SpeexBits, cursor}
use securecom_voice.Bits.Pack.Step.{IsOpen}
use securecom_voice.Bits.RoundTrip.{unpack-pack}
use securecom_voice.Codec.Lsp.{
  Codebooks, zip_with, sub16, twice, pshr16, linear, compute_quant_weights, entry, remainder,
  lsp_quant, lsp_weight_quant, lsp_quant_nb, lsp_unquant_nb,
}
use securecom_voice.Codec.Lsp.Halves.{IsOrdered, length-zip_with}
use securecom_voice.Codec.Lsp.Laws.{
  IsCodebooks, AreNear, AreClose_lem, entry-AreChars, low_part, arrays_lem,
}
use securecom_voice.Codec.Lsp.Runs.{indices, array, quant_run, unquant_run}
use securecom_voice.Codec.Lsp.Stages.{
  lsp_quant_lem, lsp_weight_quant_lem, length-entry, weights_from_lem, length-linear,
}

-- What the stages leave, by the indices chosen.
module _ (t : Codebooks) (lsp : List ℤ) where
  unfoldable left0 : ℕ → List ℤ
  left0 i0 = remainder (zip_with sub16 lsp (linear 0 (length lsp))) (entry t.cdbk_nb 10 i0)

  unfoldable low1 : ℕ → ℕ → List ℤ
  low1 i0 i1 = remainder (take 5 (map twice (left0 i0))) (entry t.cdbk_nb_low1 5 i1)

  unfoldable low2 : ℕ → ℕ → ℕ → List ℤ
  low2 i0 i1 i2 = remainder (map twice (low1 i0 i1)) (entry t.cdbk_nb_low2 5 i2)

  unfoldable high1 : ℕ → ℕ → List ℤ
  high1 i0 i3 = remainder (drop 5 (map twice (left0 i0))) (entry t.cdbk_nb_high1 5 i3)

  unfoldable high2 : ℕ → ℕ → ℕ → List ℤ
  high2 i0 i3 i4 = remainder (map twice (high1 i0 i3)) (entry t.cdbk_nb_high2 5 i4)

  length-remainder :
      (xs cdbk : List ℤ) (dim i : ℕ)
      → length xs ≡ dim
      → length cdbk ≡ 64 * dim
      → i < 64
      → length (remainder xs (entry cdbk dim i)) ≡ dim
  length-remainder xs cdbk dim i e size h =
      length-zip_with _ xs (entry cdbk dim i) (e ∙ sym (length-entry cdbk dim i size h)) ∙ e

  choice0 :
      length lsp ≡ 10
      → length t.cdbk_nb ≡ 640
      → (i0 : ℕ) × ((i0 < 64)
          × ((length (left0 i0) ≡ 10)
              × (lsp_quant (zip_with sub16 lsp (linear 0 (length lsp))) t.cdbk_nb 64
                  ≡ some (i0, left0 i0))))
  unfolding left0
  choice0 ten size =
      let x = zip_with sub16 lsp (linear 0 (length lsp)) in
      let wide : length x ≡ 10 =
        length-zip_with sub16 lsp (linear 0 (length lsp)) (sym (length-linear 0 (length lsp)))
        ∙ ten in
      let (i0, (l0, s0)) = lsp_quant_lem x t.cdbk_nb 10 wide size in
      (i0, (l0, (length-remainder x t.cdbk_nb 10 i0 wide size l0, s0)))

  choices_low :
      (ws : List ℤ) (i0 : ℕ)
      → length (left0 i0) ≡ 10
      → length t.cdbk_nb_low1 ≡ 320
      → length t.cdbk_nb_low2 ≡ 320
      → (i1 : ℕ) × (i2 : ℕ) × ((i1 < 64)
          × ((i2 < 64)
              × ((lsp_weight_quant (take 5 (map twice (left0 i0))) ws t.cdbk_nb_low1 64
                    ≡ some (i1, low1 i0 i1))
                  × (lsp_weight_quant (map twice (low1 i0 i1)) ws t.cdbk_nb_low2 64
                      ≡ some (i2, low2 i0 i1 i2)))))
  unfolding low1 low2
  choices_low ws i0 e size1 size2 =
      let half = take 5 (map twice (left0 i0)) in
      let n : length half ≡ 5 =
        omega (arith, length-take 5 (map twice (left0 i0)), length-map (left0 i0) twice, e) in
      let (i1, (l1, s1)) = lsp_weight_quant_lem half ws t.cdbk_nb_low1 5 n size1 in
      let left = remainder half (entry t.cdbk_nb_low1 5 i1) in
      let m : length (map twice left) ≡ 5 =
        length-map left twice ∙ length-remainder half t.cdbk_nb_low1 5 i1 n size1 l1 in
      let (i2, (l2, s2)) = lsp_weight_quant_lem (map twice left) ws t.cdbk_nb_low2 5 m size2 in
      (i1, i2, (l1, (l2, (s1, s2))))

  choices_high :
      (ws : List ℤ) (i0 : ℕ)
      → length (left0 i0) ≡ 10
      → length t.cdbk_nb_high1 ≡ 320
      → length t.cdbk_nb_high2 ≡ 320
      → (i3 : ℕ) × (i4 : ℕ) × ((i3 < 64)
          × ((i4 < 64)
              × ((lsp_weight_quant (drop 5 (map twice (left0 i0))) ws t.cdbk_nb_high1 64
                    ≡ some (i3, high1 i0 i3))
                  × (lsp_weight_quant (map twice (high1 i0 i3)) ws t.cdbk_nb_high2 64
                      ≡ some (i4, high2 i0 i3 i4)))))
  unfolding high1 high2
  choices_high ws i0 e size3 size4 =
      let half = drop 5 (map twice (left0 i0)) in
      let n : length half ≡ 5 =
        omega (arith, length-drop 5 (map twice (left0 i0)), length-map (left0 i0) twice, e) in
      let (i3, (l3, s3)) = lsp_weight_quant_lem half ws t.cdbk_nb_high1 5 n size3 in
      let left = remainder half (entry t.cdbk_nb_high1 5 i3) in
      let m : length (map twice left) ≡ 5 =
        length-map left twice ∙ length-remainder half t.cdbk_nb_high1 5 i3 n size3 l3 in
      let (i4, (l4, s4)) = lsp_weight_quant_lem (map twice left) ws t.cdbk_nb_high2 5 m size4 in
      (i3, i4, (l3, (l4, (s3, s4))))

  length-low_part :
      length lsp ≡ 10
      → (i0 i1 i2 : ℕ) (r3 r4 : List ℤ) → IsCodebooks t
      → i0 < 64
      → i1 < 64
      → i2 < 64
      → length (
          low_part lsp
            (linear 0 (length lsp))
            (entry t.cdbk_nb 10 i0)
            (entry t.cdbk_nb_low1 5 i1)
            (entry t.cdbk_nb_low2 5 i2)
            r3
            r4)
        ≡ 5
  length-low_part ten i0 i1 i2 r3 r4 k l0 l1 l2 =
      let x = zip_with sub16 lsp (linear 0 (length lsp)) in
      let wide : length x ≡ 10 =
        length-zip_with sub16 lsp (linear 0 (length lsp)) (sym (length-linear 0 (length lsp)))
        ∙ ten in
      let left = remainder x (entry t.cdbk_nb 10 i0) in
      let e : length left ≡ 10 = length-remainder x t.cdbk_nb 10 i0 wide k.nb_size l0 in
      let half = take 5 (map twice left) in
      let n : length half ≡ 5 =
        omega (arith, length-take 5 (map twice left), length-map left twice, e) in
      let rest = remainder half (entry t.cdbk_nb_low1 5 i1) in
      length-remainder (map twice rest) t.cdbk_nb_low2 5 i2
        (length-map rest twice ∙ length-remainder half t.cdbk_nb_low1 5 i1 n k.low1_size l1)
        k.low2_size l2

  -- The array that the encoder goes on with is what the decoder makes of the indices.
  array_lem :
      IsCodebooks t
      → length lsp ≡ 10
      → IsOrdered (pos 0) lsp
      → (i0 i1 i2 i3 i4 : ℕ) → i0 < 64
      → i1 < 64
      → i2 < 64
      → i3 < 64
      → i4 < 64
      → AreNear (left0 i0)
      → zip_with sub16 lsp (map (pshr16 2) (low2 i0 i1 i2 ++ high2 i0 i3 i4))
        ≡ array t i0 i1 i2 i3 i4 (length lsp)
  unfolding left0 low1 low2 high1 high2 array
  array_lem k ten ord i0 i1 i2 i3 i4 l0 l1 l2 l3 l4 near =
      let lin = linear 0 (length lsp) in
      let row0 = entry t.cdbk_nb 10 i0 in
      let r1 = entry t.cdbk_nb_low1 5 i1 in
      let r2 = entry t.cdbk_nb_low2 5 i2 in
      let lt5 : length (take 5 lsp) ≡ 5 = omega (arith, length-take 5 lsp, ten) in
      let ld5 : length (drop 5 lsp) ≡ 5 = omega (arith, length-drop 5 lsp, ten) in
      arrays_lem lsp lin row0 r1 r2 (entry t.cdbk_nb_high1 5 i3) (entry t.cdbk_nb_high2 5 i4)
        (lt5
          ∙ sym (
              length-low_part ten i0 i1 i2 (entry t.cdbk_nb_high1 5 i3) (entry t.cdbk_nb_high2 5 i4)
                k l0 l1 l2))
        (AreClose_lem (pos 0) lsp 0 row0 (omega arith) ord (omega (arith, ten))
          (length-entry t.cdbk_nb 10 i0 k.nb_size l0 ∙ sym ten)
          (entry-AreChars t.cdbk_nb 10 i0 k.nb_chars) near)
        (entry-AreChars t.cdbk_nb_low1 5 i1 k.low1_chars)
        (entry-AreChars t.cdbk_nb_low2 5 i2 k.low2_chars)
        (entry-AreChars t.cdbk_nb_high1 5 i3 k.high1_chars)
        (entry-AreChars t.cdbk_nb_high2 5 i4 k.high2_chars)
        (length-entry t.cdbk_nb_low1 5 i1 k.low1_size l1 ∙ sym lt5)
        (length-entry t.cdbk_nb_low2 5 i2 k.low2_size l2 ∙ sym lt5)
        (length-entry t.cdbk_nb_high1 5 i3 k.high1_size l3 ∙ sym ld5)
        (length-entry t.cdbk_nb_high2 5 i4 k.high2_size l4 ∙ sym ld5)

-- The decoder reads back the pairs that the encoder keeps. The encoder quantizes ten ordered pairs
-- between zero and half a turn, with codebooks of 64 entries each and room for 30 bits in the
-- stream, where the first stage leaves no more than 5000 of any pair; a decoder that reads from
-- where the encoder began gets the array that the encoder goes on with.
pub lsp_unquant_nb-lsp_quant_nb :
    (t : Codebooks) (a : Allocator) (b : SpeexBits) (lsp : List ℤ)
    → IsCodebooks t
    → IsOpen b
    → b.overflow ≡ false
    → cursor b + 30 < b.buf_size * 8
    → length lsp ≡ 10
    → IsOrdered (pos 0) lsp
    → (id0 : ℕ) (left : List ℤ)
    → lsp_quant (zip_with sub16 lsp (linear 0 (length lsp))) t.cdbk_nb 64 ≡ some (id0, left)
    → AreNear left
    → (qlsp : List ℤ) × (b₁ : SpeexBits) × (b₂ : SpeexBits) × ((lsp_quant_nb t a lsp b
          ≡ some (qlsp, b₁))
        × (lsp_unquant_nb t 10 (record b₁ { char_ptr = b.char_ptr; bit_ptr = b.bit_ptr })
            ≡ some (qlsp, b₂)))
unfolding compute_quant_weights
lsp_unquant_nb-lsp_quant_nb t a b lsp k v o fits ten ord id0 left e0 near =
    let (ws, ew) = weights_from_lem (pos 0) lsp (omega arith) ord in
    let (i0, (l0, (n0, s0))) = choice0 t lsp ten k.nb_size in
    let (i1, i2, (l1, (l2, (s1, s2)))) =
      choices_low t lsp (take 5 ws) i0 n0 k.low1_size k.low2_size in
    let (i3, i4, (l3, (l4, (s3, s4)))) =
      choices_high t lsp (drop 5 ws) i0 n0 k.high1_size k.high2_size in
    let (b₁, b₂, p, u, c, w) =
      unpack-pack a b (indices t i0 i1 i2 i3 i4) v o
        (
          l0,
          omega arith,
          (l1, omega arith, (l2, omega arith, (l3, omega arith, (l4, omega arith, tt)))),
        )
        (omega arith) in
    let chosen : (id0, left) ≡ (i0, left0 t lsp i0) = some-injective _ _ (sym e0 ∙ s0) in
    let near' : AreNear (left0 t lsp i0) = subst AreNear (ap (λ r. r.1) chosen) near in
    let same = array_lem t lsp k ten ord i0 i1 i2 i3 i4 l0 l1 l2 l3 l4 near' in
    let back = record b₁ { char_ptr = b.char_ptr; bit_ptr = b.bit_ptr } in
    let (b₃, d) = unquant_run t i0 i1 i2 i3 i4 back b₂ (length lsp) k l0 l1 l2 l3 l4 u in
    (
      array t i0 i1 i2 i3 i4 (length lsp),
      b₁,
      b₃,
      (
        quant_run t i0 i1 i2 i3 i4 a b b₁ lsp ws (left0 t lsp i0) (low1 t lsp i0 i1)
              (low2 t lsp i0 i1 i2) (high1 t lsp i0 i3) (high2 t lsp i0 i3 i4) ew s0 s1 s2 s3 s4 p
            ∙ ap (λ y. some (y, b₁)) same,
        ap (λ n. lsp_unquant_nb t n back) (sym ten) ∙ d,
      ),
    )
