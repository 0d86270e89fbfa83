-- ===== src/Codec/Lsp/Runs.antt =====
-- A run of the quantizer of line spectral pairs, and one of its inverse, from the results of their steps.
use securecom_voice.Base.{ℕ, ◌<◌, ◌≡◌, refl, ap, some, List, [], ◌∷◌, ◌++◌, map, length, take, drop}
use securecom_voice.Base.Int.{ℤ}
use securecom_voice.Memory.{Allocator}
use securecom_voice.Bits.{SpeexBits}
use securecom_voice.Bits.Stream.{
  Frame, pack_all, unpack_all, pack_all-cons, pack_all-nil, unpack_all-cons,
}
use securecom_voice.Codec.Rms.{add16}
use securecom_voice.Codec.Lsp.{
  Codebooks, zip_with, shift_left, sub16, twice, pshr16, linear, compute_quant_weights, entry,
  raise, lsp_quant, lsp_weight_quant, lsp_quant_nb, lsp_unquant_nb,
}
use securecom_voice.Codec.Lsp.Laws.{IsCodebooks}
use securecom_voice.Codec.Lsp.Stages.{entry_in_lem}

module _ (t : Codebooks) (i0 i1 i2 i3 i4 : ℕ) where
  abbrev pub indices : Frame
  indices = (i0, 6) ∷ (i1, 6) ∷ (i2, 6) ∷ (i3, 6) ∷ (i4, 6) ∷ []

  -- What the decoder makes of the indices.
  unfoldable pub array : ℕ → List ℤ
  array order =
      raise 3
        (zip_with (λ l c. add16 l (shift_left 4 c))
          (take 5 (raise 5 (linear 0 order) (entry t.cdbk_nb 10 i0))) (entry t.cdbk_nb_low1 5 i1))
        (entry t.cdbk_nb_low2 5 i2)
      ++ raise 3
          (raise 4 (drop 5 (raise 5 (linear 0 order) (entry t.cdbk_nb 10 i0)))
            (entry t.cdbk_nb_high1 5 i3))
          (entry t.cdbk_nb_high2 5 i4)

  pub quant_run :
      (a : Allocator) (b b₁ : SpeexBits) (lsp ws q low1 low2 high1 high2 : List ℤ)
      → compute_quant_weights lsp ≡ some ws
      → lsp_quant (zip_with sub16 lsp (linear 0 (length lsp))) t.cdbk_nb 64 ≡ some (i0, q)
      → lsp_weight_quant (take 5 (map twice q)) (take 5 ws) t.cdbk_nb_low1 64 ≡ some (i1, low1)
      → lsp_weight_quant (map twice low1) (take 5 ws) t.cdbk_nb_low2 64 ≡ some (i2, low2)
      → lsp_weight_quant (drop 5 (map twice q)) (drop 5 ws) t.cdbk_nb_high1 64 ≡ some (i3, high1)
      → lsp_weight_quant (map twice high1) (drop 5 ws) t.cdbk_nb_high2 64 ≡ some (i4, high2)
      → pack_all a b indices ≡ some b₁
      → lsp_quant_nb t a lsp b ≡ some (zip_with sub16 lsp (map (pshr16 2) (low2 ++ high2)), b₁)
  unfolding lsp_quant_nb
  quant_run a b b₁ lsp ws q low1 low2 high1 high2 ew e0 e1 e2 e3 e4 p =
      let (c0, (p0, r0)) = pack_all-cons a b i0 6 _ b₁ p in
      let (c1, (p1, r1)) = pack_all-cons a c0 i1 6 _ b₁ r0 in
      let (c2, (p2, r2)) = pack_all-cons a c1 i2 6 _ b₁ r1 in
      let (c3, (p3, r3)) = pack_all-cons a c2 i3 6 _ b₁ r2 in
      let (c4, (p4, r4)) = pack_all-cons a c3 i4 6 [] b₁ r3 in
      rw (ew, e0, p0, e1, p1, e2, p2, e3, p3, e4, p4)
        (ap (λ c. some (zip_with sub16 lsp (map (pshr16 2) (low2 ++ high2)), c))
          (pack_all-nil a c4 b₁ r4))

  pub unquant_run :
      (b b₂ : SpeexBits) (order : ℕ)
      → IsCodebooks t
      → i0 < 64
      → i1 < 64
      → i2 < 64
      → i3 < 64
      → i4 < 64
      → unpack_all b (6 ∷ 6 ∷ 6 ∷ 6 ∷ 6 ∷ []) ≡ some (i0 ∷ i1 ∷ i2 ∷ i3 ∷ i4 ∷ [], b₂)
      → (b₃ : SpeexBits) × (lsp_unquant_nb t order b ≡ some (array order, b₃))
  unfolding lsp_unquant_nb array
  unquant_run b b₂ order k h0 h1 h2 h3 h4 p =
      let (c0, (p0, r0)) = unpack_all-cons b 6 _ i0 _ b₂ p in
      let (c1, (p1, r1)) = unpack_all-cons c0 6 _ i1 _ b₂ r0 in
      let (c2, (p2, r2)) = unpack_all-cons c1 6 _ i2 _ b₂ r1 in
      let (c3, (p3, r3)) = unpack_all-cons c2 6 _ i3 _ b₂ r2 in
      let (c4, (p4, r4)) = unpack_all-cons c3 6 [] i4 [] b₂ r3 in
      (
        c4,
        rw
            (
              p0,
              entry_in_lem t.cdbk_nb 10 i0 k.nb_size h0,
              p1,
              entry_in_lem t.cdbk_nb_low1 5 i1 k.low1_size h1,
              p2,
              entry_in_lem t.cdbk_nb_low2 5 i2 k.low2_size h2,
              p3,
              entry_in_lem t.cdbk_nb_high1 5 i3 k.high1_size h3,
              p4,
              entry_in_lem t.cdbk_nb_high2 5 i4 k.high2_size h4,
            )
            refl,
      )
