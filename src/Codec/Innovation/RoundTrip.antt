-- ===== src/Codec/Innovation/RoundTrip.antt =====
-- The decoder reads the innovation that the encoder goes on with.
use native.Mathlib.Nat.{mul-le-mul_right, pow-succ', suc-mul}
use securecom_voice.Base.{
  ℕ, zero, suc, ◌+◌, ◌-◌, ◌*◌, ◌/◌, ◌^◌, ◌≤◌, ◌<◌, ◌≡◌, refl, sym, ap, ◌∙◌, subst, Bool, true,
  false, some, List, [], ◌∷◌, ◌++◌, arith, map, take, drop, length, length-map, length-take,
  length-drop, length-append, leb, if◌then◌else◌,
}
use securecom_voice.Base.Int.{ℤ, pos, ◌-ℤ◌}
use securecom_voice.Memory.{Allocator, IsAllocator}
use securecom_voice.Bits.{SpeexBits, cursor}
use securecom_voice.Bits.Ahead.{HasAhead}
use securecom_voice.Bits.Pack.Step.{IsOpen}
use securecom_voice.Bits.Stream.{IsFrame, Holds, size}
use securecom_voice.Bits.Transfer.{read_from, write}
use securecom_voice.Bits.RoundTrip.{delivery}
use securecom_voice.Bits.Unpack.Laws.{moved}
use securecom_voice.Codec.Lsp.{shift_left}
use securecom_voice.Codec.Tables.{SplitCbParams}
use securecom_voice.Codec.Innovation.{
  shape_at, index_frame, pack_indices, put_together, read_codewords, split_cb_shape_sign_unquant,
}
use securecom_voice.Codec.Innovation.Codewords.{IsParams, read_codewords_lem}

-- What the encoder's search chooses from: the entries, with and without the sign.
abbrev pub AreIndices : SplitCbParams → List ℕ → Type 0
AreIndices params [] = Unit
AreIndices params (i ∷ ind) =
    (i < 2 ^ (params.shape_bits + params.have_sign)) × AreIndices params ind

index_frame-IsFrame :
    (params : SplitCbParams) (ind : List ℕ)
    → IsParams params
    → AreIndices params ind
    → IsFrame (index_frame params ind)
unfolding index_frame
index_frame-IsFrame params [] p h = tt
index_frame-IsFrame params (i ∷ ind) p h = (h.0, omega arith, index_frame-IsFrame params ind p h.1)

-- Without its sign an index is an entry of the codebook.
entry-lt : (k s i : ℕ) → s ≤ 1 → i < 2 ^ (k + s) → (if leb (2 ^ k) i then i - 2 ^ k else i) < 2 ^ k
entry-lt k zero i l h =
    let small : i < 2 ^ k = subst (λ w. i < 2 ^ w) (omega arith) h in ground (arith, small)
entry-lt k (suc zero) i l h =
    let wide : i < 2 ^ suc k = subst (λ w. i < 2 ^ w) {x = k + 1} {y = suc k} (omega arith) h in
    ground (arith, wide, pow-succ' 2 k)
entry-lt k (suc (suc s)) i l h = absurd (omega arith)

shape_at-some :
    (shape_cb : List ℤ) (n m : ℕ) (negative : Bool) (x : ℕ)
    → x < m
    → m * n ≤ length shape_cb
    → (v : List ℤ) × ((shape_at shape_cb n negative x ≡ some v) × (length v ≡ n))
unfolding shape_at
shape_at-some shape_cb n m negative x h l =
    let fits : x * n + n ≤ length shape_cb =
      omega (arith, suc-mul x n, mul-le-mul_right {m = suc x} {n = m} n h) in
    let inside : leb (x * n + n) (length shape_cb) ≡ true = ground (arith, fits) in
    let part = map (shift_left 9) (take n (drop (x * n) shape_cb)) in
    let long : length part ≡ n =
      length-map (take n (drop (x * n) shape_cb)) (shift_left 9)
      ∙ length-take n (drop (x * n) shape_cb)
      ∙ omega (arith, length-drop (x * n) shape_cb) in
    elim negative as (λ m. (v : List ℤ) × ((shape_at shape_cb n m x ≡ some v) × (length v ≡ n))) [
      | true ↦
          (map (λ v. pos 0 -ℤ v) part, (rw inside refl, length-map part (λ v. pos 0 -ℤ v) ∙ long))
      | false ↦ (part, (rw inside refl, long))
    ]

put_together-some :
    (shape_cb : List ℤ) (params : SplitCbParams) (ind : List ℕ)
    → IsParams params
    → 2 ^ params.shape_bits * params.subvect_size ≤ length shape_cb
    → AreIndices params ind
    → (e : List ℤ) × ((put_together shape_cb params ind ≡ some e)
        × (length e ≡ length ind * params.subvect_size))
unfolding put_together
put_together-some shape_cb params [] p l h = ([], (refl, omega arith))
put_together-some shape_cb params (i ∷ ind) p l h =
    let size = 2 ^ params.shape_bits in
    let (v, (e, c)) =
      shape_at-some shape_cb params.subvect_size size (leb size i)
        (if leb size i then i - size else i) (entry-lt params.shape_bits params.have_sign i p.0 h.0)
        l in
    let (vs, (es, cs)) = put_together-some shape_cb params ind p l h.1 in
    (
      v ++ vs,
      (
        rw (e, es) refl,
        length-append v vs ∙ omega (arith, c, cs, suc-mul (length ind) params.subvect_size),
      ),
    )

unquant_lem :
    (shape_cb : List ℤ) (params : SplitCbParams) (ind : List ℕ) (b : SpeexBits) (e : List ℤ)
    → IsParams params
    → length ind ≡ params.nb_subvect
    → HasAhead b (size (index_frame params ind))
    → Holds b.chars (cursor b) (index_frame params ind)
    → put_together shape_cb params ind ≡ some e
    → split_cb_shape_sign_unquant shape_cb params b
      ≡ some (e, moved b (size (index_frame params ind)))
unfolding split_cb_shape_sign_unquant
unquant_lem shape_cb params ind b e p n h held made =
    let (codewords, read, same) = read_codewords_lem shape_cb params ind b p h held in
    rw (sym (ap (λ k. read_codewords params k b) n) ∙ read, same, made) refl

-- The innovation of a sub-frame, from the indices that the encoder's search chose: packed into an
-- empty stream, written to a packet and read by the receiver, it is the excitation that the encoder
-- goes on with, with as many samples as the parts have, where the codebook has an entry for every
-- index and the streams have room.
pub innovation_round_trip :
    (a : Allocator) (b b' : SpeexBits) (shape_cb : List ℤ) (params : SplitCbParams) (ind : List ℕ)
    (max_nbytes : ℕ)
    → IsAllocator a
    → IsOpen b
    → cursor b ≡ 0
    → IsParams params
    → length ind ≡ params.nb_subvect
    → AreIndices params ind
    → 2 ^ params.shape_bits * params.subvect_size ≤ length shape_cb
    → size (index_frame params ind) + 8 < b.buf_size * 8
    → (size (index_frame params ind) + 7) / 8 ≤ max_nbytes
    → length b'.chars ≡ b'.buf_size
    → (size (index_frame params ind) + 7) / 8 ≤ b'.buf_size
    → (packet : List ℕ) × (b₁ b₂ b₃ b₄ : SpeexBits) × (e : List ℤ) × (pack_indices a b params ind
        ≡ some b₁)
      × (write a b₁ max_nbytes ≡ some (packet, b₂))
      × (read_from a b' packet (length packet) ≡ some b₃)
      × (put_together shape_cb params ind ≡ some e)
      × (split_cb_shape_sign_unquant shape_cb params b₃ ≡ some (e, b₄))
      × (length e ≡ params.nb_subvect * params.subvect_size)
unfolding pack_indices
innovation_round_trip a b b' shape_cb params ind max_nbytes l v z p n h enough wide s t room =
    let frame = index_frame params ind in
    let (packet, b₁, b₂, b₃, e₁, e₂, e₃, d) =
      delivery a b b' frame max_nbytes l v z (index_frame-IsFrame params ind p h) wide s t room in
    let ahead : HasAhead b₃ (size frame) = record {
      readable = d.readable;
      clear = d.unread;
      room = d.whole;
    } in
    let (e, (made, long)) = put_together-some shape_cb params ind p enough h in
    (
      packet,
      b₁,
      b₂,
      b₃,
      moved b₃ (size frame),
      e,
      e₁,
      e₂,
      e₃,
      made,
      unquant_lem shape_cb params ind b₃ e p n ahead d.holds made,
      long ∙ ap (λ k. k * params.subvect_size) n,
    )
