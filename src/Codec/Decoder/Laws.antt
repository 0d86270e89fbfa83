-- ===== src/Codec/Decoder/Laws.antt =====
-- What a reset of the decoder clears, and what it keeps.
use mathlib.Core.Option.{none-ne-some, some-injective}
use securecom_voice.Base.{
  ℕ, ◌+◌, ◌*◌, ◌≤◌, ◌<◌, ◌≡◌, refl, inl, inr, some, arith, length, length-replicate, subst,
  get_elem?, drop, ap, replicate, Bool-cases, ◌==◌,
}
use securecom_voice.Base.Int.{pos}
use securecom_voice.Codec.Tables.{NbMode}
use securecom_voice.Codec.Encoder.Reset.{
  cleared, clear_array_lem, cleared_whole, get_elem?-replicate_append, get_elem?-cleared_after,
}
use securecom_voice.Codec.Decoder.{
  DecState, FloatOps, reset_state, done, reset_decoder, decoder_ctl, decoder_init,
}

module _ {P : Type 0} where
  -- The sizes that `nb_decoder_init` allocates.
  pub record IsDecoder (st : DecState P) : Type 0 where
    pub exc_size : length st.exc_buf ≡ st.frame_size + 2 * st.max_pitch + st.subframe_size + 12
    pub exc_start : st.exc ≡ 2 * st.max_pitch + st.subframe_size + 6
    pub sp_size : length st.mem_sp ≡ st.lpc_size
    pub callbacks_size : length st.speex_callbacks ≡ 16

  abbrev after_decoder_reset : DecState P → DecState P
  after_decoder_reset st = record st {
    mem_sp = cleared st.lpc_size st.mem_sp;
    exc_buf = cleared (st.frame_size + st.max_pitch + 1) st.exc_buf;
  }

  reset_decoder_lem :
      (st : DecState P) → IsDecoder st → reset_decoder st ≡ some (after_decoder_reset st)
  unfolding reset_decoder
  reset_decoder_lem st d =
      rw
        (
          clear_array_lem st.lpc_size st.mem_sp (omega (arith, d.sp_size)),
          clear_array_lem (st.frame_size + st.max_pitch + 1) st.exc_buf (omega (arith, d.exc_size)),
        )
        refl

  -- A reset of a decoder with the arrays that its initialization allocates, whose longest pitch and
  -- a sub-frame are together no shorter than a frame, succeeds. It clears the memory of the synthesis
  -- filter, and of the excitation the first samples, as many as a frame, the longest pitch and one;
  -- all samples from there on stay what they were, and with them those of the frame last decoded,
  -- which start later. Everything else in the state stays as it was.
  pub decoder_reset_keeps_excitation :
      {F : Type 0} (ops : FloatOps F) (st : DecState P)
      → IsDecoder st
      → st.frame_size ≤ st.max_pitch + st.subframe_size
      → (st' : DecState P) × ((decoder_ctl ops st reset_state ≡ some (done, st'))
          × ((st' ≡ record st { mem_sp = replicate st.lpc_size (pos 0); exc_buf = st'.exc_buf })
              × (((i : ℕ)
                    → i < st.frame_size + st.max_pitch + 1
                    → get_elem? st'.exc_buf i ≡ some (pos 0))
                  × (((i : ℕ)
                        → st.frame_size + st.max_pitch + 1 ≤ i
                        → get_elem? st'.exc_buf i ≡ get_elem? st.exc_buf i)
                      × (st.frame_size + st.max_pitch + 1 ≤ st.exc)))))
  unfolding decoder_ctl
  decoder_reset_keeps_excitation ops st d wide =
      let n = st.frame_size + st.max_pitch + 1 in
      (
        after_decoder_reset st,
        (
          rw (reset_decoder_lem st d) refl,
          (
            ap (λ m. record st { mem_sp = m; exc_buf = cleared n st.exc_buf })
                (cleared_whole st.lpc_size st.mem_sp d.sp_size),
            (
              get_elem?-replicate_append n (pos 0) (drop n st.exc_buf),
              (
                λ i h. get_elem?-cleared_after n st.exc_buf i h (omega (arith, d.exc_size)),
                omega (arith, d.exc_start),
              ),
            ),
          ),
        ),
      )

  pub decoder_init-IsDecoder :
      (default_user : P) (m : NbMode) (stack : ℕ) (st : DecState P)
      → decoder_init default_user m stack ≡ some st
      → IsDecoder st
  unfolding decoder_init
  decoder_init-IsDecoder default_user m stack st e = elim (Bool-cases (m.subframe_size == 0)) [
    | inl zero_size ↦ absurd (none-ne-some st (rw zero_size at e))
    | inr sized ↦ subst IsDecoder (some-injective _ _ (rw sized at e)) (record {
      exc_size = length-replicate _ _;
      exc_start = refl;
      sp_size = length-replicate _ _;
      callbacks_size = refl;
    })
  ]
