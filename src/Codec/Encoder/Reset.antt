-- ===== src/Codec/Encoder/Reset.antt =====
-- What a reset of the encoder clears, and what it keeps.
use mathlib.Core.List.{append-nil}
use mathlib.Core.Option.{none-ne-some, some-injective}
use securecom_voice.Base.{
  ℕ, zero, suc, ◌+◌, ◌-◌, ◌≤◌, ◌<◌, ◌≡◌, refl, ap, ◌∙◌, drop-all, inl, inr, some, List, [], ◌∷◌,
  ◌++◌, arith, length, length-append, length-replicate, length-drop, subst, get_elem?, drop,
  replicate, Bool-cases, ◌==◌,
}
use securecom_voice.Base.Int.{ℤ, pos}
use securecom_voice.Codec.Tables.{NbMode}
use securecom_voice.Codec.Encoder.{clear_array, even_lsp, reset, encoder_ctl, encoder_init}
use securecom_voice.Codec.Requests.{EncState, reset_state, done}

length-even_lsp : (m i n : ℕ) → length (even_lsp m i n) ≡ n
unfolding even_lsp
length-even_lsp m i zero = refl
length-even_lsp m i (suc n) = ap suc (length-even_lsp m (i + 1) n)

-- An array after zeros were written at its start.
abbrev pub cleared : ℕ → List ℤ → List ℤ
cleared n xs = replicate n (pos 0) ++ drop n xs

pub clear_array_lem : (n : ℕ) (xs : List ℤ) → n ≤ length xs → clear_array n xs ≡ some (cleared n xs)
unfolding clear_array
clear_array_lem n xs h = ground arith

length-cleared : (n : ℕ) (xs : List ℤ) → n ≤ length xs → length (cleared n xs) ≡ length xs
length-cleared n xs h = omega (
  arith,
  length-append (replicate n (pos 0)) (drop n xs),
  length-replicate n (pos 0),
  length-drop n xs,
)

pub get_elem?-replicate_append :
    (n : ℕ) (v : ℤ) (xs : List ℤ) (i : ℕ) → i < n → get_elem? (replicate n v ++ xs) i ≡ some v
get_elem?-replicate_append zero v xs i h = absurd (omega arith)
get_elem?-replicate_append (suc n) v xs zero h = refl
get_elem?-replicate_append (suc n) v xs (suc i) h =
    get_elem?-replicate_append n v xs i (omega arith)

pub get_elem?-cleared_after :
    (n : ℕ) (xs : List ℤ) (i : ℕ)
    → n ≤ i
    → n ≤ length xs
    → get_elem? (cleared n xs) i ≡ get_elem? xs i
get_elem?-cleared_after zero xs i h k = refl
get_elem?-cleared_after (suc n) [] i h k = absurd (omega arith)
get_elem?-cleared_after (suc n) (x ∷ xs) zero h k = absurd (omega arith)
get_elem?-cleared_after (suc n) (x ∷ xs) (suc i) h k =
    get_elem?-cleared_after n xs i (omega arith) (omega arith)

pub cleared_whole : (n : ℕ) (xs : List ℤ) → length xs ≡ n → cleared n xs ≡ replicate n (pos 0)
cleared_whole n xs e =
    ap (λ ys. replicate n (pos 0) ++ ys) (drop-all n xs (omega arith))
    ∙ append-nil (replicate n (pos 0))

-- An array of `n` numbers and one: the first `n` are zero, the last is as before.
abbrev pub AreClearedBut : ℕ → (before after : List ℤ) → Type 0
AreClearedBut n before after =
    ((i : ℕ) → i < n → get_elem? after i ≡ some (pos 0)) × (get_elem? after n ≡ get_elem? before n)

cleared_but : (n : ℕ) (xs : List ℤ) → n ≤ length xs → AreClearedBut n xs (cleared n xs)
cleared_but n xs h = (
  get_elem?-replicate_append n (pos 0) (drop n xs),
  get_elem?-cleared_after n xs n (omega arith) h,
)

module _ {F : Type 0} where
  -- The sizes that `nb_encoder_init` allocates.
  pub record IsAllocated (st : EncState F) : Type 0 where
    pub win_size : length st.win_buf ≡ st.window_size - st.frame_size
    pub exc_size : length st.exc_buf ≡ st.frame_size + st.max_pitch + 2
    pub sw_size : length st.sw_buf ≡ st.frame_size + st.max_pitch + 2
    pub lsp_size : length st.old_lsp ≡ st.lpc_size
    pub sp_size : length st.mem_sp ≡ st.lpc_size
    pub memory_size : length st.mem_sw ≡ st.lpc_size
    pub whole_size : length st.mem_sw_whole ≡ st.lpc_size
    pub exc_memory_size : length st.mem_exc ≡ st.lpc_size

  -- The arrays and the flags after a reset.
  abbrev after_reset : EncState F → EncState F
  after_reset st = record st {
    bounded_pitch = pos 1;
    first = pos 1;
    old_lsp =
        even_lsp st.lpc_size 0 st.lpc_size ++ drop st.lpc_size (cleared st.lpc_size st.old_lsp);
    mem_sw = cleared st.lpc_size st.mem_sw;
    mem_sw_whole = cleared st.lpc_size st.mem_sw_whole;
    mem_sp = cleared st.lpc_size st.mem_sp;
    mem_exc = cleared st.lpc_size st.mem_exc;
    exc_buf = cleared (st.frame_size + st.max_pitch + 1) st.exc_buf;
    sw_buf = cleared (st.frame_size + st.max_pitch + 1) st.sw_buf;
    win_buf = cleared (st.window_size - st.frame_size) st.win_buf;
  }

  reset_lem : (st : EncState F) → IsAllocated st → reset st ≡ some (after_reset st)
  unfolding reset
  reset_lem st a =
      rw
        (
          clear_array_lem st.lpc_size st.old_lsp (omega (arith, a.lsp_size)),
          clear_array_lem st.lpc_size st.mem_sw (omega (arith, a.memory_size)),
          clear_array_lem st.lpc_size st.mem_sw_whole (omega (arith, a.whole_size)),
          clear_array_lem st.lpc_size st.mem_sp (omega (arith, a.sp_size)),
          clear_array_lem st.lpc_size st.mem_exc (omega (arith, a.exc_memory_size)),
          clear_array_lem (st.frame_size + st.max_pitch + 1) st.exc_buf (omega (arith, a.exc_size)),
          clear_array_lem (st.frame_size + st.max_pitch + 1) st.sw_buf (omega (arith, a.sw_size)),
          clear_array_lem (st.window_size - st.frame_size) st.win_buf (omega (arith, a.win_size)),
        )
        refl

  -- A reset of an encoder with the arrays that its initialization allocates succeeds. It sets the
  -- flags of the first frame and of the bounded pitch to one and clears the window and four memories
  -- of the filters whole, but the excitation and the weighted signal only up to, and not including,
  -- their last sample, which stays what it was. Everything else in the state, but for the pairs of
  -- the frame before, stays as it was.
  pub reset_keeps_last_sample :
      (of_int : ℤ → F) (st : EncState F)
      → IsAllocated st
      → (st' : EncState F) × ((encoder_ctl of_int st reset_state ≡ some (done, st'))
          × ((st' ≡ record st {
            bounded_pitch = pos 1;
            first = pos 1;
            old_lsp = st'.old_lsp;
            mem_sw = replicate st.lpc_size (pos 0);
            mem_sw_whole = replicate st.lpc_size (pos 0);
            mem_sp = replicate st.lpc_size (pos 0);
            mem_exc = replicate st.lpc_size (pos 0);
            exc_buf = st'.exc_buf;
            sw_buf = st'.sw_buf;
            win_buf = replicate (st.window_size - st.frame_size) (pos 0);
          })
              × (AreClearedBut (st.frame_size + st.max_pitch + 1) st.exc_buf st'.exc_buf
                  × AreClearedBut (st.frame_size + st.max_pitch + 1) st.sw_buf st'.sw_buf)))
  unfolding encoder_ctl
  reset_keeps_last_sample of_int st a =
      let n = st.frame_size + st.max_pitch + 1 in
      (
        after_reset st,
        (
          rw (reset_lem st a) refl,
          (
            rw
                (
                  cleared_whole st.lpc_size st.mem_sw a.memory_size,
                  cleared_whole st.lpc_size st.mem_sw_whole a.whole_size,
                  cleared_whole st.lpc_size st.mem_sp a.sp_size,
                  cleared_whole st.lpc_size st.mem_exc a.exc_memory_size,
                  cleared_whole (st.window_size - st.frame_size) st.win_buf a.win_size,
                )
                refl,
            (
              cleared_but n st.exc_buf (omega (arith, a.exc_size)),
              cleared_but n st.sw_buf (omega (arith, a.sw_size)),
            ),
          ),
        ),
      )

  pub encoder_init-IsAllocated :
      (of_int : ℤ → F) (m : NbMode) (stack : ℕ) (st : EncState F)
      → encoder_init of_int m stack ≡ some st
      → IsAllocated st
  unfolding encoder_init
  encoder_init-IsAllocated of_int m stack st e = elim (Bool-cases (m.subframe_size == 0)) [
    | inl zero_size ↦ absurd (none-ne-some st (rw zero_size at e))
    | inr sized ↦ subst IsAllocated (some-injective _ _ (rw sized at e)) (record {
      win_size = length-replicate _ _;
      exc_size = length-replicate _ _;
      sw_size = length-replicate _ _;
      lsp_size = length-even_lsp m.lpc_size 0 m.lpc_size;
      sp_size = length-replicate _ _;
      memory_size = length-replicate _ _;
      whole_size = length-replicate _ _;
      exc_memory_size = length-replicate _ _;
    })
  ]
