-- ===== src/Plc/Write.antt =====
-- `memcpy` into an array that has room for it: the array's length, and its start.
use securecom_voice.Base.{
  ◌+◌, ◌≤◌, ◌≡◌, ap, ◌∙◌, ℕ, List, ◌++◌, arith, length, take, drop, length-take, length-drop,
  length-append, take-append,
}
use securecom_voice.Plc.{write_at}

module _ {A : Type 0} (xs : List A) (i : ℕ) (ys : List A) where
  pub length-write_at : i + length ys ≤ length xs → length (write_at xs i ys) ≡ length xs
  length-write_at h = omega (
    arith,
    length-append (take i xs ++ ys) (drop (i + length ys) xs),
    length-append (take i xs) ys,
    length-take i xs,
    length-drop (i + length ys) xs,
  )

  pub take-write_at : i ≤ length xs → take (i + length ys) (write_at xs i ys) ≡ take i xs ++ ys
  take-write_at h =
      let whole : i + length ys ≡ length (take i xs ++ ys) =
        omega (arith, length-append (take i xs) ys, length-take i xs) in
      ap (λ n. take n (take i xs ++ ys ++ drop (i + length ys) xs)) whole
      ∙ take-append (take i xs ++ ys) (drop (i + length ys) xs)
